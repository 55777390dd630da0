-- ===== src/Settlement/Broadcasts.antt =====
-- How often the payment of a quote is broadcast (src/settlement.ts over src/database.ts).
use perk_os_nayori_platform.Prelude.{
  String, ◌≡◌, refl, sym, ◌≢◌, ◌⊎◌, inl, inr, true, false, Option, none, some, ◌∷◌, Bool-cases,
  Option-cases, Result, ok, err,
}
use mathlib.Core.Path.{subst}
use perk_os_nayori_platform.Broadcast.{BroadcastResult}
use perk_os_nayori_platform.Ledger.{Ledger, StoreError}
use perk_os_nayori_platform.Ledger.Selecting.{SettlementRecord}
use perk_os_nayori_platform.Ledger.Reserve.{ReserveSettlementResult, Reserved, reserve_settlement}
use perk_os_nayori_platform.Ledger.Status.{update_settlement_status}
use perk_os_nayori_platform.Ledger.Reservations.{reserve_sound}
use perk_os_nayori_platform.Ledger.Invariant.{IsSound}
use perk_os_nayori_platform.Ledger.Invariant.Operations.{Reach-IsSound_from}
use perk_os_nayori_platform.Ledger.Reach.{Step, Reach}
use perk_os_nayori_platform.Reconciler.Runs.{Reach-trans}
use perk_os_nayori_platform.Settlement.{ValidatedPayment, Config, Services, Moments, World}
use perk_os_nayori_platform.Settlement.Settling.{
  normalized_outcome, status_after, reason_after, reservation_of, record_outcome, after_update,
  settle_reserved, after_reserve, settle_with, settle_validated,
}
use perk_os_nayori_platform.Settlement.Taken.{
  IsTaken, IsCommitting, IsTaken-Reach, taken-clashes, reserved-IsTaken,
}

module _ (config : Config) (services : Services) where
  after_update_lem :
      (r : Result StoreError (Option SettlementRecord × Ledger)) (w : World)
      → ((o : Option SettlementRecord) (db : Ledger) → r ≡ ok (o, db) → Reach w.ledger db)
      → Reach w.ledger (after_update config services r w).1.ledger
        × ((after_update config services r w).1.sent ≡ w.sent)
  after_update_lem (err e) w commits = (Reach.here, refl)
  after_update_lem (ok (o, db)) w commits = (commits o db refl, refl)

  record_outcome_lem :
      (m : Moments) (outcome : BroadcastResult) (r : Option SettlementRecord) (w : World)
      → IsCommitting m
      → Reach w.ledger (record_outcome config services m outcome r w).1.ledger
        × ((record_outcome config services m outcome r w).1.sent ≡ w.sent)
  unfolding record_outcome
  record_outcome_lem m outcome none w c = (Reach.here, refl)
  record_outcome_lem m outcome (some r) w c =
      let w' : World = record w { ledger = m.before_update w.ledger } in
      let (reached, same) =
        after_update_lem
          (update_settlement_status m.updated_at r.settlement_id (status_after outcome)
            (reason_after outcome) m.attempted_at w'.ledger)
          w'
          λ o db h. Reach.then Reach.here (
            Step.move m.updated_at r.settlement_id (status_after outcome) (reason_after outcome)
              m.attempted_at o h) in
      (Reach-trans (c.update w.ledger) reached, same)

  -- What a call may have sent: nothing, or the payment of a quote that then has a settlement.
  abbrev pub Sends : ValidatedPayment → World → World → Type 0
  Sends v w w' =
      (w'.sent ≡ w.sent)
      ⊎ ((w'.sent
            ≡ record { quote_id = v.token.quote_id; transaction = v.payment.transaction } ∷ w.sent)
          × IsTaken v.token.quote_id w'.ledger)

  settle_reserved_lem :
      (m : Moments) (send : String → BroadcastResult) (v : ValidatedPayment)
      (r : ReserveSettlementResult) (w : World)
      → IsCommitting m
      → IsSound w.ledger
      → (r.created ≡ true → IsTaken v.token.quote_id w.ledger)
      → (let w' = (settle_reserved config services m send v r w).1 in
          Reach w.ledger w'.ledger × Sends v w w' × (r.created ≡ false → w'.sent ≡ w.sent))
  unfolding settle_reserved
  settle_reserved_lem m send v r w c sound taken = elim (Bool-cases r.created) [
    | inr old ↦ rw (old, settle_reserved) (Reach.here, inl refl, λ h. refl)
    | inl new ↦
        let w1 : World = record w {
          sent =
              record { quote_id = v.token.quote_id; transaction = v.payment.transaction } ∷ w.sent;
        } in
        let (reached, same) =
          record_outcome_lem m (normalized_outcome v.transaction_id (send v.payment.transaction))
            r.settlement w1 c in
        rw (new, settle_reserved)
          (reached, inr (same, IsTaken-Reach sound reached (taken new)), λ h. cc)
  ]

  after_reserve_lem :
      (m : Moments) (send : String → BroadcastResult) (v : ValidatedPayment) (r : Reserved)
      (w : World)
      → IsCommitting m
      → IsSound w.ledger
      → reserve_settlement m.date_now m.reserved_at (reservation_of config services m v) w.ledger
        ≡ r
      → (let w' = (after_reserve config services m send v r w).1 in
          Reach w.ledger w'.ledger
          × Sends v w w'
          × (IsTaken v.token.quote_id w.ledger → w'.sent ≡ w.sent))
  unfolding reservation_of
  after_reserve_lem m send v (err e) w c sound h = (Reach.here, inl refl, λ t. refl)
  after_reserve_lem m send v (ok (r, db)) w c sound h =
      let input = reservation_of config services m v in
      let start : Reach w.ledger db =
        Reach.then Reach.here (Step.reserve m.date_now m.reserved_at input r h) in
      let w1 : World = record w { ledger = db } in
      let known = reserve_sound m.date_now m.reserved_at input w.ledger db h in
      let (reached, sends, none_sent) =
        settle_reserved_lem m send v r w1 c (Reach-IsSound_from sound start) λ new. elim known [
          | inl (old, _, _, _, _, _, _) ↦ cc
          | inr (_, e, _, _, _, _, _) ↦
              subst (IsTaken v.token.quote_id) (sym e)
                (reserved-IsTaken m.reserved_at input w.ledger)
        ] in
      (
        Reach-trans start reached,
        sends,
        λ taken. elim known [
          | inl (old, _, _, _, _, _, _) ↦ none_sent old
          | inr (_, _, _, _, _, q, able) ↦ absurd (taken-clashes input w.ledger taken able.unused)
        ],
      )

  settle_with_lem :
      (m : Moments) (send : String → BroadcastResult) (v : ValidatedPayment) (w : World)
      → IsCommitting m
      → IsSound w.ledger
      → (let w' = (settle_with config services m send v w).1 in
          Reach w.ledger w'.ledger
          × Sends v w w'
          × (IsTaken v.token.quote_id w.ledger → w'.sent ≡ w.sent))
  unfolding settle_with
  settle_with_lem m send v w c sound =
      let w1 : World = record w { ledger = m.before_reserve w.ledger } in
      let before = c.reserve w.ledger in
      let (reached, sends, none_sent) =
        after_reserve_lem m send v
          (reserve_settlement m.date_now m.reserved_at (reservation_of config services m v)
            w1.ledger)
          w1 c (Reach-IsSound_from sound before) refl in
      (Reach-trans before reached, sends, λ taken. none_sent (IsTaken-Reach sound before taken))

  settle_validated_parts :
      (m : Moments) (v : ValidatedPayment) (w : World)
      → IsCommitting m
      → IsSound w.ledger
      → (let w' = (settle_validated config services m v w).1 in
          Reach w.ledger w'.ledger
          × Sends v w w'
          × (IsTaken v.token.quote_id w.ledger → w'.sent ≡ w.sent))
  unfolding settle_validated
  settle_validated_parts m v w c sound = elim (Option-cases services.broadcaster) [
    | inl disabled ↦ rw (disabled, settle_validated) (Reach.here, inl refl, λ taken. refl)
    | inr (send, enabled) ↦ rw (enabled, settle_validated) (settle_with_lem m send v w c sound)
  ]

  -- A settle call writes to the tables only by the store's transactions. It broadcasts nothing, or
  -- once the payment that was validated, and then the payment's quote has a settlement.
  pub settle_validated_lem :
      (m : Moments) (v : ValidatedPayment) (w : World)
      → IsCommitting m
      → IsSound w.ledger
      → Reach w.ledger (settle_validated config services m v w).1.ledger
        × Sends v w (settle_validated config services m v w).1
  settle_validated_lem m v w c sound =
      let (reached, sends, _) = settle_validated_parts m v w c sound in (reached, sends)

  -- A settle call for a quote that has a settlement already broadcasts nothing.
  pub taken_not_sent :
      (m : Moments) (v : ValidatedPayment) (w : World)
      → IsCommitting m
      → IsSound w.ledger
      → IsTaken v.token.quote_id w.ledger
      → (settle_validated config services m v w).1.sent ≡ w.sent
  taken_not_sent m v w c sound taken =
      let (_, _, none_sent) = settle_validated_parts m v w c sound in none_sent taken

  -- A quote's payment is broadcast at most once, whatever other processes do: once a settle call
  -- has broadcast for a quote, no later call for that quote broadcasts anything, be it the same
  -- payment again, another payment, or one of the other protocol.
  pub broadcast_once :
      (m m' : Moments) (v v' : ValidatedPayment) (w w' : World)
      → IsCommitting m
      → IsCommitting m'
      → IsSound w.ledger
      → (settle_validated config services m v w).1.sent ≢ w.sent
      → Reach (settle_validated config services m v w).1.ledger w'.ledger
      → v'.token.quote_id ≡ v.token.quote_id
      → (settle_validated config services m' v' w').1.sent ≡ w'.sent
  broadcast_once m m' v v' w w' c c' sound sent later same =
      let (reached, sends) = settle_validated_lem m v w c sound in
      let middle = Reach-IsSound_from sound reached in
      elim sends [
        | inl kept ↦ absurd (sent kept)
        | inr (_, taken) ↦
            taken_not_sent m' v' w' c' (Reach-IsSound_from middle later)
              (subst (λ q. IsTaken q w'.ledger) (sym same) (IsTaken-Reach middle later taken))
      ]
