-- ===== src/Ledger/Invariant/Reserving.antt =====
-- A new reservation keeps the tables sound (`reserveSettlement`, src/database.ts).
use perk_os_nayori_platform.Prelude.{
  ℕ, String, ◌≡◌, refl, sym, ◌∙◌, ◌⊎◌, inl, inr, false, none, some, List, [], ◌∷◌, arith, ◌==◌,
  eq_iff, eq_refl, if◌then◌else◌, Option-cases, eq-cases, any,
}
use perk_os_nayori_platform.Prelude.Table.{lookup, lookup_key, lookup_of_any}
use perk_os_nayori_platform.Ledger.{
  QuoteStatus, SettlementRow, Ledger, find_settlement, passes_checks,
}
use perk_os_nayori_platform.Ledger.Reserve.{
  SettlementReservation, clashes_with, same_payment, validated_row, with_reservation,
}
use perk_os_nayori_platform.Ledger.Invariant.{settlement_key, IsSound, IsCoherent, quote_status}
use perk_os_nayori_platform.Ledger.Invariant.Finding.{status-update}

fresh_key :
    (input : SettlementReservation) (t : List SettlementRow)
    → any (clashes_with input) t ≡ false
    → any (λ s. s.settlement_id == input.settlement_id) t ≡ false
fresh_key input [] h = refl
fresh_key input (s ∷ t) h = ground (arith, fresh_key input t)

module _ (db_now : ℕ) (input : SettlementReservation) (db : Ledger) (sound : IsSound db)
    (quoted : quote_status input.quote_id db ≡ some QuoteStatus.issued)
    (free : any (clashes_with input) db.settlements ≡ false) where
  -- What an old settlement does not share with the new one.
  record Differs (j : String) (s : SettlementRow) : Type 0 where
    id : (input.settlement_id == j) ≡ false
    quote : (s.quote_id == input.quote_id) ≡ false
    payment : same_payment input.network input.txid s ≡ false

  differs : (j : String) (s : SettlementRow) → find_settlement j db ≡ some s → Differs j s
  differs j s h =
      let clash = lookup_of_any settlement_key (clashes_with input) j db.settlements s free h in
      record {
        id = ground (
          arith,
          clash,
          lookup_key settlement_key j db.settlements s h,
          eq_iff input.settlement_id j,
          eq_iff s.settlement_id input.settlement_id,
        );
        quote = ground (arith, clash);
        payment = ground (arith, clash);
      }

  quote_after :
      (j : String)
      → quote_status j (with_reservation db_now input db)
        ≡ (if input.quote_id == j then some QuoteStatus.reserved else quote_status j db)
  quote_after =
      status-update db_now input.quote_id QuoteStatus.reserved db QuoteStatus.issued quoted

  -- No settlement had the new key, so nothing belongs to it.
  new-absent : find_settlement input.settlement_id db ≡ none
  new-absent = elim (Option-cases (find_settlement input.settlement_id db)) [
    | inl absent ↦ absent
    | inr (s, held) ↦
        ground (arith, (differs input.settlement_id s held).id, eq_refl input.settlement_id)
  ]

  new-IsCoherent : IsCoherent (with_reservation db_now input db) (validated_row db_now input)
  unfolding lookup passes_checks
  new-IsCoherent = record {
    quote = ground (arith, quote_after input.quote_id, eq_refl input.quote_id);
    receipt = (sound.unsettled input.settlement_id new-absent).0;
    delivery = (sound.unsettled input.settlement_id new-absent).1;
    logged = ground (arith, eq_refl input.settlement_id);
    checked = refl;
  }

  old-IsCoherent :
      (j : String) (s : SettlementRow)
      → find_settlement j db ≡ some s
      → IsCoherent (with_reservation db_now input db) s
  unfolding lookup
  old-IsCoherent j s h =
      let c = sound.settled j s h in
      let d = differs j s h in
      record {
        quote = ground (
          arith,
          c.quote,
          quote_after s.quote_id,
          d.quote,
          eq_iff s.quote_id input.quote_id,
          eq_iff input.quote_id s.quote_id,
        );
        receipt = c.receipt;
        delivery = c.delivery;
        logged = ground (arith, c.logged, d.id, lookup_key settlement_key j db.settlements s h);
        checked = c.checked;
      }

  settlement-cases :
      (j : String) (s : SettlementRow)
      → find_settlement j (with_reservation db_now input db) ≡ some s
      → ((input.settlement_id ≡ j) × (s ≡ validated_row db_now input))
        ⊎ (find_settlement j db ≡ some s)
  unfolding lookup
  settlement-cases j s h = elim (eq-cases input.settlement_id j) [
    | inl same ↦ inl (same, ground (arith, eq_iff input.settlement_id j))
    | inr other ↦ inr (ground arith)
  ]

  one_per_quote :
      (j k : String) (s t : SettlementRow)
      → find_settlement j (with_reservation db_now input db) ≡ some s
      → find_settlement k (with_reservation db_now input db) ≡ some t
      → s.quote_id ≡ t.quote_id
      → j ≡ k
  one_per_quote j k s t hs ht e = elim (settlement-cases j s hs) [
    | inl (same, new) ↦ elim (settlement-cases k t ht) [
      | inl (same', new') ↦ sym same ∙ same'
      | inr old' ↦ ground (arith, (differs k t old').quote, eq_iff t.quote_id input.quote_id)
    ]
    | inr old ↦ elim (settlement-cases k t ht) [
      | inl (same', new') ↦
          ground (arith, (differs j s old).quote, eq_iff s.quote_id input.quote_id)
      | inr old' ↦ sound.one_per_quote j k s t old old' e
    ]
  ]

  one_per_payment :
      (j k : String) (s t : SettlementRow)
      → find_settlement j (with_reservation db_now input db) ≡ some s
      → find_settlement k (with_reservation db_now input db) ≡ some t
      → s.network ≡ t.network
      → s.txid ≡ t.txid
      → j ≡ k
  one_per_payment j k s t hs ht e f = elim (settlement-cases j s hs) [
    | inl (same, new) ↦ elim (settlement-cases k t ht) [
      | inl (same', new') ↦ sym same ∙ same'
      | inr old' ↦ ground (
        arith,
        (differs k t old').payment,
        eq_iff t.network input.network,
        eq_iff t.txid input.txid,
      )
    ]
    | inr old ↦ elim (settlement-cases k t ht) [
      | inl (same', new') ↦ ground (
        arith,
        (differs j s old).payment,
        eq_iff s.network input.network,
        eq_iff s.txid input.txid,
      )
      | inr old' ↦ sound.one_per_payment j k s t old old' e f
    ]
  ]

  pub with_reservation-IsSound : IsSound (with_reservation db_now input db)
  unfolding lookup
  with_reservation-IsSound = record {
    unique = (fresh_key input db.settlements free, sound.unique);
    settled = λ j s h. elim (settlement-cases j s h) [
      | inl (same, new) ↦ rw new new-IsCoherent
      | inr old ↦ old-IsCoherent j s old
    ];
    unsettled = λ j h. sound.unsettled j (ground arith);
    one_per_quote = one_per_quote;
    one_per_payment = one_per_payment;
  }
