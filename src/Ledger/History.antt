-- ===== src/Ledger/History.antt =====
-- What a settlement goes through as transactions commit, and the log of it (src/database.ts).
use perk_os_nayori_platform.Prelude.{
  ℕ, String, ◌≡◌, refl, ap, ◌∙◌, ◌⊎◌, inl, inr, Bool, true, false, Option, some, arith, eq_iff,
  Bool-cases, eq-cases, any, includes, ok,
}
use mathlib.Core.Path.{subst}
use perk_os_nayori_platform.Prelude.Table.{lookup_of_any, lookup, lookup_key, lookup-update}
use perk_os_nayori_platform.Ledger.{
  SettlementRow, SettlementStatus, Ledger, find_settlement, is_open, is_validated,
}
use perk_os_nayori_platform.Ledger.Reserve.{SettlementReservation, with_reservation, clashes_with}
use perk_os_nayori_platform.Ledger.Claims.{picked_ids, pick_candidates, with_leases, leased_row}
use perk_os_nayori_platform.Ledger.Reconciling.{
  ReconciliationResultInput, pending, terminal, confirmed, with_pending, with_terminal,
  with_confirmed, apply_open, input_settlement_id,
}
use perk_os_nayori_platform.Ledger.Invariant.{IsSound, Moves, settlement_key}
use perk_os_nayori_platform.Ledger.Invariant.Moving.{
  with_status-Moves, with_pending-Moves, with_terminal-Moves, with_confirmed-Moves,
}
use perk_os_nayori_platform.Ledger.Invariant.Claiming.{picked_ids-is_claimable}
use perk_os_nayori_platform.Ledger.Invariant.Cases.{
  insert_cases, reserve_cases, move_cases, apply_cases, claim_cases, complete_cases,
}
use perk_os_nayori_platform.Ledger.Invariant.Operations.{lease_result, Reach-IsSound_from}
use perk_os_nayori_platform.Ledger.Reach.{NamesItsReceipt, Step, Reach}

-- The status changes that the store makes.
abbrev pub can_follow : SettlementStatus → SettlementStatus → Bool
can_follow from SettlementStatus.broadcast = is_validated from
can_follow from SettlementStatus.pending = is_open from
can_follow from SettlementStatus.confirmed = is_open from
can_follow from SettlementStatus.failed = is_open from
can_follow from SettlementStatus.dropped = is_open from
can_follow from SettlementStatus.validated = false
can_follow from SettlementStatus.reorged = false

-- `t` is what `s` may have become: the payment is the same, the status has moved along an edge or
-- not at all, and a row whose status is final has not changed in any column.
pub record Follows (s t : SettlementRow) : Type 0 where
  pub same_quote : t.quote_id ≡ s.quote_id
  pub same_network : t.network ≡ s.network
  pub same_txid : t.txid ≡ s.txid
  pub same_payer : t.payer ≡ s.payer
  pub same_raw_tx : t.raw_tx_hash ≡ s.raw_tx_hash
  pub moved : (t.status ≡ s.status) ⊎ (can_follow s.status t.status ≡ true)
  pub frozen : is_open s.status ≡ false → t ≡ s

abbrev pub Becomes : SettlementRow → Option SettlementRow → Type 0
Becomes s found = (t : SettlementRow) × (found ≡ some t) × Follows s t

Follows-refl : (s : SettlementRow) → Follows s s
Follows-refl s = record {
  same_quote = refl;
  same_network = refl;
  same_txid = refl;
  same_payer = refl;
  same_raw_tx = refl;
  moved = inl refl;
  frozen = λ h. refl;
}

Moves-Becomes :
    {id : String} {before after : SettlementRow} {db db' : Ledger}
    → Moves id before after db db'
    → Follows before after
    → (j : String) (s : SettlementRow) → find_settlement j db ≡ some s
    → Becomes s (find_settlement j db')
Moves-Becomes {id} {before} {after} {db} m f j s h = elim (eq-cases id j) [
  | inl same ↦
      let e : before ≡ s = cc (m.found, ap (λ k. find_settlement k db) same, h) in
      (after, ground (arith, m.settlement j, eq_iff id j), rw (← e) f)
  | inr other ↦ (s, ground (arith, m.settlement j), Follows-refl s)
]

apply_open-Becomes :
    (db_now : ℕ) (input : ReconciliationResultInput) (current : SettlementRow) (db db' : Ledger)
    → IsSound db
    → NamesItsReceipt input
    → find_settlement (input_settlement_id input) db ≡ some current
    → is_open current.status ≡ true
    → apply_open db_now input current db ≡ ok db'
    → (j : String) (s : SettlementRow) → find_settlement j db ≡ some s
    → Becomes s (find_settlement j db')
unfolding apply_open
apply_open-Becomes db_now (pending i) current db db' sound named found opened h j s held =
    let e : db' ≡ with_pending db_now i current db = ground arith in
    rw e (Moves-Becomes (with_pending-Moves db_now i sound found opened) (ground arith) j s held)
apply_open-Becomes db_now (terminal i) current db db' sound named found opened h j s held =
    let e : db' ≡ with_terminal db_now i current db = ground arith in
    rw e (Moves-Becomes (with_terminal-Moves db_now i sound found opened) (ground arith) j s held)
apply_open-Becomes db_now (confirmed i) current db db' sound named found opened h j s held =
    let e : db' ≡ with_confirmed db_now i current db = ground arith in
    rw e (
      Moves-Becomes (with_confirmed-Moves db_now i sound found opened named) (ground arith) j s
        held)

pub reserve-Becomes :
    (db_now : ℕ) (input : SettlementReservation) (db : Ledger)
    → any (clashes_with input) db.settlements ≡ false
    → (j : String) (s : SettlementRow) → find_settlement j db ≡ some s
    → find_settlement j (with_reservation db_now input db) ≡ some s
unfolding lookup
reserve-Becomes db_now input db free j s h = ground (
  arith,
  lookup_of_any settlement_key (clashes_with input) j db.settlements s free h,
  lookup_key settlement_key j db.settlements s h,
  eq_iff input.settlement_id j,
  eq_iff s.settlement_id input.settlement_id,
)

lease-Becomes :
    (locked : String → Bool) (db_now limit claimed_at lease_until : ℕ) (db : Ledger)
    → IsSound db
    → (j : String) (s : SettlementRow) → find_settlement j db ≡ some s
    → Becomes s (
        find_settlement j (
          with_leases db_now lease_until
            (picked_ids (pick_candidates locked limit claimed_at db.settlements))
            db))
lease-Becomes locked db_now limit claimed_at lease_until db sound j s h =
    let ids = picked_ids (pick_candidates locked limit claimed_at db.settlements) in
    let key = lookup_key settlement_key j db.settlements s h in
    let after =
      lookup-update settlement_key (λ (r : SettlementRow). includes ids r.settlement_id)
        (leased_row db_now lease_until) j db.settlements (λ r. refl) in
    elim (Bool-cases (includes ids j)) [
      | inl picked ↦ (
        leased_row db_now lease_until s,
        ground (arith, after, key),
        ground (
          arith,
          picked_ids-is_claimable locked limit claimed_at db.settlements j s sound.unique picked h,
        ),
      )
      | inr other ↦ (s, ground (arith, after, key), Follows-refl s)
    ]

-- No transaction removes a settlement or changes its payment; its status moves along an edge of
-- the status graph or stays, and once it is final the whole row stays.
pub Step-Becomes :
    {db db' : Ledger} (id : String) (s : SettlementRow)
    → IsSound db
    → Step db db'
    → find_settlement id db ≡ some s
    → Becomes s (find_settlement id db')
Step-Becomes {db} {db'} id s sound (Step.issue t new h) held =
    let (_, e) = insert_cases t new db db' h in (s, rw e held, Follows-refl s)
Step-Becomes {db} {db'} id s sound (Step.reserve d t input r h) held =
    elim (reserve_cases d t input r db db' h) [
      | inl e ↦ (s, rw e held, Follows-refl s)
      | inr (_, free, e) ↦ (s, rw e (reserve-Becomes t input db free id s held), Follows-refl s)
    ]
Step-Becomes {db} {db'} id s sound (Step.move t key to reason at r h) held =
    let (before, found, valid, checked, e) = move_cases t key to reason at r db db' h in
    rw e (
      Moves-Becomes (with_status-Moves t key to reason at sound found valid checked) (ground arith)
        id s held)
Step-Becomes {db} {db'} id s sound (Step.lease locked t limit at until cs h) held =
    subst (λ (d : Ledger). Becomes s (find_settlement id d))
      (lease_result locked t limit at until cs db db' h)
      (lease-Becomes locked t limit at until db sound id s held)
Step-Becomes {db} {db'} id s sound (Step.reconcile t input r named h) held =
    let (current, found, outcome) = apply_cases t input r db db' h in
    elim outcome [
      | inl (closed, e) ↦ (s, rw e held, Follows-refl s)
      | inr (opened, e) ↦
          apply_open-Becomes t input current db db' sound named found opened e id s held
    ]
Step-Becomes {db} {db'} id s sound (Step.claim t sid mid at r h) held =
    let (_, form) = claim_cases t sid mid at r db db' h in
    (
      s,
      elim form [ inl e ↦ rw e held | inr (inl e) ↦ rw e held | inr (inr e) ↦ rw e held ],
      Follows-refl s,
    )
Step-Becomes {db} {db'} id s sound (Step.complete t sid mid digest at r h) held =
    let (_, form) = complete_cases t sid mid digest at r db db' h in
    (s, elim form [ inl e ↦ rw e held | inr e ↦ rw e held ], Follows-refl s)

-- A settlement that has been confirmed, failed, dropped or reorged keeps every column for good.
pub closed_forever :
    {db db' : Ledger} (id : String) (s : SettlementRow)
    → IsSound db
    → is_open s.status ≡ false
    → find_settlement id db ≡ some s
    → Reach db db'
    → find_settlement id db' ≡ some s
closed_forever id s sound closed held Reach.here = held
closed_forever id s sound closed held (Reach.then r st) =
    let before = closed_forever id s sound closed held r in
    let (t, found, f) = Step-Becomes id s (Reach-IsSound_from sound r) st before in
    found ∙ ap some (f.frozen closed)
