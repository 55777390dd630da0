-- ===== src/Ledger/Leases.antt =====
-- How long a settlement keeps the lease of a reconciliation worker (src/database.ts).
use perk_os_nayori_platform.Prelude.{
  ℕ, String, ◌≡◌, refl, ap, ◌∙◌, inl, inr, Bool, true, false, some, arith, ◌==◌, eq_iff, leb,
  Bool-cases, eq-cases, includes, ok,
}
use mathlib.Core.Path.{subst}
use perk_os_nayori_platform.Prelude.Table.{lookup-update, lookup_key}
use perk_os_nayori_platform.Ledger.{SettlementRow, Ledger, find_settlement, is_open}
use perk_os_nayori_platform.Ledger.Claims.{picked_ids, pick_candidates, with_leases, leased_row}
use perk_os_nayori_platform.Ledger.Reconciling.{
  ReconciliationResultInput, pending, terminal, confirmed, with_pending, with_terminal,
  with_confirmed, apply_open, input_settlement_id,
}
use perk_os_nayori_platform.Ledger.Invariant.{IsSound, Moves, settlement_key}
use perk_os_nayori_platform.Ledger.Invariant.Moving.{
  with_status-Moves, with_pending-Moves, with_terminal-Moves, with_confirmed-Moves,
}
use perk_os_nayori_platform.Ledger.Invariant.Claiming.{picked_ids-is_claimable}
use perk_os_nayori_platform.Ledger.Invariant.Cases.{
  insert_cases, reserve_cases, move_cases, apply_cases, claim_cases, complete_cases,
}
use perk_os_nayori_platform.Ledger.Invariant.Operations.{lease_result, Reach-IsSound_from}
use perk_os_nayori_platform.Ledger.History.{reserve-Becomes}
use perk_os_nayori_platform.Ledger.Reach.{NamesItsReceipt, Step, Reach}

-- The settlement is there, with a lease until the given instant.
abbrev pub IsLeased : String → ℕ → Ledger → Type 0
IsLeased id until db =
    (s : SettlementRow) × (find_settlement id db ≡ some s) × (s.reconcile_lease_until ≡ some until)

-- The transaction records an observation of the settlement, or is a claim when the lease is over.
abbrev pub may_release : String → ℕ → {db db' : Ledger} → Step db db' → Bool
may_release id until (Step.reconcile t input r named h) = input_settlement_id input == id
may_release id until (Step.lease locked t limit claimed_at lease_until cs h) = leb until claimed_at
may_release id until _ = false

-- Transactions that do neither.
pub data Kept (id : String) (until : ℕ) (db : Ledger) : Ledger → Type 0 where
  here : Kept id until db db
  then :
      {db' db'' : Ledger}
      → Kept id until db db'
      → (st : Step db' db'') → may_release id until st ≡ false
      → Kept id until db db''

Moves-IsLeased :
    {key : String} {before after : SettlementRow} {db db' : Ledger} (id : String) (until : ℕ)
    → Moves key before after db db'
    → after.reconcile_lease_until ≡ before.reconcile_lease_until
    → IsLeased id until db
    → IsLeased id until db'
Moves-IsLeased {key} {before} {after} {db} id until m same (s, found, lease) =
    elim (eq-cases key id) [
      | inl this ↦
          let e : before ≡ s = cc (m.found, ap (λ k. find_settlement k db) this, found) in
          (after, ground (arith, m.settlement id, eq_iff key id), cc (same, e, lease))
      | inr other ↦ (s, ground (arith, m.settlement id), lease)
    ]

apply_open-other :
    (db_now : ℕ) (input : ReconciliationResultInput) (current : SettlementRow) (db db' : Ledger)
    → IsSound db
    → NamesItsReceipt input
    → find_settlement (input_settlement_id input) db ≡ some current
    → is_open current.status ≡ true
    → apply_open db_now input current db ≡ ok db'
    → (id : String) → (input_settlement_id input == id) ≡ false
    → find_settlement id db' ≡ find_settlement id db
unfolding apply_open
apply_open-other db_now (pending i) current db db' sound named found opened h id other =
    let e : db' ≡ with_pending db_now i current db = ground arith in
    rw e (ground (arith, (with_pending-Moves db_now i sound found opened).settlement id))
apply_open-other db_now (terminal i) current db db' sound named found opened h id other =
    let e : db' ≡ with_terminal db_now i current db = ground arith in
    rw e (ground (arith, (with_terminal-Moves db_now i sound found opened).settlement id))
apply_open-other db_now (confirmed i) current db db' sound named found opened h id other =
    let e : db' ≡ with_confirmed db_now i current db = ground arith in
    rw e (ground (arith, (with_confirmed-Moves db_now i sound found opened named).settlement id))

claim-IsLeased :
    (locked : String → Bool) (db_now limit claimed_at lease_until : ℕ) (db : Ledger) (id : String)
    (until : ℕ)
    → IsSound db
    → leb until claimed_at ≡ false
    → IsLeased id until db
    → IsLeased id until (
        with_leases db_now lease_until
          (picked_ids (pick_candidates locked limit claimed_at db.settlements))
          db)
claim-IsLeased locked db_now limit claimed_at lease_until db id until sound early
      (s, found, lease) =
    let ids = picked_ids (pick_candidates locked limit claimed_at db.settlements) in
    let key = lookup_key settlement_key id db.settlements s found in
    let after =
      lookup-update settlement_key (λ (r : SettlementRow). includes ids r.settlement_id)
        (leased_row db_now lease_until) id db.settlements (λ r. refl) in
    elim (Bool-cases (includes ids id)) [
      | inl picked ↦ ground (
        arith,
        picked_ids-is_claimable locked limit claimed_at db.settlements id s sound.unique picked
            found,
      )
      | inr other ↦ (s, ground (arith, after, key), lease)
    ]

Step-IsLeased :
    {db db' : Ledger} (id : String) (until : ℕ)
    → IsSound db
    → (st : Step db db') → may_release id until st ≡ false
    → IsLeased id until db
    → IsLeased id until db'
Step-IsLeased {db} {db'} id until sound (Step.issue t new h) quiet leased =
    let (_, e) = insert_cases t new db db' h in rw e leased
Step-IsLeased {db} {db'} id until sound (Step.reserve d t input r h) quiet (s, found, lease) =
    elim (reserve_cases d t input r db db' h) [
      | inl e ↦ rw e (s, found, lease)
      | inr (_, free, e) ↦ rw e (s, reserve-Becomes t input db free id s found, lease)
    ]
Step-IsLeased {db} {db'} id until sound (Step.move t key to reason at r h) quiet leased =
    let (before, found, valid, checked, e) = move_cases t key to reason at r db db' h in
    rw e (
      Moves-IsLeased id until (with_status-Moves t key to reason at sound found valid checked)
        (ground arith) leased)
Step-IsLeased {db} {db'} id until sound (Step.lease locked t limit at u cs h) quiet leased =
    subst (IsLeased id until) (lease_result locked t limit at u cs db db' h)
      (claim-IsLeased locked t limit at u db id until sound quiet leased)
Step-IsLeased {db} {db'} id until sound (Step.reconcile t input r named h) quiet (s, found, lease) =
    let (current, its, outcome) = apply_cases t input r db db' h in
    elim outcome [
      | inl (closed, e) ↦ rw e (s, found, lease)
      | inr (opened, e) ↦
          let other = apply_open-other t input current db db' sound named its opened e id quiet in
          (s, other ∙ found, lease)
    ]
Step-IsLeased {db} {db'} id until sound (Step.claim t sid mid at r h) quiet leased =
    let (_, form) = claim_cases t sid mid at r db db' h in
    elim form [ inl e ↦ rw e leased | inr (inl e) ↦ rw e leased | inr (inr e) ↦ rw e leased ]
Step-IsLeased {db} {db'} id until sound (Step.complete t sid mid digest at r h) quiet leased =
    let (_, form) = complete_cases t sid mid digest at r db db' h in
    elim form [ inl e ↦ rw e leased | inr e ↦ rw e leased ]

-- Other transactions leave the lease, and the tables sound.
pub Kept-IsLeased :
    {db : Ledger} (id : String) (until : ℕ) {db' : Ledger}
    → IsSound db
    → IsLeased id until db
    → Kept id until db db'
    → IsSound db' × IsLeased id until db'
Kept-IsLeased id until sound leased Kept.here = (sound, leased)
Kept-IsLeased id until sound leased (Kept.then k st quiet) =
    let before = Kept-IsLeased id until sound leased k in
    (
      Reach-IsSound_from before.0 (Reach.then Reach.here st),
      Step-IsLeased id until before.0 st quiet before.1,
    )
