-- ===== src/Ledger/Invariant/Operations.antt =====
-- Every committed transaction of the store keeps the tables sound (src/database.ts).
use perk_os_nayori_platform.Prelude.{
  ℕ, String, ◌≡◌, refl, ap, inl, inr, Bool, true, Option, some, List, arith, ok,
}
use mathlib.Core.Path.{subst}
use perk_os_nayori_platform.Prelude.Table.{lookup}
use perk_os_nayori_platform.Ledger.{
  IssuedQuoteRecord, SettlementRow, Ledger, find_settlement, is_open,
}
use perk_os_nayori_platform.Ledger.Selecting.{SettlementRecord}
use perk_os_nayori_platform.Ledger.Quotes.{insert_issued_quote}
use perk_os_nayori_platform.Ledger.Reserve.{
  SettlementReservation, ReserveSettlementResult, reserve_settlement,
}
use perk_os_nayori_platform.Ledger.Status.{Broadcasted, update_settlement_status}
use perk_os_nayori_platform.Ledger.Claims.{
  ReconciliationCandidate, claim_settlements_for_reconciliation, picked_ids, pick_candidates,
  with_leases,
}
use perk_os_nayori_platform.Ledger.Reconciling.{
  ReconciliationResultInput, pending, terminal, confirmed, with_pending, with_terminal,
  with_confirmed, apply_reconciliation_result, apply_open, input_settlement_id,
}
use perk_os_nayori_platform.Ledger.Deliveries.{
  DeliveryLedgerRecord, claim_delivery, complete_delivery, expired_row, delivering_row,
  delivered_row,
}
use perk_os_nayori_platform.Ledger.Invariant.{IsSound, Moves-IsSound}
use perk_os_nayori_platform.Ledger.Invariant.Moving.{
  with_status-Moves, with_pending-Moves, with_terminal-Moves, with_confirmed-Moves,
}
use perk_os_nayori_platform.Ledger.Invariant.Keeping.{with_quote-IsSound, with_delivery-IsSound}
use perk_os_nayori_platform.Ledger.Invariant.Reserving.{with_reservation-IsSound}
use perk_os_nayori_platform.Ledger.Invariant.Claiming.{claimed-IsSound}
use perk_os_nayori_platform.Ledger.Reach.{NamesItsReceipt, Step, Reach, empty}
use perk_os_nayori_platform.Ledger.Invariant.Cases.{
  insert_cases, reserve_cases, move_cases, claim_cases, complete_cases, apply_cases,
}

insert-IsSound :
    (db_now : ℕ) (new : IssuedQuoteRecord) (db db' : Ledger)
    → insert_issued_quote db_now new db ≡ ok (tt, db')
    → IsSound db
    → IsSound db'
insert-IsSound db_now new db db' h sound =
    let (free, e) = insert_cases db_now new db db' h in
    rw e (with_quote-IsSound db_now new free sound)

reserve-IsSound :
    (date_now db_now : ℕ) (input : SettlementReservation) (result : ReserveSettlementResult)
    (db db' : Ledger)
    → reserve_settlement date_now db_now input db ≡ ok (result, db')
    → IsSound db
    → IsSound db'
reserve-IsSound date_now db_now input result db db' h sound =
    elim (reserve_cases date_now db_now input result db db' h) [
      | inl e ↦ rw e sound
      | inr (quoted, free, e) ↦ rw e (with_reservation-IsSound db_now input db sound quoted free)
    ]

move-IsSound :
    (db_now : ℕ) (id : String) (to : Broadcasted) (reason : Option String) (attempted_at : ℕ)
    (result : Option SettlementRecord) (db db' : Ledger)
    → update_settlement_status db_now id to reason attempted_at db ≡ ok (result, db')
    → IsSound db
    → IsSound db'
move-IsSound db_now id to reason attempted_at result db db' h sound =
    let (s, found, valid, checked, e) =
      move_cases db_now id to reason attempted_at result db db' h in
    rw e (
      Moves-IsSound sound
        (with_status-Moves db_now id to reason attempted_at sound found valid checked))

apply_open-IsSound :
    (db_now : ℕ) (input : ReconciliationResultInput) (current : SettlementRow) (db db' : Ledger)
    → NamesItsReceipt input
    → find_settlement (input_settlement_id input) db ≡ some current
    → is_open current.status ≡ true
    → apply_open db_now input current db ≡ ok db'
    → IsSound db
    → IsSound db'
unfolding apply_open
apply_open-IsSound db_now (pending i) current db db' named found opened h sound =
    let e : db' ≡ with_pending db_now i current db = ground arith in
    rw e (Moves-IsSound sound (with_pending-Moves db_now i sound found opened))
apply_open-IsSound db_now (terminal i) current db db' named found opened h sound =
    let e : db' ≡ with_terminal db_now i current db = ground arith in
    rw e (Moves-IsSound sound (with_terminal-Moves db_now i sound found opened))
apply_open-IsSound db_now (confirmed i) current db db' named found opened h sound =
    let e : db' ≡ with_confirmed db_now i current db = ground arith in
    rw e (Moves-IsSound sound (with_confirmed-Moves db_now i sound found opened named))

reconcile-IsSound :
    (db_now : ℕ) (input : ReconciliationResultInput) (result : Option SettlementRecord)
    (db db' : Ledger)
    → NamesItsReceipt input
    → apply_reconciliation_result db_now input db ≡ ok (result, db')
    → IsSound db
    → IsSound db'
reconcile-IsSound db_now input result db db' named h sound =
    let (s, found, outcome) = apply_cases db_now input result db db' h in
    elim outcome [
      | inl (closed, e) ↦ rw e sound
      | inr (opened, e) ↦ apply_open-IsSound db_now input s db db' named found opened e sound
    ]

claim-IsSound :
    (db_now : ℕ) (settlement_id merchant_id : String) (claimed_at : ℕ)
    (result : Option DeliveryLedgerRecord) (db db' : Ledger)
    → claim_delivery db_now settlement_id merchant_id claimed_at db ≡ ok (result, db')
    → IsSound db
    → IsSound db'
claim-IsSound db_now settlement_id merchant_id claimed_at result db db' h sound =
    let (id, form) = claim_cases db_now settlement_id merchant_id claimed_at result db db' h in
    elim form [
      | inl e ↦ rw e sound
      | inr (inl e) ↦ rw e (with_delivery-IsSound id (expired_row db_now) (λ d. refl) sound)
      | inr (inr e) ↦
          rw e (with_delivery-IsSound id (delivering_row db_now claimed_at) (λ d. refl) sound)
    ]

complete-IsSound :
    (db_now : ℕ) (settlement_id merchant_id digest : String) (completed_at : ℕ)
    (result : Option DeliveryLedgerRecord) (db db' : Ledger)
    → complete_delivery db_now settlement_id merchant_id digest completed_at db ≡ ok (result, db')
    → IsSound db
    → IsSound db'
complete-IsSound db_now settlement_id merchant_id digest completed_at result db db' h sound =
    let (id, form) =
      complete_cases db_now settlement_id merchant_id digest completed_at result db db' h in
    elim form [
      | inl e ↦ rw e sound
      | inr e ↦
          rw e
            (with_delivery-IsSound id (delivered_row db_now digest completed_at) (λ d. refl) sound)
    ]

pub lease_result :
    (locked : String → Bool) (db_now limit claimed_at lease_until : ℕ)
    (candidates : List ReconciliationCandidate) (db db' : Ledger)
    → claim_settlements_for_reconciliation (λ d. d) locked db_now limit claimed_at lease_until db
      ≡ (candidates, db')
    → with_leases db_now lease_until
        (picked_ids (pick_candidates locked limit claimed_at db.settlements))
        db
      ≡ db'
unfolding claim_settlements_for_reconciliation
lease_result locked db_now limit claimed_at lease_until candidates db db' h = ap (λ p. p.1) h

lease-IsSound :
    (locked : String → Bool) (db_now limit claimed_at lease_until : ℕ)
    (candidates : List ReconciliationCandidate) (db db' : Ledger)
    → claim_settlements_for_reconciliation (λ d. d) locked db_now limit claimed_at lease_until db
      ≡ (candidates, db')
    → IsSound db
    → IsSound db'
lease-IsSound locked db_now limit claimed_at lease_until candidates db db' h sound =
    subst IsSound (lease_result locked db_now limit claimed_at lease_until candidates db db' h)
      (claimed-IsSound locked db_now limit claimed_at lease_until db sound)

pub Step-IsSound : {db db' : Ledger} → Step db db' → IsSound db → IsSound db'
Step-IsSound {db} {db'} (Step.issue t new h) sound = insert-IsSound t new db db' h sound
Step-IsSound {db} {db'} (Step.reserve d t input r h) sound =
    reserve-IsSound d t input r db db' h sound
Step-IsSound {db} {db'} (Step.move t id to reason at r h) sound =
    move-IsSound t id to reason at r db db' h sound
Step-IsSound {db} {db'} (Step.lease locked t limit at until cs h) sound =
    lease-IsSound locked t limit at until cs db db' h sound
Step-IsSound {db} {db'} (Step.reconcile t input r named h) sound =
    reconcile-IsSound t input r db db' named h sound
Step-IsSound {db} {db'} (Step.claim t sid mid at r h) sound =
    claim-IsSound t sid mid at r db db' h sound
Step-IsSound {db} {db'} (Step.complete t sid mid digest at r h) sound =
    complete-IsSound t sid mid digest at r db db' h sound

pub Reach-IsSound_from : {db db' : Ledger} → IsSound db → Reach db db' → IsSound db'
Reach-IsSound_from sound Reach.here = sound
Reach-IsSound_from sound (Reach.then r st) = Step-IsSound st (Reach-IsSound_from sound r)

empty-IsSound : IsSound empty
unfolding lookup
empty-IsSound = record {
  unique = tt;
  settled = λ id s h. cc;
  unsettled = λ id h. (refl, refl);
  one_per_quote = λ i j s t hs. cc;
  one_per_payment = λ i j s t hs. cc;
}

-- Whatever transactions have committed, in any order and by any processes, the payment tables
-- agree: settlement keys are unique, every settlement agrees with its quote, receipt, delivery and
-- log and passes the CHECK constraints, a settlement that is not there has no receipt and no
-- delivery, and no two settlements share a quote or a transaction.
pub Reach-IsSound : {db : Ledger} → Reach empty db → IsSound db
Reach-IsSound r = Reach-IsSound_from empty-IsSound r
