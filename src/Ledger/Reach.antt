-- ===== src/Ledger/Reach.antt =====
-- The payment tables under any sequence of the store's transactions, by any number of processes
-- (src/database.ts): each transaction that commits is one step, with arguments of any kind.
use perk_os_nayori_platform.Prelude.{ℕ, String, ◌≡◌, Bool, Option, List, [], ok}
use perk_os_nayori_platform.Ledger.{IssuedQuoteRecord, Ledger}
use perk_os_nayori_platform.Ledger.Selecting.{SettlementRecord}
use perk_os_nayori_platform.Ledger.Quotes.{insert_issued_quote}
use perk_os_nayori_platform.Ledger.Reserve.{
  SettlementReservation, ReserveSettlementResult, reserve_settlement,
}
use perk_os_nayori_platform.Ledger.Status.{Broadcasted, update_settlement_status}
use perk_os_nayori_platform.Ledger.Claims.{
  ReconciliationCandidate, claim_settlements_for_reconciliation,
}
use perk_os_nayori_platform.Ledger.Reconciling.{
  ReconciliationResultInput, confirmed, apply_reconciliation_result,
}
use perk_os_nayori_platform.Ledger.Deliveries.{
  DeliveryLedgerRecord, claim_delivery, complete_delivery,
}

-- The receipt of a confirmation is that of the settlement, as the reconciliation service makes it.
abbrev pub NamesItsReceipt : ReconciliationResultInput → Type 0
NamesItsReceipt (confirmed i) = i.receipt.settlement_id ≡ i.settlement_id
NamesItsReceipt _ = Unit

pub data Step (db db' : Ledger) : Type 0 where
  issue :
      (db_now : ℕ) (new : IssuedQuoteRecord)
      → insert_issued_quote db_now new db ≡ ok (tt, db')
      → Step db db'
  reserve :
      (date_now db_now : ℕ) (input : SettlementReservation) (result : ReserveSettlementResult)
      → reserve_settlement date_now db_now input db ≡ ok (result, db')
      → Step db db'
  move :
      (db_now : ℕ) (id : String) (to : Broadcasted) (reason : Option String) (attempted_at : ℕ)
      (result : Option SettlementRecord)
      → update_settlement_status db_now id to reason attempted_at db ≡ ok (result, db')
      → Step db db'
  -- the UPDATE of a claim, with nothing between it and the SELECT that follows
  lease :
      (locked : String → Bool) (db_now limit claimed_at lease_until : ℕ)
      (candidates : List ReconciliationCandidate)
      → claim_settlements_for_reconciliation (λ d. d) locked db_now limit claimed_at lease_until db
        ≡ (candidates, db')
      → Step db db'
  reconcile :
      (db_now : ℕ) (input : ReconciliationResultInput) (result : Option SettlementRecord)
      → NamesItsReceipt input
      → apply_reconciliation_result db_now input db ≡ ok (result, db')
      → Step db db'
  claim :
      (db_now : ℕ) (settlement_id merchant_id : String) (claimed_at : ℕ)
      (result : Option DeliveryLedgerRecord)
      → claim_delivery db_now settlement_id merchant_id claimed_at db ≡ ok (result, db')
      → Step db db'
  complete :
      (db_now : ℕ) (settlement_id merchant_id digest : String) (completed_at : ℕ)
      (result : Option DeliveryLedgerRecord)
      → complete_delivery db_now settlement_id merchant_id digest completed_at db ≡ ok (result, db')
      → Step db db'

pub data Reach (db : Ledger) : Ledger → Type 0 where
  here : Reach db db
  then : {db' db'' : Ledger} → Reach db db' → Step db' db'' → Reach db db''

abbrev pub empty : Ledger
empty = record { quotes = []; settlements = []; receipts = []; deliveries = []; transitions = [] }
