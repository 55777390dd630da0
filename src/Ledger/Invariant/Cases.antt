-- ===== src/Ledger/Invariant/Cases.antt =====
-- How the tables look after each of the store's transactions (src/database.ts).
use perk_os_nayori_platform.Prelude.{
  ℕ, String, ◌≡◌, ◌⊎◌, inl, inr, true, false, Option, some, ◌∷◌, arith, Bool-cases, Option-cases,
  any, Result, ok, err,
}
use perk_os_nayori_platform.Ledger.{
  IssuedQuoteRecord, SettlementRow, QuoteStatus, Ledger, StoreError, find_settlement, find_delivery,
  passes_checks, is_open, is_validated,
}
use perk_os_nayori_platform.Ledger.Selecting.{SettlementRecord}
use perk_os_nayori_platform.Ledger.Quotes.{insert_issued_quote, issued_row, clashes_with}
use perk_os_nayori_platform.Ledger.Reserve.{
  SettlementReservation, ReserveSettlementResult, reserve_settlement, with_reservation,
  clashes_with as reservation_clashes,
}
use perk_os_nayori_platform.Ledger.Status.{
  Broadcasted, update_settlement_status, with_status, broadcasted_row,
}
use perk_os_nayori_platform.Ledger.Reconciling.{
  ReconciliationResultInput, apply_reconciliation_result, apply_open, reread, input_settlement_id,
}
use perk_os_nayori_platform.Ledger.Deliveries.{
  DeliveryLedgerRecord, claim_delivery, complete_delivery, with_delivery, expired_row,
  delivering_row, delivered_row, of_merchant, delivery_select,
}
use perk_os_nayori_platform.Ledger.Invariant.{quote_status}

pub insert_cases :
    (db_now : ℕ) (new : IssuedQuoteRecord) (db db' : Ledger)
    → insert_issued_quote db_now new db ≡ ok (tt, db')
    → (any (clashes_with new) db.quotes ≡ false)
      × (db' ≡ record db { quotes = issued_row db_now new ∷ db.quotes })
unfolding insert_issued_quote
insert_cases db_now new db db' h = ground arith

pub reserve_cases :
    (date_now db_now : ℕ) (input : SettlementReservation) (result : ReserveSettlementResult)
    (db db' : Ledger)
    → reserve_settlement date_now db_now input db ≡ ok (result, db')
    → (db' ≡ db)
      ⊎ ((quote_status input.quote_id db ≡ some QuoteStatus.issued)
          × (any (reservation_clashes input) db.settlements ≡ false)
          × (db' ≡ with_reservation db_now input db))
unfolding reserve_settlement
reserve_cases date_now db_now input result db db' h = ground arith

pub move_cases :
    (db_now : ℕ) (id : String) (to : Broadcasted) (reason : Option String) (attempted_at : ℕ)
    (result : Option SettlementRecord) (db db' : Ledger)
    → update_settlement_status db_now id to reason attempted_at db ≡ ok (result, db')
    → (s : SettlementRow) × (find_settlement id db ≡ some s)
      × (is_validated s.status ≡ true)
      × (passes_checks (broadcasted_row db_now to reason attempted_at s) ≡ true)
      × (db' ≡ with_status db_now id to reason attempted_at db)
unfolding update_settlement_status
move_cases db_now id to reason attempted_at result db db' h =
    elim (Option-cases (find_settlement id db)) [
      | inl absent ↦ ground arith
      | inr (s, found) ↦ (s, found, ground arith, ground arith, ground arith)
    ]

pub claim_cases :
    (db_now : ℕ) (settlement_id merchant_id : String) (claimed_at : ℕ)
    (result : Option DeliveryLedgerRecord) (db db' : Ledger)
    → claim_delivery db_now settlement_id merchant_id claimed_at db ≡ ok (result, db')
    → (id : String) × ((db' ≡ db)
        ⊎ ((db' ≡ with_delivery id (expired_row db_now) db)
            ⊎ (db' ≡ with_delivery id (delivering_row db_now claimed_at) db)))
unfolding claim_delivery
claim_cases db_now settlement_id merchant_id claimed_at result db db' h =
    elim (Option-cases
      (of_merchant merchant_id (delivery_select db (find_delivery settlement_id db)))) [
        | inl absent ↦ ("", ground arith)
        | inr (d, found) ↦ (d.delivery_id, ground arith)
      ]

pub complete_cases :
    (db_now : ℕ) (settlement_id merchant_id digest : String) (completed_at : ℕ)
    (result : Option DeliveryLedgerRecord) (db db' : Ledger)
    → complete_delivery db_now settlement_id merchant_id digest completed_at db ≡ ok (result, db')
    → (id : String) × ((db' ≡ db)
        ⊎ (db' ≡ with_delivery id (delivered_row db_now digest completed_at) db))
unfolding complete_delivery
complete_cases db_now settlement_id merchant_id digest completed_at result db db' h =
    elim (Option-cases
      (of_merchant merchant_id (delivery_select db (find_delivery settlement_id db)))) [
        | inl absent ↦ ("", ground arith)
        | inr (d, found) ↦ (d.delivery_id, ground arith)
      ]

reread_cases :
    (id : String) (r : Result StoreError Ledger) (result : Option SettlementRecord) (db' : Ledger)
    → reread id r ≡ ok (result, db')
    → r ≡ ok db'
reread_cases id (ok db) result db' h = ground arith
reread_cases id (err e) result db' h = cc

pub apply_cases :
    (db_now : ℕ) (input : ReconciliationResultInput) (result : Option SettlementRecord)
    (db db' : Ledger)
    → apply_reconciliation_result db_now input db ≡ ok (result, db')
    → (current : SettlementRow) × (find_settlement (input_settlement_id input) db ≡ some current)
      × (((is_open current.status ≡ false) × (db' ≡ db))
          ⊎ ((is_open current.status ≡ true) × (apply_open db_now input current db ≡ ok db')))
unfolding apply_reconciliation_result
apply_cases db_now input result db db' h =
    elim (Option-cases (find_settlement (input_settlement_id input) db)) [
      | inl absent ↦ ground arith
      | inr (s, found) ↦ (
        s,
        found,
        elim (Bool-cases (is_open s.status)) [
          | inl opened ↦ inr (
            opened,
            reread_cases (input_settlement_id input) (apply_open db_now input s db) result db'
                (ground arith),
          )
          | inr closed ↦ inl (closed, ground arith)
        ],
      )
    ]
