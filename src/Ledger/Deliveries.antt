-- ===== src/Ledger/Deliveries.antt =====
-- `claimDelivery` and `completeDelivery` of `PostgresDatabase` (src/database.ts).

use perk_os_nayori_platform.Prelude.{
  ℕ, ◌+◌, String, Bool, false, Option, none, some, ◌==◌, ltb, if◌then◌else◌, Result, ok, err,
}
use perk_os_nayori_platform.Prelude.Table.{lookup, update}
use perk_os_nayori_platform.Ledger.{
  DeliveryStatus, QuoteRow, SettlementRow, ConfirmationReceiptRecord, DeliveryRow, Ledger,
  StoreError, find_quote, find_settlement, find_receipt, find_delivery,
}

-- What a row of `DELIVERY_SELECT` holds.
pub record DeliveryLedgerRecord : Type 0 where
  pub delivery_id : String
  pub settlement_id : String
  pub merchant_id : String
  pub status : DeliveryStatus
  pub attempt_count : ℕ
  pub response_digest : Option String
  pub retry_expires_at : ℕ
  pub receipt_id : String
  pub receipt_token : String

abbrev delivery_record : DeliveryRow → QuoteRow → ConfirmationReceiptRecord → DeliveryLedgerRecord
delivery_record d q receipt = record {
  delivery_id = d.delivery_id;
  settlement_id = d.settlement_id;
  merchant_id = q.merchant_id;
  status = d.status;
  attempt_count = d.attempt_count;
  response_digest = d.response_digest;
  retry_expires_at = d.retry_expires_at;
  receipt_id = receipt.receipt_id;
  receipt_token = receipt.signed_token;
}

-- The inner joins: every part has to be there.
abbrev join_delivery :
    DeliveryRow → Option QuoteRow → Option ConfirmationReceiptRecord → Option DeliveryLedgerRecord
join_delivery d (some q) (some receipt) = some (delivery_record d q receipt)
join_delivery d _ _ = none

abbrev pub quote_of : Ledger → Option SettlementRow → Option QuoteRow
quote_of db none = none
quote_of db (some s) = find_quote s.quote_id db

-- The row of `DELIVERY_SELECT` for a row of `deliveries`.
unfoldable pub delivery_select : Ledger → Option DeliveryRow → Option DeliveryLedgerRecord
delivery_select db none = none
delivery_select db (some d) =
    join_delivery d (quote_of db (find_settlement d.settlement_id db))
      (find_receipt d.settlement_id db)

abbrev pub find_delivery_by_id : String → Ledger → Option DeliveryRow
find_delivery_by_id id db = lookup (λ (d : DeliveryRow). d.delivery_id) id db.deliveries

-- `AND q.merchant_id = $2`
abbrev pub of_merchant : String → Option DeliveryLedgerRecord → Option DeliveryLedgerRecord
of_merchant id none = none
of_merchant id (some d) = if d.merchant_id == id then some d else none

abbrev pub Delivered : Type 0
Delivered = Result StoreError (Option DeliveryLedgerRecord × Ledger)

abbrev pub with_delivery : String → (DeliveryRow → DeliveryRow) → Ledger → Ledger
with_delivery id f db = record db {
  deliveries = update (λ (d : DeliveryRow). d.delivery_id == id) f db.deliveries;
}

abbrev pub expired_row : ℕ → DeliveryRow → DeliveryRow
expired_row db_now d = record d { status = DeliveryStatus.expired; updated_at = db_now }

abbrev pub or_now : Option ℕ → ℕ → Option ℕ
or_now none now = some now
or_now (some old) now = some old

abbrev pub delivering_row : ℕ → ℕ → DeliveryRow → DeliveryRow
delivering_row db_now claimed_at d = record d {
  status = DeliveryStatus.delivering;
  attempt_count = d.attempt_count + 1;
  delivery_started_at = or_now d.delivery_started_at claimed_at;
  updated_at = db_now;
}

abbrev pub delivered_row : ℕ → String → ℕ → DeliveryRow → DeliveryRow
delivered_row db_now digest completed_at d = record d {
  status = DeliveryStatus.delivered;
  response_digest = some digest;
  delivery_completed_at = some completed_at;
  updated_at = db_now;
}

-- The SELECT by `delivery_id` that ends a call.
abbrev reread_delivery : String → Ledger → Delivered
reread_delivery id db = ok (delivery_select db (find_delivery_by_id id db), db)

claim_by_status : ℕ → ℕ → DeliveryStatus → DeliveryLedgerRecord → Ledger → Delivered
claim_by_status db_now claimed_at DeliveryStatus.delivery_pending d db =
    if ltb d.retry_expires_at claimed_at
    then reread_delivery d.delivery_id (with_delivery d.delivery_id (expired_row db_now) db)
    else reread_delivery d.delivery_id
        (with_delivery d.delivery_id (delivering_row db_now claimed_at) db)
claim_by_status db_now claimed_at DeliveryStatus.delivering d db = reread_delivery d.delivery_id db
claim_by_status db_now claimed_at DeliveryStatus.delivered d db = reread_delivery d.delivery_id db
claim_by_status db_now claimed_at DeliveryStatus.expired d db = err StoreError.delivery_expired
claim_by_status db_now claimed_at DeliveryStatus.failed d db = err StoreError.delivery_not_found

unfoldable pub claim_delivery : ℕ → String → String → ℕ → Ledger → Delivered
unfolding claim_by_status
claim_delivery db_now settlement_id merchant_id claimed_at db =
    elim (of_merchant merchant_id (delivery_select db (find_delivery settlement_id db))) [
      | none ↦ err StoreError.delivery_not_found
      | some d ↦ claim_by_status db_now claimed_at d.status d db
    ]

abbrev same_digest : Option String → String → Bool
same_digest none digest = false
same_digest (some old) digest = old == digest

complete_by_status : ℕ → String → ℕ → DeliveryStatus → DeliveryLedgerRecord → Ledger → Delivered
complete_by_status db_now digest completed_at DeliveryStatus.delivered d db =
    if same_digest d.response_digest digest
    then ok (some d, db)
    else err StoreError.delivery_digest_conflict
complete_by_status db_now digest completed_at DeliveryStatus.delivering d db =
    reread_delivery d.delivery_id
      (with_delivery d.delivery_id (delivered_row db_now digest completed_at) db)
complete_by_status db_now digest completed_at _ d db = err StoreError.delivery_not_claimed

unfoldable pub complete_delivery : ℕ → String → String → String → ℕ → Ledger → Delivered
unfolding complete_by_status
complete_delivery db_now settlement_id merchant_id digest completed_at db =
    elim (of_merchant merchant_id (delivery_select db (find_delivery settlement_id db))) [
      | none ↦ err StoreError.delivery_not_found
      | some d ↦ complete_by_status db_now digest completed_at d.status d db
    ]
