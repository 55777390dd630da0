-- ===== src/Ledger/Selecting.antt =====
-- `SETTLEMENT_SELECT` of `PostgresDatabase` (src/database.ts): a settlement joined with its quote, its
-- receipt and its delivery.
use mathlib.Core.Option
use perk_os_nayori_platform.Prelude.{ℕ, String, Option, none, some, ◌==◌, if◌then◌else◌}
use perk_os_nayori_platform.Ledger.{
  QuoteRow, SettlementStatus, DeliveryStatus, SettlementRow, ConfirmationReceiptRecord, DeliveryRow,
  Ledger, find_quote, find_receipt, find_delivery,
}

-- What a row of `SETTLEMENT_SELECT` holds.
pub record SettlementRecord : Type 0 where
  pub settlement_id : String
  pub quote_id : String
  pub merchant_id : String
  pub network : String
  pub txid : String
  pub payer : String
  pub raw_tx_hash : String
  pub verifier_version : String
  pub verifier_checksum : String
  pub status : SettlementStatus
  pub failure_reason : Option String
  pub broadcast_attempted_at : Option ℕ
  pub broadcast_at : Option ℕ
  pub created_at : ℕ
  pub updated_at : ℕ
  pub receipt_id : Option String
  pub receipt_token : Option String
  pub delivery_id : Option String
  pub delivery_status : Option DeliveryStatus
  pub response_digest : Option String

abbrev bind_delivery : Option DeliveryRow → Option String
bind_delivery none = none
bind_delivery (some d) = d.response_digest

abbrev pub settlement_record :
    SettlementRow
    → QuoteRow
    → Option ConfirmationReceiptRecord
    → Option DeliveryRow
    → SettlementRecord
settlement_record s q receipt delivery = record {
  settlement_id = s.settlement_id;
  quote_id = s.quote_id;
  merchant_id = q.merchant_id;
  network = s.network;
  txid = s.txid;
  payer = s.payer;
  raw_tx_hash = s.raw_tx_hash;
  verifier_version = s.verifier_version;
  verifier_checksum = s.verifier_checksum;
  status = s.status;
  failure_reason = s.failure_reason;
  broadcast_attempted_at = s.broadcast_attempted_at;
  broadcast_at = s.broadcast_at;
  created_at = s.created_at;
  updated_at = s.updated_at;
  receipt_id = Option.map (λ (r : ConfirmationReceiptRecord). r.receipt_id) receipt;
  receipt_token = Option.map (λ (r : ConfirmationReceiptRecord). r.signed_token) receipt;
  delivery_id = Option.map (λ (d : DeliveryRow). d.delivery_id) delivery;
  delivery_status = Option.map (λ (d : DeliveryRow). d.status) delivery;
  response_digest = bind_delivery delivery;
}

-- The row of `SETTLEMENT_SELECT` for a row of `settlements`: `JOIN quotes`, and the `LEFT JOIN`s.
unfoldable pub settlement_select : Ledger → Option SettlementRow → Option SettlementRecord
settlement_select db none = none
settlement_select db (some s) =
    Option.map
      (λ (q : QuoteRow).
        settlement_record s q (find_receipt s.settlement_id db) (find_delivery s.settlement_id db))
      (find_quote s.quote_id db)

-- `AND q.merchant_id = $2`
abbrev pub for_merchant : String → Option SettlementRecord → Option SettlementRecord
for_merchant id none = none
for_merchant id (some r) = if r.merchant_id == id then some r else none
