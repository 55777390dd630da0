-- ===== src/PublicPayments/Listed.antt =====
-- What the rows of `listPublicPayments` are (src/database.ts), and with them the payments of a
-- snapshot (src/public-payments.ts).
use mathlib.Core.Option
use perk_os_nayori_platform.Prelude.{String, ◌≡◌, true, Option, some, List, includes}
use perk_os_nayori_platform.Ledger.{
  QuoteRow, SettlementRow, ConfirmationReceiptRecord, Ledger, find_quote, find_settlement,
  find_receipt, find_delivery, is_confirmed, DeliveryRow,
}
use perk_os_nayori_platform.PublicPayments.{PublicPaymentRow}

-- The row is that of a confirmed settlement in the tables, with its quote, of the merchant of the
-- public resources, for one of the URLs, and its receipt.
pub record IsListed (db : Ledger) (network : String) (urls : List String) (row : PublicPaymentRow)
    : Type 0 where
  pub settlement : SettlementRow
  pub quote : QuoteRow
  pub receipt : ConfirmationReceiptRecord
  pub in_table : find_settlement settlement.settlement_id db ≡ some settlement
  pub quoted : find_quote settlement.quote_id db ≡ some quote
  pub receipted : find_receipt settlement.settlement_id db ≡ some receipt
  pub confirmed : is_confirmed settlement.status ≡ true
  pub of_resource : quote.merchant_id ≡ "nayori-public-resource"
  pub same_network : settlement.network ≡ network
  pub public_url : includes urls quote.canonical_url ≡ true
  pub same_txid : row.txid ≡ settlement.txid
  pub row_network : row.network ≡ settlement.network
  pub same_payer : row.payer ≡ settlement.payer
  pub same_url : row.canonical_url ≡ quote.canonical_url
  pub same_asset : row.asset_id ≡ quote.asset_id
  pub same_amount : row.amount_atomic ≡ quote.amount_atomic
  pub same_payee : row.pay_to ≡ quote.pay_to
  pub same_height : settlement.confirmed_block_height ≡ some row.block_height
  pub same_block : settlement.confirmed_block_hash ≡ some row.block_hash
  pub same_time : settlement.confirmed_at ≡ some row.confirmed_at
  pub same_delivery :
      row.delivery_status
      ≡ Option.map (λ (d : DeliveryRow). d.status) (find_delivery settlement.settlement_id db)
