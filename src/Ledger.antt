-- ===== src/Ledger.antt =====
-- The payment tables of PostgreSQL and the rows that the store reads from them (src/database.ts;
-- the columns and their defaults are those of migrations/001, 003 and 004). The operations of
-- `PostgresDatabase` on these tables are the modules below. Instants are milliseconds.
pub mod Selecting
pub mod Quotes
pub mod Reserve
pub mod Status
pub mod Claims
pub mod Reconciling
pub mod Deliveries
pub mod Invariant
pub mod Reach
pub mod Reservations
pub mod History
pub mod StatusLaws
pub mod Leases
pub mod ClaimLaws
pub mod DeliveryLaws
pub mod DeliveryClaims
use mathlib.Core.Option
use perk_os_nayori_platform.Prelude.{
  ℕ, ◌*◌, String, Bool, true, false, not, ◌&&◌, ◌||◌, Option, none, some, List, map, ◌==◌,
  if◌then◌else◌,
}
use perk_os_nayori_platform.Prelude.Table.{lookup}

pub record IssuedQuoteRecord : Type 0 where
  pub quote_id : String
  pub merchant_id : String
  pub audience : String
  pub request_method : String
  pub canonical_url : String
  pub body_hash : String
  pub network : String
  pub asset_id : String
  pub amount_atomic : String
  pub pay_to : String
  pub fingerprint : String
  pub route_config_hash : String
  pub signed_token_hash : String
  pub issued_at : ℕ
  pub expires_at : ℕ

pub data QuoteStatus : Type 0 where
  issued reserved consumed expired revoked : QuoteStatus

pub record StoredQuoteRecord : Type 0 where
  pub record_ : IssuedQuoteRecord
  pub open record_ use *
  pub status : QuoteStatus

-- A row of `quotes`.
pub record QuoteRow : Type 0 where
  pub stored : StoredQuoteRecord
  pub open stored use *
  pub updated_at : ℕ

pub data SettlementStatus : Type 0 where
  validated broadcast pending confirmed failed dropped reorged : SettlementStatus

pub data DeliveryStatus : Type 0 where
  delivery_pending delivering delivered failed expired : DeliveryStatus

-- A row of `settlements`.
pub record SettlementRow : Type 0 where
  pub settlement_id : String
  pub quote_id : String
  pub network : String
  pub txid : String
  pub payer : String
  pub raw_tx_hash : String
  pub verifier_version : String
  pub verifier_checksum : String
  pub status : SettlementStatus
  pub failure_reason : Option String
  pub broadcast_attempted_at : Option ℕ
  pub broadcast_at : Option ℕ
  pub confirmed_at : Option ℕ
  pub confirmed_block_height : Option ℕ
  pub confirmed_block_hash : Option String
  pub created_at : ℕ
  pub updated_at : ℕ
  pub reconcile_after : ℕ
  pub reconcile_lease_until : Option ℕ
  pub reconcile_attempt_count : ℕ
  pub last_checked_at : Option ℕ

-- A row of `settlement_receipts`.
pub record ConfirmationReceiptRecord : Type 0 where
  pub receipt_id : String
  pub settlement_id : String
  pub key_id : String
  pub payload_hash : String
  pub token_hash : String
  pub signed_token : String
  pub issued_at : ℕ

-- A row of `deliveries`.
pub record DeliveryRow : Type 0 where
  pub delivery_id : String
  pub settlement_id : String
  pub request_digest : String
  pub status : DeliveryStatus
  pub attempt_count : ℕ
  pub delivery_started_at : Option ℕ
  pub delivery_completed_at : Option ℕ
  pub response_digest : Option String
  pub retry_expires_at : ℕ
  pub updated_at : ℕ

-- The `metadata` of a confirmation; other transitions have the default `{}`.
pub record ConfirmationMetadata : Type 0 where
  pub block_height : ℕ
  pub block_hash : String
  pub confirmations : ℕ
  pub receipt_id : String

-- A row of `settlement_transitions`, which is append-only; the newest stands first.
pub record Transition : Type 0 where
  pub settlement_id : String
  pub from_status : Option SettlementStatus
  pub to_status : SettlementStatus
  pub reason_code : Option String
  pub metadata : Option ConfirmationMetadata

pub record Ledger : Type 0 where
  pub quotes : List QuoteRow
  pub settlements : List SettlementRow
  pub receipts : List ConfirmationReceiptRecord
  pub deliveries : List DeliveryRow
  pub transitions : List Transition

-- The codes of `SettlementStoreError` and of `DeliveryStoreError`, and any other error thrown.
pub data StoreError : Type 0 where
  quote_unavailable payment_replayed : StoreError
  delivery_not_found settlement_not_confirmed delivery_expired delivery_not_claimed
        delivery_digest_conflict :
      StoreError
  other : String → StoreError

abbrev pub find_quote : String → Ledger → Option QuoteRow
find_quote id db = lookup (λ (q : QuoteRow). q.quote_id) id db.quotes

abbrev pub find_settlement : String → Ledger → Option SettlementRow
find_settlement id db = lookup (λ (s : SettlementRow). s.settlement_id) id db.settlements

-- `quote_id` is unique in `settlements`.
abbrev pub find_settlement_of_quote : String → Ledger → Option SettlementRow
find_settlement_of_quote id db = lookup (λ (s : SettlementRow). s.quote_id) id db.settlements

-- `settlement_id` is unique in `settlement_receipts` and in `deliveries`.
abbrev pub find_receipt : String → Ledger → Option ConfirmationReceiptRecord
find_receipt id db = lookup (λ (r : ConfirmationReceiptRecord). r.settlement_id) id db.receipts

abbrev pub find_delivery : String → Ledger → Option DeliveryRow
find_delivery id db = lookup (λ (d : DeliveryRow). d.settlement_id) id db.deliveries

abbrev pub is_open : SettlementStatus → Bool
is_open SettlementStatus.validated = true
is_open SettlementStatus.broadcast = true
is_open SettlementStatus.pending = true
is_open _ = false

abbrev pub is_validated : SettlementStatus → Bool
is_validated SettlementStatus.validated = true
is_validated _ = false

abbrev pub is_confirmed : SettlementStatus → Bool
is_confirmed SettlementStatus.confirmed = true
is_confirmed _ = false

-- `IS NOT NULL`
abbrev pub is_found {ℓ} : {A : Type ℓ} → Option A → Bool
is_found none = false
is_found (some a) = true

-- The CHECK constraints of `settlements` that relate its columns: `settlements_broadcast_timestamps`,
-- `settlements_reconciliation_lease`, and that of a confirmed row (migrations/003, 004, 001).
unfoldable pub passes_checks : SettlementRow → Bool
passes_checks s =
    (if is_validated s.status
      then not (is_found s.broadcast_attempted_at)
      else is_found s.broadcast_attempted_at)
    && (not (is_found s.reconcile_lease_until) || is_open s.status)
    && (not (is_confirmed s.status)
        || is_found s.confirmed_at
          && is_found s.confirmed_block_height
          && is_found s.confirmed_block_hash)
