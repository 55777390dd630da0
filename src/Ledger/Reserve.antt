-- ===== src/Ledger/Reserve.antt =====
-- `reserveSettlement` of `PostgresDatabase` (src/database.ts). The transaction's writes are kept
-- only in an `ok` result: an error is the ROLLBACK. `date_now` is the process's clock
-- (`Date.now()`) and `db_now` the database's (`now()`).
use perk_os_nayori_platform.Prelude.{
  ℕ, String, Bool, true, false, not, ◌&&◌, ◌||◌, Option, none, some, ◌∷◌, ◌==◌, ltb, if◌then◌else◌,
  any, Result, ok, err, ◌>>◌, throw_if,
}
use perk_os_nayori_platform.Prelude.Text.{is_hex, repeats, matches, is_short, char_length}
use perk_os_nayori_platform.Prelude.Table.{update}
use perk_os_nayori_platform.Ledger.{
  QuoteStatus, SettlementStatus, QuoteRow, SettlementRow, Ledger, StoreError, find_quote,
  find_settlement, find_settlement_of_quote,
}
use perk_os_nayori_platform.Ledger.Selecting.{SettlementRecord, settlement_select, for_merchant}

pub record SettlementReservation : Type 0 where
  pub settlement_id : String
  pub quote_id : String
  pub merchant_id : String
  pub network : String
  pub txid : String
  pub payer : String
  pub raw_tx_hash : String
  pub verifier_version : String
  pub verifier_checksum : String
  pub expected_signed_token_hash : String

-- `settlement` is `created.rows[0]`, with `none` for `undefined`.
pub record ReserveSettlementResult : Type 0 where
  pub created : Bool
  pub settlement : Option SettlementRecord

abbrev pub Reserved : Type 0
Reserved = Result StoreError (ReserveSettlementResult × Ledger)

abbrev is_issued : QuoteStatus → Bool
is_issued QuoteStatus.issued = true
is_issued _ = false

abbrev pub same_payment : String → String → SettlementRow → Bool
same_payment network txid s = s.network == network && s.txid == txid

-- A second row with one of the unique keys of `settlements`: `settlement_id`, `quote_id`, and
-- `network` with `txid`.
abbrev pub clashes_with : SettlementReservation → SettlementRow → Bool
clashes_with input s =
    s.settlement_id == input.settlement_id
    || s.quote_id == input.quote_id
    || same_payment input.network input.txid s

abbrev pub validated_row : ℕ → SettlementReservation → SettlementRow
validated_row db_now input = record {
  settlement_id = input.settlement_id;
  quote_id = input.quote_id;
  network = input.network;
  txid = input.txid;
  payer = input.payer;
  raw_tx_hash = input.raw_tx_hash;
  verifier_version = input.verifier_version;
  verifier_checksum = input.verifier_checksum;
  status = SettlementStatus.validated;
  failure_reason = none;
  broadcast_attempted_at = none;
  broadcast_at = none;
  confirmed_at = none;
  confirmed_block_height = none;
  confirmed_block_hash = none;
  created_at = db_now;
  updated_at = db_now;
  reconcile_after = db_now;
  reconcile_lease_until = none;
  reconcile_attempt_count = 0;
  last_checked_at = none;
}

abbrev pub set_quote_status : ℕ → QuoteStatus → QuoteRow → QuoteRow
set_quote_status db_now new q = record q {
  stored = record (q.stored) { status = new };
  updated_at = db_now;
}

-- The three writes of a new reservation.
abbrev pub with_reservation : ℕ → SettlementReservation → Ledger → Ledger
with_reservation db_now input db = record db {
  settlements = validated_row db_now input ∷ db.settlements;
  transitions =
      record {
        settlement_id = input.settlement_id;
        from_status = none;
        to_status = SettlementStatus.validated;
        reason_code = some "payment_verified";
        metadata = none;
      }
      ∷ db.transitions;
  quotes =
      update (λ (q : QuoteRow). q.quote_id == input.quote_id)
        (set_quote_status db_now QuoteStatus.reserved) db.quotes;
}

-- The CHECK constraints of `settlements` on what a reservation brings in (migrations/001 and 003).
unfoldable pub reservation_passes : SettlementReservation → Bool
unfolding matches repeats char_length
reservation_passes input =
    is_short 128 input.network
    && matches "0x" 64 is_hex input.txid
    && is_short 256 input.payer
    && repeats 64 is_hex input.raw_tx_hash
    && repeats 64 is_hex input.verifier_checksum

-- The quote is locked and has no settlement yet.
reserve_new : ℕ → ℕ → SettlementReservation → QuoteRow → Ledger → Reserved
reserve_new date_now db_now input locked db = do
  throw_if (not (is_issued locked.status) || ltb locked.expires_at date_now)
      StoreError.quote_unavailable
  throw_if (any (same_payment input.network input.txid) db.settlements) StoreError.payment_replayed
  throw_if (not (reservation_passes input)) (StoreError.other "23514")
  throw_if (any (clashes_with input) db.settlements) StoreError.payment_replayed
  let db' = with_reservation db_now input db
  ok (
    record {
      created = true;
      settlement =
          for_merchant input.merchant_id
            (settlement_select db' (find_settlement input.settlement_id db'));
    },
    db',
  )

-- The quote already has a settlement: the same payment again, or another one.
replay : SettlementReservation → SettlementRecord → Ledger → Reserved
replay input settlement db =
    if settlement.txid == input.txid && settlement.raw_tx_hash == input.raw_tx_hash
    then ok (record { created = false; settlement = some settlement }, db)
    else err StoreError.payment_replayed

reserve_locked : ℕ → ℕ → SettlementReservation → QuoteRow → Ledger → Reserved
unfolding reserve_new replay
reserve_locked date_now db_now input locked db =
    elim (for_merchant input.merchant_id
      (settlement_select db (find_settlement_of_quote input.quote_id db))) [
        | some settlement ↦ replay input settlement db
        | none ↦ reserve_new date_now db_now input locked db
      ]

unfoldable pub reserve_settlement : ℕ → ℕ → SettlementReservation → Ledger → Reserved
unfolding reserve_locked
reserve_settlement date_now db_now input db = elim (find_quote input.quote_id db) [
  | none ↦ err StoreError.quote_unavailable
  | some locked ↦
      if locked.merchant_id == input.merchant_id
        && locked.signed_token_hash == input.expected_signed_token_hash
      then reserve_locked date_now db_now input locked db
      else err StoreError.quote_unavailable
]
