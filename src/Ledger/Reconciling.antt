-- ===== src/Ledger/Reconciling.antt =====
-- `applyReconciliationResult` of `PostgresDatabase` (src/database.ts). As in Ledger/Reserve.antt an
-- error is the ROLLBACK.
use perk_os_nayori_platform.Prelude.{
  ℕ, String, Bool, true, false, not, ◌&&◌, ◌||◌, Option, none, some, ◌∷◌, ◌==◌, if◌then◌else◌, any,
  Result, ok, err, ◌>>◌, throw_if,
}
use perk_os_nayori_platform.Prelude.Text.{is_hex, repeats, matches, is_short, char_length}
use perk_os_nayori_platform.Prelude.Table.{update}
use perk_os_nayori_platform.Ledger.{
  is_found, QuoteStatus, SettlementStatus, DeliveryStatus, QuoteRow, SettlementRow,
  ConfirmationReceiptRecord, DeliveryRow, Transition, Ledger, StoreError, find_settlement, is_open,
  passes_checks,
}
use perk_os_nayori_platform.Ledger.Selecting.{SettlementRecord, settlement_select}
use perk_os_nayori_platform.Ledger.Reserve.{set_quote_status}

pub data Terminal : Type 0 where
  failed dropped : Terminal

abbrev pub terminal_status : Terminal → SettlementStatus
terminal_status failed = SettlementStatus.failed
terminal_status dropped = SettlementStatus.dropped

pub record PendingInput : Type 0 where
  pub settlement_id : String
  pub checked_at : ℕ
  pub retry_at : ℕ
  pub reason_code : String

pub record TerminalInput : Type 0 where
  pub settlement_id : String
  pub checked_at : ℕ
  pub status : Terminal
  pub reason_code : String

pub record ConfirmedInput : Type 0 where
  pub settlement_id : String
  pub checked_at : ℕ
  pub block_height : ℕ
  pub block_hash : String
  pub confirmations : ℕ
  pub receipt : ConfirmationReceiptRecord
  pub delivery_id : String
  pub request_digest : String
  pub delivery_retry_expires_at : ℕ

-- `ReconciliationResultInput`, by its `outcome`.
pub data ReconciliationResultInput : Type 0 where
  pending : PendingInput → ReconciliationResultInput
  terminal : TerminalInput → ReconciliationResultInput
  confirmed : ConfirmedInput → ReconciliationResultInput

abbrev pub input_settlement_id : ReconciliationResultInput → String
input_settlement_id (pending i) = i.settlement_id
input_settlement_id (terminal i) = i.settlement_id
input_settlement_id (confirmed i) = i.settlement_id

-- `COALESCE(old, new)`
abbrev pub coalesce : Option ℕ → ℕ → Option ℕ
coalesce none new = some new
coalesce (some old) new = some old

abbrev pub is_row : String → SettlementRow → Bool
is_row id s = s.settlement_id == id

abbrev pub pending_row : ℕ → PendingInput → SettlementRow → SettlementRow
pending_row db_now i s = record s {
  status = SettlementStatus.pending;
  failure_reason = some i.reason_code;
  broadcast_attempted_at = coalesce s.broadcast_attempted_at i.checked_at;
  last_checked_at = some i.checked_at;
  reconcile_after = i.retry_at;
  reconcile_lease_until = none;
  updated_at = db_now;
}

abbrev is_pending : SettlementStatus → Bool
is_pending SettlementStatus.pending = true
is_pending _ = false

abbrev is_reason : Option String → String → Bool
is_reason none reason = false
is_reason (some r) reason = r == reason

abbrev pub transition : String → SettlementStatus → SettlementStatus → String → Transition
transition id from_status to_status reason = record {
  settlement_id = id;
  from_status = some from_status;
  to_status = to_status;
  reason_code = some reason;
  metadata = none;
}

-- A repeated pending observation with the same reason is not logged again.
abbrev pub with_pending : ℕ → PendingInput → SettlementRow → Ledger → Ledger
with_pending db_now i current db = record db {
  settlements = update (is_row i.settlement_id) (pending_row db_now i) db.settlements;
  transitions =
      if is_pending current.status && is_reason current.failure_reason i.reason_code
      then db.transitions
      else transition i.settlement_id current.status SettlementStatus.pending i.reason_code
        ∷ db.transitions;
}

abbrev pub terminal_row : ℕ → TerminalInput → SettlementRow → SettlementRow
terminal_row db_now i s = record s {
  status = terminal_status i.status;
  failure_reason = some i.reason_code;
  broadcast_attempted_at = coalesce s.broadcast_attempted_at i.checked_at;
  last_checked_at = some i.checked_at;
  reconcile_lease_until = none;
  updated_at = db_now;
}

abbrev pub with_terminal : ℕ → TerminalInput → SettlementRow → Ledger → Ledger
with_terminal db_now i current db = record db {
  settlements = update (is_row i.settlement_id) (terminal_row db_now i) db.settlements;
  transitions =
      transition i.settlement_id current.status (terminal_status i.status) i.reason_code
      ∷ db.transitions;
}

abbrev pub confirmed_row : ℕ → ConfirmedInput → SettlementRow → SettlementRow
confirmed_row db_now i s = record s {
  status = SettlementStatus.confirmed;
  failure_reason = none;
  broadcast_attempted_at = coalesce s.broadcast_attempted_at i.checked_at;
  confirmed_at = some i.checked_at;
  confirmed_block_height = some i.block_height;
  confirmed_block_hash = some i.block_hash;
  last_checked_at = some i.checked_at;
  reconcile_lease_until = none;
  updated_at = db_now;
}

-- A second row with one of the unique keys of `settlement_receipts`.
abbrev pub receipt_clashes : ConfirmationReceiptRecord → ConfirmationReceiptRecord → Bool
receipt_clashes new r =
    r.receipt_id == new.receipt_id
    || r.settlement_id == new.settlement_id
    || r.payload_hash == new.payload_hash
    || r.token_hash == new.token_hash

-- A second row with one of the unique keys of `deliveries`.
abbrev pub delivery_clashes : ConfirmedInput → DeliveryRow → Bool
delivery_clashes i d = d.delivery_id == i.delivery_id || d.settlement_id == i.settlement_id

abbrev pub new_delivery : ℕ → ConfirmedInput → DeliveryRow
new_delivery db_now i = record {
  delivery_id = i.delivery_id;
  settlement_id = i.settlement_id;
  request_digest = i.request_digest;
  status = DeliveryStatus.delivery_pending;
  attempt_count = 0;
  delivery_started_at = none;
  delivery_completed_at = none;
  response_digest = none;
  retry_expires_at = i.delivery_retry_expires_at;
  updated_at = db_now;
}

abbrev pub confirmed_transition : ConfirmedInput → SettlementStatus → Transition
confirmed_transition i from_status = record {
  settlement_id = i.settlement_id;
  from_status = some from_status;
  to_status = SettlementStatus.confirmed;
  reason_code = some "confirmation_depth_reached";
  metadata = some (record {
    block_height = i.block_height;
    block_hash = i.block_hash;
    confirmations = i.confirmations;
    receipt_id = i.receipt.receipt_id;
  });
}

abbrev pub with_confirmed : ℕ → ConfirmedInput → SettlementRow → Ledger → Ledger
with_confirmed db_now i current db = record {
  settlements = update (is_row i.settlement_id) (confirmed_row db_now i) db.settlements;
  quotes =
      update (λ (q : QuoteRow). q.quote_id == current.quote_id)
        (set_quote_status db_now QuoteStatus.consumed) db.quotes;
  receipts = i.receipt ∷ db.receipts;
  deliveries = new_delivery db_now i ∷ db.deliveries;
  transitions = confirmed_transition i current.status ∷ db.transitions;
}

-- The CHECK constraints of `settlement_receipts` (migrations/004).
unfoldable pub receipt_passes : ConfirmationReceiptRecord → Bool
unfolding matches repeats char_length
receipt_passes r =
    matches "nr_" 32 is_hex r.receipt_id
    && repeats 64 is_hex r.payload_hash
    && repeats 64 is_hex r.token_hash
    && is_short 16384 r.signed_token

-- The CHECK constraints of `deliveries` that a new row can break (migrations/001 and 004).
unfoldable pub delivery_passes : ConfirmedInput → Bool
unfolding matches repeats
delivery_passes i = matches "nd_" 32 is_hex i.delivery_id && repeats 64 is_hex i.request_digest

-- The tables after the writes for an observation, or the constraint that a write breaks.
unfoldable pub apply_open :
    ℕ → ReconciliationResultInput → SettlementRow → Ledger → Result StoreError Ledger
apply_open db_now (pending i) current db = do
  throw_if (not (passes_checks (pending_row db_now i current))) (StoreError.other "23514")
  ok (with_pending db_now i current db)
apply_open db_now (terminal i) current db = do
  throw_if (not (passes_checks (terminal_row db_now i current))) (StoreError.other "23514")
  ok (with_terminal db_now i current db)
apply_open db_now (confirmed i) current db = do
  throw_if (not (passes_checks (confirmed_row db_now i current))) (StoreError.other "23514")
  throw_if (not (receipt_passes i.receipt)) (StoreError.other "23514")
  throw_if (any (receipt_clashes i.receipt) db.receipts) (StoreError.other "23505")
  throw_if (not (is_found (find_settlement i.receipt.settlement_id db))) (StoreError.other "23503")
  throw_if (not (delivery_passes i)) (StoreError.other "23514")
  throw_if (any (delivery_clashes i) db.deliveries) (StoreError.other "23505")
  ok (with_confirmed db_now i current db)

abbrev pub reread :
    String → Result StoreError Ledger → Result StoreError (Option SettlementRecord × Ledger)
reread id (err e) = err e
reread id (ok db) = ok (settlement_select db (find_settlement id db), db)

unfoldable pub apply_reconciliation_result :
    ℕ → ReconciliationResultInput → Ledger → Result StoreError (Option SettlementRecord × Ledger)
unfolding apply_open
apply_reconciliation_result db_now input db =
    elim (find_settlement (input_settlement_id input) db) [
      | none ↦ err (StoreError.other "The reconciliation settlement does not exist.")
      | some current ↦
          if is_open current.status
          then reread (input_settlement_id input) (apply_open db_now input current db)
          else reread (input_settlement_id input) (ok db)
    ]
