-- ===== src/Ledger/Status.antt =====
-- `updateSettlementStatus` and `findSettlementForMerchant` of `PostgresDatabase`
-- (src/database.ts).
use perk_os_nayori_platform.Prelude.{
  ℕ, String, not, ◌&&◌, Option, none, some, ◌∷◌, ◌==◌, Result, ok, err, ◌>>◌, throw_if,
}
use perk_os_nayori_platform.Prelude.Table.{update}
use perk_os_nayori_platform.Ledger.{
  SettlementStatus, SettlementRow, Ledger, StoreError, find_settlement, is_validated, passes_checks,
}
use perk_os_nayori_platform.Ledger.Selecting.{SettlementRecord, settlement_select, for_merchant}

-- The statuses that the settlement service moves a reservation to after its broadcast.
pub data Broadcasted : Type 0 where
  broadcast pending failed : Broadcasted

abbrev pub status_of : Broadcasted → SettlementStatus
status_of broadcast = SettlementStatus.broadcast
status_of pending = SettlementStatus.pending
status_of failed = SettlementStatus.failed

-- `CASE WHEN $3 = 'broadcast' THEN $5 ELSE broadcast_at END`
abbrev broadcast_time : Broadcasted → ℕ → Option ℕ → Option ℕ
broadcast_time broadcast attempted_at old = some attempted_at
broadcast_time _ attempted_at old = old

abbrev pub broadcasted_row : ℕ → Broadcasted → Option String → ℕ → SettlementRow → SettlementRow
broadcasted_row db_now to_status reason attempted_at s = record s {
  status = status_of to_status;
  failure_reason = reason;
  broadcast_attempted_at = some attempted_at;
  broadcast_at = broadcast_time to_status attempted_at s.broadcast_at;
  updated_at = db_now;
}

abbrev pub with_status : ℕ → String → Broadcasted → Option String → ℕ → Ledger → Ledger
with_status db_now id to_status reason attempted_at db = record db {
  settlements =
      update (λ (s : SettlementRow). s.settlement_id == id && is_validated s.status)
        (broadcasted_row db_now to_status reason attempted_at) db.settlements;
  transitions =
      record {
        settlement_id = id;
        from_status = some SettlementStatus.validated;
        to_status = status_of to_status;
        reason_code = reason;
        metadata = none;
      }
      ∷ db.transitions;
}

-- The UPDATE finds its row by the primary key, so its row count is 1 exactly if that row has the
-- status `validated`. The new row has to pass the CHECK constraints.
move_row :
    ℕ
    → String
    → Broadcasted
    → Option String
    → ℕ
    → SettlementRow
    → Ledger
    → Result StoreError (Option SettlementRecord × Ledger)
move_row db_now id to_status reason attempted_at current db = do
  throw_if (not (is_validated current.status))
      (StoreError.other "The settlement status transition was not applied.")
  throw_if (not (passes_checks (broadcasted_row db_now to_status reason attempted_at current)))
      (StoreError.other "23514")
  let db' = with_status db_now id to_status reason attempted_at db
  ok (settlement_select db' (find_settlement id db'), db')

unfoldable pub update_settlement_status :
    ℕ
    → String
    → Broadcasted
    → Option String
    → ℕ
    → Ledger
    → Result StoreError (Option SettlementRecord × Ledger)
unfolding move_row
update_settlement_status db_now id to_status reason attempted_at db = elim (find_settlement id db) [
  | none ↦ err (StoreError.other "The settlement status transition was not applied.")
  | some current ↦ move_row db_now id to_status reason attempted_at current db
]

unfoldable pub find_settlement_for_merchant : String → String → Ledger → Option SettlementRecord
find_settlement_for_merchant id merchant_id db =
    for_merchant merchant_id (settlement_select db (find_settlement id db))
