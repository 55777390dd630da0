-- ===== src/Ledger/StatusLaws.antt =====
-- How the settlement service's and the reconciler's status writes end (src/database.ts).
use perk_os_nayori_platform.Prelude.{
  ℕ, String, ◌≡◌, refl, sym, Bool, true, false, not, ◌&&◌, ◌||◌, Option, none, some, arith, ◌==◌,
  leb, if◌then◌else◌, any, Result, ok, err,
}
use perk_os_nayori_platform.Ledger.{
  ConfirmationReceiptRecord, DeliveryRow, SettlementRow, Ledger, StoreError, find_settlement,
  is_open, is_validated, is_found, passes_checks,
}
use perk_os_nayori_platform.Prelude.Text.{is_hex, repeats, matches, char_length}
use perk_os_nayori_platform.Ledger.Selecting.{SettlementRecord, settlement_select}
use perk_os_nayori_platform.Ledger.Status.{
  Broadcasted, failed, update_settlement_status, with_status,
}
use perk_os_nayori_platform.Ledger.Reconciling.{
  ReconciliationResultInput, apply_reconciliation_result, input_settlement_id, pending, confirmed,
  terminal, with_pending, with_terminal, with_confirmed, ConfirmedInput, receipt_clashes,
  delivery_clashes, receipt_passes, delivery_passes,
}
use perk_os_nayori_platform.Ledger.Invariant.{IsSound}

abbrev pub is_failed : Broadcasted → Bool
is_failed failed = true
is_failed _ = false

-- The outcome of a broadcast is recorded on a validated settlement in every case but one: a
-- rejection cannot be recorded while a reconciliation worker holds a lease on the settlement. The
-- UPDATE to `failed` leaves the lease, the constraint `settlements_reconciliation_lease` refuses
-- that row, and the transaction is rolled back.
pub update_outcome :
    (db_now : ℕ) (id : String) (to : Broadcasted) (reason : Option String) (attempted_at : ℕ)
    (db : Ledger) {s : SettlementRow}
    → IsSound db
    → find_settlement id db ≡ some s
    → is_validated s.status ≡ true
    → update_settlement_status db_now id to reason attempted_at db ≡ (
        if is_failed to && is_found s.reconcile_lease_until
        then err (StoreError.other "23514")
        else (let db' = with_status db_now id to reason attempted_at db in
            ok (settlement_select db' (find_settlement id db'), db')))
unfolding update_settlement_status passes_checks
update_outcome db_now id to reason attempted_at db {s} sound found valid =
    ground (arith, (sound.settled id s found).checked)

-- What the tables ask of a receipt and of a delivery, and the keys that no two rows share
-- (migrations/001 and 004).
abbrev pub receipt_fits : ConfirmationReceiptRecord → Bool
receipt_fits r =
    matches "nr_" 32 is_hex r.receipt_id
    && repeats 64 is_hex r.payload_hash
    && repeats 64 is_hex r.token_hash
    && (leb 1 (char_length r.signed_token) && leb (char_length r.signed_token) 16384)

abbrev pub shares_receipt_key : ConfirmationReceiptRecord → ConfirmationReceiptRecord → Bool
shares_receipt_key a b =
    b.receipt_id == a.receipt_id
    || b.settlement_id == a.settlement_id
    || b.payload_hash == a.payload_hash
    || b.token_hash == a.token_hash

abbrev pub delivery_fits : ConfirmedInput → Bool
delivery_fits i = matches "nd_" 32 is_hex i.delivery_id && repeats 64 is_hex i.request_digest

abbrev pub shares_delivery_key : ConfirmedInput → DeliveryRow → Bool
shares_delivery_key i d = d.delivery_id == i.delivery_id || d.settlement_id == i.settlement_id

-- The first constraint that the receipt or the delivery of a confirmation breaks.
abbrev pub broken_constraint : ReconciliationResultInput → Ledger → Option String
broken_constraint (confirmed i) db =
    if not (receipt_fits i.receipt)
    then some "23514"
    else if any (shares_receipt_key i.receipt) db.receipts
    then some "23505"
    else if not (is_found (find_settlement i.receipt.settlement_id db))
    then some "23503"
    else if not (delivery_fits i)
    then some "23514"
    else if any (shares_delivery_key i) db.deliveries
    then some "23505"
    else none
broken_constraint _ db = none

abbrev pub or_refused :
    Option String → Ledger → String → Result StoreError (Option SettlementRecord × Ledger)
or_refused (some code) db id = err (StoreError.other code)
or_refused none db id = ok (settlement_select db (find_settlement id db), db)

abbrev pub after_observation : ℕ → ReconciliationResultInput → SettlementRow → Ledger → Ledger
after_observation db_now (pending i) s db = with_pending db_now i s db
after_observation db_now (terminal i) s db = with_terminal db_now i s db
after_observation db_now (confirmed i) s db = with_confirmed db_now i s db

-- The same, as the code tests it.
abbrev code_constraint : ReconciliationResultInput → Ledger → Option String
code_constraint (confirmed i) db =
    if not (receipt_passes i.receipt)
    then some "23514"
    else if any (receipt_clashes i.receipt) db.receipts
    then some "23505"
    else if not (is_found (find_settlement i.receipt.settlement_id db))
    then some "23503"
    else if not (delivery_passes i)
    then some "23514"
    else if any (delivery_clashes i) db.deliveries
    then some "23505"
    else none
code_constraint _ db = none

code_constraint_lem :
    (input : ReconciliationResultInput) (db : Ledger)
    → code_constraint input db ≡ broken_constraint input db
unfolding receipt_passes delivery_passes
code_constraint_lem (pending i) db = refl
code_constraint_lem (terminal i) db = refl
code_constraint_lem (confirmed i) db = refl

outcome_lem :
    (db_now : ℕ) (input : ReconciliationResultInput) (db : Ledger) {s : SettlementRow}
    → IsSound db
    → find_settlement (input_settlement_id input) db ≡ some s
    → apply_reconciliation_result db_now input db ≡ (
        if is_open s.status
        then or_refused
            (code_constraint input db)
            (after_observation db_now input s db)
            (input_settlement_id input)
        else or_refused none db (input_settlement_id input))
unfolding apply_reconciliation_result passes_checks
outcome_lem db_now (pending i) db {s} sound found =
    ground (arith, (sound.settled i.settlement_id s found).checked)
outcome_lem db_now (terminal i) db {s} sound found =
    ground (arith, (sound.settled i.settlement_id s found).checked)
outcome_lem db_now (confirmed i) db {s} sound found =
    ground (arith, (sound.settled i.settlement_id s found).checked)

-- On sound tables an observation of an open settlement is never refused by a CHECK constraint of the
-- settlements: a pending or terminal one is always recorded, and a confirmed one unless its receipt
-- or its delivery breaks a CHECK, a unique key or a reference of the tables that they go to. Of a
-- closed settlement nothing is recorded.
pub apply_outcome :
    (db_now : ℕ) (input : ReconciliationResultInput) (db : Ledger) {s : SettlementRow}
    → IsSound db
    → find_settlement (input_settlement_id input) db ≡ some s
    → apply_reconciliation_result db_now input db ≡ (
        if is_open s.status
        then or_refused
            (broken_constraint input db)
            (after_observation db_now input s db)
            (input_settlement_id input)
        else or_refused none db (input_settlement_id input))
apply_outcome db_now input db {s} sound found =
    rw (sym (code_constraint_lem input db)) (outcome_lem db_now input db sound found)
