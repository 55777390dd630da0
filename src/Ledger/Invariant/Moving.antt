-- ===== src/Ledger/Invariant/Moving.antt =====
-- `updateSettlementStatus` and `applyReconciliationResult` move one settlement (src/database.ts).
use perk_os_nayori_platform.Prelude.{ℕ, String, ◌≡◌, refl, true, Option, some, arith, eq_iff}
use perk_os_nayori_platform.Prelude.Table.{lookup, lookup_key}
use perk_os_nayori_platform.Prelude.Table.Keys.{update-IsUnique}
use perk_os_nayori_platform.Ledger.{
  QuoteStatus, SettlementStatus, SettlementRow, Ledger, find_settlement, is_open, is_validated,
  passes_checks,
}
use perk_os_nayori_platform.Ledger.Status.{Broadcasted, status_of, broadcasted_row, with_status}
use perk_os_nayori_platform.Ledger.Reconciling.{
  PendingInput, TerminalInput, ConfirmedInput, pending_row, terminal_row, terminal_status,
  confirmed_row, with_pending, with_terminal, with_confirmed,
}
use perk_os_nayori_platform.Ledger.Invariant.{settlement_key, IsSound, Moves, paired}
use perk_os_nayori_platform.Ledger.Invariant.Finding.{
  quote_kept, receipt_kept, delivery_kept, find-update_row, find-update_is_row, status-update,
}

pub with_status-Moves :
    (db_now : ℕ) (id : String) (to : Broadcasted) (reason : Option String) (attempted_at : ℕ)
    {before : SettlementRow} {db : Ledger}
    → IsSound db
    → find_settlement id db ≡ some before
    → is_validated before.status ≡ true
    → passes_checks (broadcasted_row db_now to reason attempted_at before) ≡ true
    → Moves id before
        (broadcasted_row db_now to reason attempted_at before)
        db
        (with_status db_now id to reason attempted_at db)
unfolding lookup
with_status-Moves db_now id to reason attempted_at {before} {db} sound found valid checked =
    record {
      found = found;
      settlement =
          find-update_row id _ (broadcasted_row db_now to reason attempted_at) db before found
            (ground (
              arith,
              lookup_key settlement_key id db.settlements before found,
              eq_iff before.settlement_id id,
            ))
            (λ s h. ground (arith, eq_iff s.settlement_id id)) (λ s. refl);
      same_id = refl;
      same_quote = refl;
      same_network = refl;
      same_txid = refl;
      quote = λ j. quote_kept sound id before found (ground arith) (status_of to) j (ground arith);
      receipt =
          λ j. receipt_kept sound id before found (ground arith) (status_of to) j (ground arith);
      delivery =
          λ j. delivery_kept sound id before found (ground arith) (status_of to) j (ground arith);
      logged = λ j. ground arith;
      checked = checked;
      unique = update-IsUnique settlement_key _ _ db.settlements (λ s. refl) sound.unique;
    }

pub with_pending-Moves :
    (db_now : ℕ) (i : PendingInput) {before : SettlementRow} {db : Ledger}
    → IsSound db
    → find_settlement i.settlement_id db ≡ some before
    → is_open before.status ≡ true
    → Moves i.settlement_id before
        (pending_row db_now i before)
        db
        (with_pending db_now i before db)
unfolding lookup passes_checks
with_pending-Moves db_now i {before} {db} sound found opened = record {
  found = found;
  settlement =
      find-update_is_row i.settlement_id (pending_row db_now i) db before found (λ s. refl);
  same_id = refl;
  same_quote = refl;
  same_network = refl;
  same_txid = refl;
  quote = λ j. quote_kept sound i.settlement_id before found opened SettlementStatus.pending j refl;
  receipt =
      λ j. receipt_kept sound i.settlement_id before found opened SettlementStatus.pending j refl;
  delivery =
      λ j. delivery_kept sound i.settlement_id before found opened SettlementStatus.pending j refl;
  logged = λ j. ground (
    arith,
    (sound.settled i.settlement_id before found).logged,
    eq_iff i.settlement_id j,
    lookup_key settlement_key i.settlement_id db.settlements before found,
  );
  checked = ground (arith, (sound.settled i.settlement_id before found).checked);
  unique = update-IsUnique settlement_key _ _ db.settlements (λ s. refl) sound.unique;
}

pub with_terminal-Moves :
    (db_now : ℕ) (i : TerminalInput) {before : SettlementRow} {db : Ledger}
    → IsSound db
    → find_settlement i.settlement_id db ≡ some before
    → is_open before.status ≡ true
    → Moves i.settlement_id before
        (terminal_row db_now i before)
        db
        (with_terminal db_now i before db)
unfolding lookup passes_checks
with_terminal-Moves db_now i {before} {db} sound found opened = record {
  found = found;
  settlement =
      find-update_is_row i.settlement_id (terminal_row db_now i) db before found (λ s. refl);
  same_id = refl;
  same_quote = refl;
  same_network = refl;
  same_txid = refl;
  quote = λ j.
      quote_kept sound i.settlement_id before found opened (terminal_status i.status) j
        (ground arith);
  receipt = λ j.
      receipt_kept sound i.settlement_id before found opened (terminal_status i.status) j
        (ground arith);
  delivery = λ j.
      delivery_kept sound i.settlement_id before found opened (terminal_status i.status) j
        (ground arith);
  logged = λ j. ground arith;
  checked = ground (arith, (sound.settled i.settlement_id before found).checked);
  unique = update-IsUnique settlement_key _ _ db.settlements (λ s. refl) sound.unique;
}

-- A confirmation whose receipt names the settlement.
pub with_confirmed-Moves :
    (db_now : ℕ) (i : ConfirmedInput) {before : SettlementRow} {db : Ledger}
    → IsSound db
    → find_settlement i.settlement_id db ≡ some before
    → is_open before.status ≡ true
    → i.receipt.settlement_id ≡ i.settlement_id
    → Moves i.settlement_id before
        (confirmed_row db_now i before)
        db
        (with_confirmed db_now i before db)
unfolding lookup passes_checks
with_confirmed-Moves db_now i {before} {db} sound found opened named = record {
  found = found;
  settlement =
      find-update_is_row i.settlement_id (confirmed_row db_now i) db before found (λ s. refl);
  same_id = refl;
  same_quote = refl;
  same_network = refl;
  same_txid = refl;
  quote =
      status-update db_now before.quote_id QuoteStatus.consumed db (paired before.status)
        (sound.settled i.settlement_id before found).quote;
  receipt = λ j. ground (arith, named);
  delivery = λ j. ground arith;
  logged = λ j. ground arith;
  checked = ground (arith, (sound.settled i.settlement_id before found).checked);
  unique = update-IsUnique settlement_key _ _ db.settlements (λ s. refl) sound.unique;
}
