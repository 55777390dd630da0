-- ===== src/Ledger/Claims.antt =====
-- `claimSettlementsForReconciliation` of `PostgresDatabase` (src/database.ts).
use perk_os_nayori_platform.Prelude.{
  ℕ, ◌+◌, String, Bool, true, not, ◌&&◌, ◌||◌, Option, none, some, List, [], ◌∷◌, map, ltb, leb,
  eqb, if◌then◌else◌, take, select, includes,
}
use perk_os_nayori_platform.Prelude.Table.{update}
use perk_os_nayori_platform.Ledger.{QuoteRow, SettlementRow, Ledger, find_quote, is_open}
use perk_os_nayori_platform.Ledger.Selecting.{SettlementRecord, settlement_select}

-- What a row of `RECONCILIATION_SELECT` holds.
pub record ReconciliationCandidate : Type 0 where
  pub settlement : SettlementRecord
  pub open settlement use *
  pub audience : String
  pub request_method : String
  pub canonical_url : String
  pub body_hash : String
  pub asset_id : String
  pub amount_atomic : String
  pub pay_to : String

-- `reconcile_lease_until IS NULL OR reconcile_lease_until <= $2`
abbrev pub lease_over : ℕ → Option ℕ → Bool
lease_over claimed_at none = true
lease_over claimed_at (some until) = leb until claimed_at

abbrev pub is_claimable : ℕ → SettlementRow → Bool
is_claimable claimed_at s =
    is_open s.status
    && leb s.reconcile_after claimed_at
    && lease_over claimed_at s.reconcile_lease_until

-- `ORDER BY reconcile_after, created_at`
abbrev comes_before : SettlementRow → SettlementRow → Bool
comes_before s t =
    ltb s.reconcile_after t.reconcile_after
    || eqb s.reconcile_after t.reconcile_after && leb s.created_at t.created_at

unfoldable pub insert_ordered : SettlementRow → List SettlementRow → List SettlementRow
insert_ordered s [] = s ∷ []
insert_ordered s (t ∷ ts) = if comes_before s t then s ∷ t ∷ ts else t ∷ insert_ordered s ts

unfoldable pub order_rows : List SettlementRow → List SettlementRow
unfolding insert_ordered
order_rows [] = []
order_rows (s ∷ ts) = insert_ordered s (order_rows ts)

-- The rows that the `candidates` query picks. `locked` holds for the rows that other transactions
-- have locked, which SKIP LOCKED passes over.
unfoldable pub pick_candidates : (String → Bool) → ℕ → ℕ → List SettlementRow → List SettlementRow
pick_candidates locked limit claimed_at rows =
    take limit
      (order_rows (select (λ s. is_claimable claimed_at s && not (locked s.settlement_id)) rows))

abbrev pub picked_ids : List SettlementRow → List String
picked_ids rows = map (λ (s : SettlementRow). s.settlement_id) rows

abbrev pub leased_row : ℕ → ℕ → SettlementRow → SettlementRow
leased_row db_now lease_until s = record s {
  reconcile_lease_until = some lease_until;
  reconcile_attempt_count = s.reconcile_attempt_count + 1;
  updated_at = db_now;
}

abbrev candidate_of : SettlementRecord → QuoteRow → ReconciliationCandidate
candidate_of settlement q = record {
  settlement = settlement;
  audience = q.audience;
  request_method = q.request_method;
  canonical_url = q.canonical_url;
  body_hash = q.body_hash;
  asset_id = q.asset_id;
  amount_atomic = q.amount_atomic;
  pay_to = q.pay_to;
}

abbrev join_quote : Option SettlementRecord → Option QuoteRow → Option ReconciliationCandidate
join_quote (some settlement) (some q) = some (candidate_of settlement q)
join_quote _ _ = none

-- A row of `RECONCILIATION_SELECT`.
unfoldable pub reconciliation_select : Ledger → SettlementRow → Option ReconciliationCandidate
reconciliation_select db s = join_quote (settlement_select db (some s)) (find_quote s.quote_id db)

abbrev keep_some :
    Option ReconciliationCandidate → List ReconciliationCandidate → List ReconciliationCandidate
keep_some none rest = rest
keep_some (some c) rest = c ∷ rest

unfoldable pub select_candidates :
    Ledger → List String → List SettlementRow → List ReconciliationCandidate
unfolding reconciliation_select
select_candidates db ids [] = []
select_candidates db ids (s ∷ rows) =
    let rest = select_candidates db ids rows in
    if includes ids s.settlement_id then keep_some (reconciliation_select db s) rest else rest

abbrev pub with_leases : ℕ → ℕ → List String → Ledger → Ledger
with_leases db_now lease_until ids db = record db {
  settlements =
      update (λ (s : SettlementRow). includes ids s.settlement_id) (leased_row db_now lease_until)
        db.settlements;
}

-- The UPDATE and the SELECT are two statements, each of which commits: `others` are the transactions
-- that commit between them. The result is the rows that the SELECT returns, in table order, and the
-- tables that it reads.
unfoldable pub claim_settlements_for_reconciliation :
    (Ledger → Ledger)
    → (String → Bool)
    → ℕ
    → ℕ
    → ℕ
    → ℕ
    → Ledger
    → List ReconciliationCandidate × Ledger
claim_settlements_for_reconciliation others locked db_now limit claimed_at lease_until db =
    let ids = picked_ids (pick_candidates locked limit claimed_at db.settlements) in
    let db' = others (with_leases db_now lease_until ids db) in
    (select_candidates db' ids db'.settlements, db')
