-- ===== src/Ledger/ClaimLaws.antt =====
-- Leases keep reconciliation workers apart (`claimSettlementsForReconciliation`, src/database.ts).
use mathlib.Core.Path.{subst}
use perk_os_nayori_platform.Prelude.{
  ℕ, suc, ◌≤◌, ◌<◌, String, ◌≡◌, refl, sym, ap, ◌∙◌, inl, inr, Bool, true, false, some, List, [],
  ◌∷◌, map, arith, Bool-cases, eq-cases, length, length-take_le, All, includes,
}
use perk_os_nayori_platform.Prelude.Table.{lookup, lookup-update, lookup_key}
use perk_os_nayori_platform.Ledger.{SettlementRow, Ledger, find_settlement, is_open}
use perk_os_nayori_platform.Ledger.Claims.{
  lease_over, pick_candidates, picked_ids, leased_row, with_leases,
  claim_settlements_for_reconciliation, ReconciliationCandidate,
}
use perk_os_nayori_platform.Ledger.Reach.{Step, Reach}
use perk_os_nayori_platform.Ledger.Leases.{IsLeased, Kept, Kept-IsLeased}
use perk_os_nayori_platform.Ledger.Invariant.{IsSound, settlement_key}
use perk_os_nayori_platform.Ledger.Invariant.Operations.{lease_result, Reach-IsSound_from}
use perk_os_nayori_platform.Ledger.Invariant.Claiming.{picked_ids-is_claimable, All-pick_candidates}

-- The ids that a claim leases.
abbrev pub claimed_ids : (String → Bool) → ℕ → ℕ → Ledger → List String
claimed_ids locked limit claimed_at db =
    picked_ids (pick_candidates locked limit claimed_at db.settlements)

found_of_includes :
    (P : SettlementRow → Type 0) (t xs : List SettlementRow) (k : String)
    → All (λ s. (lookup settlement_key (settlement_key s) t ≡ some s) × P s) xs
    → includes (map settlement_key xs) k ≡ true
    → (s : SettlementRow) × (lookup settlement_key k t ≡ some s)
found_of_includes P t [] k h m = absurd (cc)
found_of_includes P t (x ∷ xs) k ((found, p), h) m = elim (eq-cases (settlement_key x) k) [
  | inl same ↦ (x, ap (λ j. lookup settlement_key j t) (sym same) ∙ found)
  | inr other ↦ found_of_includes P t xs k h (ground arith)
]

length-map {ℓ κ} :
    {A : Type ℓ} {B : Type κ} (f : A → B) (xs : List A) → length (map f xs) ≡ length xs
length-map f [] = refl
length-map f (x ∷ xs) = ap suc (length-map f xs)

claimed_few :
    (locked : String → Bool) (limit claimed_at : ℕ) (db : Ledger)
    → length (claimed_ids locked limit claimed_at db) ≤ limit
unfolding pick_candidates
claimed_few locked limit claimed_at db = rw length-map (length-take_le limit _)

-- A claim leases at most `limit` settlements, and each of them is in the tables, open, due, free of
-- a lease that is still running, and not locked by another transaction.
pub claimed_due :
    (locked : String → Bool) (limit claimed_at : ℕ) (db : Ledger) (id : String)
    → IsSound db
    → includes (claimed_ids locked limit claimed_at db) id ≡ true
    → (length (claimed_ids locked limit claimed_at db) ≤ limit)
      × (s : SettlementRow) × (find_settlement id db ≡ some s)
      × (is_open s.status ≡ true)
      × (s.reconcile_after ≤ claimed_at)
      × (lease_over claimed_at s.reconcile_lease_until ≡ true)
      × (locked id ≡ false)
claimed_due locked limit claimed_at db id sound picked =
    let (s, found) =
      found_of_includes _ db.settlements (pick_candidates locked limit claimed_at db.settlements) id
        (All-pick_candidates locked limit claimed_at db.settlements sound.unique) picked in
    let due =
      picked_ids-is_claimable locked limit claimed_at db.settlements id s sound.unique picked
        found in
    let key = lookup_key settlement_key id db.settlements s found in
    (
      claimed_few locked limit claimed_at db,
      s,
      found,
      ground arith,
      ground arith,
      ground arith,
      ground (arith, ap locked key),
    )

-- Until its lease is over, a claimed settlement is not due for a claim.
leased-not_claimed :
    (locked : String → Bool) (limit claimed_at until : ℕ) (db : Ledger) (id : String)
    → IsSound db
    → IsLeased id until db
    → claimed_at < until
    → includes (claimed_ids locked limit claimed_at db) id ≡ false
leased-not_claimed locked limit claimed_at until db id sound (s, found, lease) early =
    elim (Bool-cases (includes (claimed_ids locked limit claimed_at db) id)) [
      | inr free ↦ free
      | inl picked ↦ ground (
        arith,
        picked_ids-is_claimable locked limit claimed_at db.settlements id s sound.unique picked
            found,
      )
    ]

claimed-IsLeased :
    (locked : String → Bool) (db_now limit claimed_at lease_until : ℕ) (db : Ledger) (id : String)
    → IsSound db
    → includes (claimed_ids locked limit claimed_at db) id ≡ true
    → IsLeased id lease_until
        (with_leases db_now lease_until (claimed_ids locked limit claimed_at db) db)
claimed-IsLeased locked db_now limit claimed_at lease_until db id sound picked =
    let ids = claimed_ids locked limit claimed_at db in
    let (_, s, found, _, _, _, _) = claimed_due locked limit claimed_at db id sound picked in
    (
      leased_row db_now lease_until s,
      ground (
        arith,
        picked,
        found,
        lookup_key settlement_key id db.settlements s found,
        lookup-update settlement_key (λ (s : SettlementRow). includes ids s.settlement_id)
            (leased_row db_now lease_until) id db.settlements (λ s. refl),
      ),
      refl,
    )

-- A claimed settlement is not claimed again before its lease is over, whichever processes ask and
-- whatever transactions commit in between, as long as none of them records an observation of that
-- settlement and none is itself a claim after the end of the lease.
pub claims_exclusive :
    (locked locked' : String → Bool) (db_now limit limit' claimed_at claimed_at' lease_until : ℕ)
    (db db' db'' : Ledger) (candidates : List ReconciliationCandidate) (id : String)
    → IsSound db
    → claim_settlements_for_reconciliation (λ d. d) locked db_now limit claimed_at lease_until db
      ≡ (candidates, db')
    → Kept id lease_until db' db''
    → claimed_at' < lease_until
    → includes (claimed_ids locked limit claimed_at db) id ≡ true
    → includes (claimed_ids locked' limit' claimed_at' db'') id ≡ false
claims_exclusive locked locked' db_now limit limit' claimed_at claimed_at' lease_until db db' db''
      candidates id sound h kept early picked =
    let start : Reach db db' =
      Reach.then Reach.here (Step.lease locked db_now limit claimed_at lease_until candidates h) in
    let leased =
      subst (IsLeased id lease_until)
        (lease_result locked db_now limit claimed_at lease_until candidates db db' h)
        (claimed-IsLeased locked db_now limit claimed_at lease_until db id sound picked) in
    let after = Kept-IsLeased id lease_until (Reach-IsSound_from sound start) leased kept in
    leased-not_claimed locked' limit' claimed_at' lease_until db'' id after.0 after.1 early
