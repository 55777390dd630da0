-- ===== src/Reconciler/Runs.antt =====
-- What a run of the worker does to the tables, and what it reports (src/reconciliation.ts).
use mathlib.Core.Path.{subst}
use perk_os_nayori_platform.Prelude.{
  ℕ, suc, ◌+◌, String, ◌≡◌, refl, ap, ◌∙◌, inl, inr, Bool, Option, none, some, List, [], ◌∷◌, arith,
  Option-cases, length, Result, ok, err, >>=-eq-ok,
}
use perk_os_nayori_platform.Ledger.{Ledger, SettlementStatus, StoreError}
use perk_os_nayori_platform.Ledger.Selecting.{SettlementRecord}
use perk_os_nayori_platform.Ledger.Claims.{
  ReconciliationCandidate, claim_settlements_for_reconciliation,
}
use perk_os_nayori_platform.Ledger.Reconciling.{
  ReconciliationResultInput, confirmed, apply_reconciliation_result,
}
use perk_os_nayori_platform.Ledger.Reach.{NamesItsReceipt, Step, Reach}
use perk_os_nayori_platform.Chain.{ChainObservation}
use perk_os_nayori_platform.Reconciler.{
  Config, Signing, ReconciliationRunResult, Turn, result_input, input_of, receipt_of, claims_of,
  confirmed_input, reconcile_candidate, count_status, count_result, run_candidates, with_turns,
  run_once,
}

abbrev pub total : ReconciliationRunResult → ℕ
total r = r.confirmed + r.pending + r.terminal + r.errors

ok-inj : {E A : Type 0} {a b : A} → ◌≡◌ {A = Result E A} (ok a) (ok b) → a ≡ b
ok-inj h = cc

pub Reach-trans : {a b c : Ledger} → Reach a b → Reach b c → Reach a c
Reach-trans r Reach.here = r
Reach-trans r (Reach.then s st) = Reach.then (Reach-trans r s) st

count_status-total :
    (config : Config) (signing : Signing) (st : SettlementStatus) (c : ReconciliationRunResult)
    → (total (count_status config signing st c) ≡ total c + 1)
      × ((count_status config signing st c).claimed ≡ c.claimed)
count_status-total config signing SettlementStatus.validated c = (omega arith, refl)
count_status-total config signing SettlementStatus.broadcast c = (omega arith, refl)
count_status-total config signing SettlementStatus.pending c = (omega arith, refl)
count_status-total config signing SettlementStatus.confirmed c = (omega arith, refl)
count_status-total config signing SettlementStatus.failed c = (omega arith, refl)
count_status-total config signing SettlementStatus.dropped c = (omega arith, refl)
count_status-total config signing SettlementStatus.reorged c = (omega arith, refl)

claim-Reach :
    (between : Ledger → Ledger) (locked : String → Bool) (db_now limit claimed_at until : ℕ)
    (db : Ledger)
    → ((d : Ledger) → Reach d (between d))
    → Reach db
        (claim_settlements_for_reconciliation between locked db_now limit claimed_at until db).1
unfolding claim_settlements_for_reconciliation
claim-Reach between locked db_now limit claimed_at until db commits =
    Reach-trans (Reach.then Reach.here (Step.lease locked db_now limit claimed_at until _ refl))
      (commits _)

module _ (config : Config) (signing : Signing) where
  count_result-total :
      (r : Result StoreError (Option SettlementRecord × Ledger)) (db : Ledger)
      (c : ReconciliationRunResult)
      → (total (count_result config signing r db c).0 ≡ total c + 1)
        × ((count_result config signing r db c).0.claimed ≡ c.claimed)
  unfolding count_result
  count_result-total (ok (some r, db')) db c = count_status-total config signing r.status c
  count_result-total (ok (none, db')) db c = (omega arith, refl)
  count_result-total (err e) db c = (omega arith, refl)

  run_candidates-total :
      (l : List (Turn × ReconciliationCandidate)) (db : Ledger) (r : ReconciliationRunResult)
      → (total (run_candidates config signing l db r).0 ≡ total r + length l)
        × ((run_candidates config signing l db r).0.claimed ≡ r.claimed)
  unfolding run_candidates
  run_candidates-total [] db r = (omega arith, refl)
  run_candidates-total ((turn, c) ∷ l) db r =
      let before = turn.others db in
      let result = reconcile_candidate config signing turn c before in
      let (rest, same) = run_candidates-total l _ _ in
      let (one, kept) = count_result-total result before r in
      (omega (arith, rest, one), same ∙ kept)

  result_input-NamesItsReceipt :
      (t : ℕ) (c : ReconciliationCandidate) (o : ChainObservation) (i : ReconciliationResultInput)
      → result_input config signing t c o ≡ ok i
      → NamesItsReceipt i
  unfolding result_input
  result_input-NamesItsReceipt t c (ChainObservation.pending r) i h =
      subst NamesItsReceipt (ok-inj h) tt
  result_input-NamesItsReceipt t c (ChainObservation.ambiguous r) i h =
      subst NamesItsReceipt (ok-inj h) tt
  result_input-NamesItsReceipt t c (ChainObservation.terminal st r) i h =
      subst NamesItsReceipt (ok-inj h) tt
  result_input-NamesItsReceipt t c (ChainObservation.confirmed h0 hash n) i h =
      let receipt = receipt_of config signing t c h0 hash n in
      let signed = signing.sign_receipt (claims_of config signing t c receipt) in
      elim (Option-cases signed) [
        | inl failed ↦ ground arith
        | inr (token, done) ↦
            let e : confirmed (confirmed_input config signing t c receipt token) ≡ i =
              ground arith in
            subst NamesItsReceipt e refl
      ]

  input_of-NamesItsReceipt :
      (t : ℕ) (c : ReconciliationCandidate) (o : Option ChainObservation)
      (i : ReconciliationResultInput)
      → input_of config signing t c o ≡ ok i
      → NamesItsReceipt i
  input_of-NamesItsReceipt t c none i h =
      let thrown : ◌≡◌ {A = Result StoreError ReconciliationResultInput}
          (err (StoreError.other "observe")) (ok i) =
        h in
      absurd (cc thrown)
  input_of-NamesItsReceipt t c (some o) i h = result_input-NamesItsReceipt t c o i h

  committed :
      (m : Result StoreError (Option SettlementRecord × Ledger)) (db : Ledger)
      (counts : ReconciliationRunResult)
      → ((o : Option SettlementRecord) (db' : Ledger) → m ≡ ok (o, db') → Reach db db')
      → Reach db (count_result config signing m db counts).1
  unfolding count_result
  committed (ok (some r, db')) db counts commits = commits (some r) db' refl
  committed (ok (none, db')) db counts commits = commits none db' refl
  committed (err e) db counts commits = Reach.here

  count_result-Reach :
      (turn : Turn) (c : ReconciliationCandidate) (db : Ledger) (counts : ReconciliationRunResult)
      → Reach db
          (count_result config signing (reconcile_candidate config signing turn c db) db counts).1
  unfolding reconcile_candidate
  count_result-Reach turn c db counts =
      let given = input_of config signing turn.checked_at c (turn.observe c.txid) in
      committed (reconcile_candidate config signing turn c db) db counts λ o db' h.
        let (input, made, applied) =
          >>=-eq-ok given (λ i. apply_reconciliation_result turn.db_now i db) h in
        Reach.then Reach.here (
          Step.reconcile turn.db_now input o
            (input_of-NamesItsReceipt turn.checked_at c (turn.observe c.txid) input made) applied)

  run_candidates-Reach :
      (turns : ℕ → Turn)
      → ((n : ℕ) (d : Ledger) → Reach d ((turns n).others d))
      → (n : ℕ) (cs : List ReconciliationCandidate) (db : Ledger) (counts : ReconciliationRunResult)
      → Reach db (run_candidates config signing (with_turns config signing turns n cs) db counts).1
  unfolding run_candidates
  run_candidates-Reach turns commits n [] db counts = Reach.here
  run_candidates-Reach turns commits n (c ∷ cs) db counts =
      let before = (turns n).others db in
      Reach-trans (Reach-trans (commits n db) (count_result-Reach (turns n) c before counts))
        (run_candidates-Reach turns commits (n + 1) cs _ _)

  length-with_turns :
      (turns : ℕ → Turn) (n : ℕ) (cs : List ReconciliationCandidate)
      → length (with_turns config signing turns n cs) ≡ length cs
  length-with_turns turns n [] = refl
  length-with_turns turns n (c ∷ cs) = ap suc (length-with_turns turns (n + 1) cs)

  -- Whatever the chain, the signer and the other processes do, a run writes to the tables only by
  -- transactions of the store, and it counts every claimed settlement exactly once, as confirmed,
  -- pending, terminal or failed.
  pub run_once_lem :
      (between : Ledger → Ledger) (locked : String → Bool) (db_now claimed_at : ℕ)
      (turns : ℕ → Turn) (db : Ledger)
      → ((d : Ledger) → Reach d (between d))
      → ((n : ℕ) (d : Ledger) → Reach d ((turns n).others d))
      → (let (result, db') = run_once config signing between locked db_now claimed_at turns db in
          Reach db db'
          × (result.claimed ≡ result.confirmed + result.pending + result.terminal + result.errors))
  unfolding run_once
  run_once_lem between locked db_now claimed_at turns db rest commits =
      let limit = config.reconciliation_batch_size in
      let until = claimed_at + config.reconciliation_lease_ms in
      let claimed =
        claim_settlements_for_reconciliation between locked db_now limit claimed_at until db in
      let start : Reach db claimed.1 =
        claim-Reach between locked db_now limit claimed_at until db rest in
      let (counted, same) =
        run_candidates-total (with_turns config signing turns 0 claimed.0) claimed.1 (record {
          claimed = length claimed.0;
          confirmed = 0;
          pending = 0;
          terminal = 0;
          errors = 0;
        }) in
      (
        Reach-trans start (run_candidates-Reach turns commits 0 claimed.0 claimed.1 _),
        omega (arith, counted, same, length-with_turns turns 0 claimed.0),
      )
