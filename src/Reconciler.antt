-- ===== src/Reconciler.antt =====
-- The reconciliation worker's service (src/reconciliation.ts, `createReconciliationService`). The
-- store's calls are those of Ledger; what the chain source, the signer, SHA-256 and `JSON.stringify`
-- answer are parameters.
pub mod Runs
pub mod Confirmations
use Prim.Native.String
use perk_os_nayori_platform.Prelude.{
  ℕ, ◌+◌, ◌*◌, ◌/◌, String, Bool, Option, none, some, List, [], ◌∷◌, ◌++◌, length, Result, ok, err,
  ◌>>=◌, ◌>>◌,
}
use perk_os_nayori_platform.Ledger.{SettlementStatus, ConfirmationReceiptRecord, Ledger, StoreError}
use perk_os_nayori_platform.Ledger.Selecting.{SettlementRecord}
use perk_os_nayori_platform.Ledger.Claims.{
  ReconciliationCandidate, claim_settlements_for_reconciliation,
}
use perk_os_nayori_platform.Ledger.Reconciling.{
  Terminal, PendingInput, TerminalInput, ConfirmedInput, ReconciliationResultInput,
  apply_reconciliation_result,
}
use perk_os_nayori_platform.Chain.{ChainObservation}

-- The fields of `AppConfig` that the service reads.
pub record Config : Type 0 where
  pub reconciliation_interval_ms : ℕ
  pub delivery_retry_ttl_seconds : ℕ
  pub reconciliation_batch_size : ℕ
  pub reconciliation_lease_ms : ℕ

-- `version` is always 1, and `confirmed_at` is the instant that `toISOString` prints.
pub record SettlementReceipt : Type 0 where
  pub receipt_id : String
  pub settlement_id : String
  pub quote_id : String
  pub merchant_id : String
  pub network : String
  pub asset : String
  pub amount : String
  pub pay_to : String
  pub payer : String
  pub txid : String
  pub block_height : ℕ
  pub block_hash : String
  pub confirmations : ℕ
  pub confirmed_at : ℕ

-- The argument of `signReceipt`.
pub record ReceiptClaims : Type 0 where
  pub merchant_id : String
  pub audience : String
  pub receipt_id : String
  pub issued_at : ℕ
  pub receipt : SettlementReceipt

-- `value.slice(3)`
abbrev pub slice_3 : String → String
slice_3 (String.◌∷◌ a (String.◌∷◌ b (String.◌∷◌ c s))) = s
slice_3 _ = ""

-- `deterministicId`
abbrev pub deterministic_id : String → String → String
deterministic_id prefix settlement_id = String.◌++◌ prefix (String.◌++◌ "_" (slice_3 settlement_id))

-- What the service calls: `sha256`, `JSON.stringify` of a receipt and of a request, the signer's
-- key id, and `signReceipt`, with `none` for an error.
pub record Signing : Type 0 where
  pub sha256 : String → String
  pub receipt_json : SettlementReceipt → String
  pub request_json : String → String → String → String
  pub key_id : String
  pub sign_receipt : ReceiptClaims → Option String

pub record ReconciliationRunResult : Type 0 where
  pub claimed : ℕ
  pub confirmed : ℕ
  pub pending : ℕ
  pub terminal : ℕ
  pub errors : ℕ

-- What a turn of the loop meets: the clock readings, the chain's word for each transaction,
-- with `none` where `observe` throws, and what other processes commit before the store is called.
pub record Turn : Type 0 where
  pub checked_at : ℕ
  pub db_now : ℕ
  pub observe : String → Option ChainObservation
  pub others : Ledger → Ledger

module _ (config : Config) (signing : Signing) where
  unfoldable pub request_digest : ReconciliationCandidate → String
  request_digest candidate =
      signing.sha256
        (signing.request_json candidate.request_method candidate.canonical_url candidate.body_hash)

  abbrev pub receipt_of : ℕ → ReconciliationCandidate → ℕ → String → ℕ → SettlementReceipt
  receipt_of checked_at candidate block_height block_hash confirmations = record {
    receipt_id = deterministic_id "nr" candidate.settlement_id;
    settlement_id = candidate.settlement_id;
    quote_id = candidate.quote_id;
    merchant_id = candidate.merchant_id;
    network = candidate.network;
    asset = candidate.asset_id;
    amount = candidate.amount_atomic;
    pay_to = candidate.pay_to;
    payer = candidate.payer;
    txid = candidate.txid;
    block_height = block_height;
    block_hash = block_hash;
    confirmations = confirmations;
    confirmed_at = checked_at;
  }

  abbrev pub claims_of : ℕ → ReconciliationCandidate → SettlementReceipt → ReceiptClaims
  claims_of checked_at candidate receipt = record {
    merchant_id = candidate.merchant_id;
    audience = candidate.audience;
    receipt_id = receipt.receipt_id;
    issued_at = checked_at / 1000;
    receipt = receipt;
  }

  abbrev pub pending_input : ℕ → ReconciliationCandidate → String → ReconciliationResultInput
  pending_input checked_at candidate reason = ReconciliationResultInput.pending (record {
    settlement_id = candidate.settlement_id;
    checked_at = checked_at;
    retry_at = checked_at + config.reconciliation_interval_ms;
    reason_code = reason;
  })

  abbrev pub confirmed_input :
      ℕ → ReconciliationCandidate → SettlementReceipt → String → ConfirmedInput
  confirmed_input checked_at candidate receipt signed_token = record {
    settlement_id = candidate.settlement_id;
    checked_at = checked_at;
    block_height = receipt.block_height;
    block_hash = receipt.block_hash;
    confirmations = receipt.confirmations;
    receipt = record {
      receipt_id = receipt.receipt_id;
      settlement_id = candidate.settlement_id;
      key_id = signing.key_id;
      payload_hash = signing.sha256 (signing.receipt_json receipt);
      token_hash = signing.sha256 signed_token;
      signed_token = signed_token;
      issued_at = checked_at;
    };
    delivery_id = deterministic_id "nd" candidate.settlement_id;
    request_digest = request_digest candidate;
    delivery_retry_expires_at = checked_at + config.delivery_retry_ttl_seconds * 1000;
  }

  abbrev confirm_input :
      ℕ
      → ReconciliationCandidate
      → SettlementReceipt
      → Option String
      → Result StoreError ReconciliationResultInput
  confirm_input checked_at candidate receipt none = err (StoreError.other "signReceipt")
  confirm_input checked_at candidate receipt (some signed_token) = ok (
      ReconciliationResultInput.confirmed
        (confirmed_input checked_at candidate receipt signed_token))

  -- The argument that `reconcileCandidate` gives to the store.
  unfoldable pub result_input :
      ℕ → ReconciliationCandidate → ChainObservation → Result StoreError ReconciliationResultInput
  unfolding request_digest
  result_input checked_at candidate (ChainObservation.pending reason) =
      ok (pending_input checked_at candidate reason)
  result_input checked_at candidate (ChainObservation.ambiguous reason) =
      ok (pending_input checked_at candidate reason)
  result_input checked_at candidate (ChainObservation.terminal status reason) = ok (
      ReconciliationResultInput.terminal (record {
        settlement_id = candidate.settlement_id;
        checked_at = checked_at;
        status = status;
        reason_code = reason;
      }))
  result_input checked_at candidate (ChainObservation.confirmed height hash confirmations) =
      let receipt = receipt_of checked_at candidate height hash confirmations in
      confirm_input checked_at candidate receipt
        (signing.sign_receipt (claims_of checked_at candidate receipt))

  abbrev pub input_of :
      ℕ
      → ReconciliationCandidate
      → Option ChainObservation
      → Result StoreError ReconciliationResultInput
  input_of checked_at candidate none = err (StoreError.other "observe")
  input_of checked_at candidate (some observation) = result_input checked_at candidate observation

  -- `reconcileCandidate`
  unfoldable pub reconcile_candidate :
      Turn → ReconciliationCandidate → Ledger → Result StoreError (Option SettlementRecord × Ledger)
  reconcile_candidate turn candidate db = do
    input ← input_of turn.checked_at candidate (turn.observe candidate.txid)
    apply_reconciliation_result turn.db_now input db

  abbrev count_status : SettlementStatus → ReconciliationRunResult → ReconciliationRunResult
  count_status SettlementStatus.confirmed c = record c { confirmed = c.confirmed + 1 }
  count_status SettlementStatus.failed c = record c { terminal = c.terminal + 1 }
  count_status SettlementStatus.dropped c = record c { terminal = c.terminal + 1 }
  count_status _ c = record c { pending = c.pending + 1 }

  abbrev count_error : ReconciliationRunResult → ReconciliationRunResult
  count_error c = record c { errors = c.errors + 1 }

  -- `result.status` of a missing row is a TypeError inside the `try`.
  unfoldable pub count_result :
      Result StoreError (Option SettlementRecord × Ledger)
      → Ledger
      → ReconciliationRunResult
      → ReconciliationRunResult × Ledger
  count_result (ok (some r, db')) db counts = (count_status r.status counts, db')
  count_result (ok (none, db')) db counts = (count_error counts, db')
  count_result (err e) db counts = (count_error counts, db)

  -- The loop of `runOnce`.
  unfoldable pub run_candidates :
      List (Turn × ReconciliationCandidate)
      → Ledger
      → ReconciliationRunResult
      → ReconciliationRunResult × Ledger
  unfolding reconcile_candidate count_result
  run_candidates [] db counts = (counts, db)
  run_candidates ((turn, candidate) ∷ rest) db counts =
      let before = turn.others db in
      let (counts', db') = count_result (reconcile_candidate turn candidate before) before counts in
      run_candidates rest db' counts'

  abbrev pub with_turns :
      (ℕ → Turn) → ℕ → List ReconciliationCandidate → List (Turn × ReconciliationCandidate)
  with_turns turns n [] = []
  with_turns turns n (c ∷ cs) = (turns n, c) ∷ with_turns turns (n + 1) cs

  -- `runOnce`, with the transactions that commit between the two statements of the claim, and the locks
  -- that it meets.
  unfoldable pub run_once :
      (Ledger → Ledger)
      → (String → Bool)
      → ℕ
      → ℕ
      → (ℕ → Turn)
      → Ledger
      → ReconciliationRunResult × Ledger
  unfolding run_candidates
  run_once between locked db_now claimed_at turns db =
      let (candidates, db') =
        claim_settlements_for_reconciliation between locked db_now config.reconciliation_batch_size
          claimed_at (claimed_at + config.reconciliation_lease_ms) db in
      run_candidates (with_turns turns 0 candidates) db' (record {
        claimed = length candidates;
        confirmed = 0;
        pending = 0;
        terminal = 0;
        errors = 0;
      })
