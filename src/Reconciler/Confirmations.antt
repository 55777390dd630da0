-- ===== src/Reconciler/Confirmations.antt =====
-- When the worker confirms a settlement, and what it then stores (src/reconciliation.ts).
use perk_os_nayori_platform.Prelude.{
  ℕ, ◌/◌, String, ◌≡◌, refl, sym, ap, ◌∙◌, inl, inr, true, Option, some, arith, eq_refl,
  Option-cases, Result, ok, err, >>=-eq-ok,
}
use perk_os_nayori_platform.Prelude.Table.{lookup}
use perk_os_nayori_platform.Ledger.{
  StoreError, Ledger, ConfirmationReceiptRecord, SettlementRow, SettlementStatus, find_settlement,
  find_receipt, is_open,
}
use perk_os_nayori_platform.Ledger.Selecting.{SettlementRecord}
use perk_os_nayori_platform.Ledger.Claims.{ReconciliationCandidate}
use perk_os_nayori_platform.Ledger.Reconciling.{
  ReconciliationResultInput, terminal_status, pending, terminal, confirmed, input_settlement_id,
  apply_reconciliation_result, pending_row, terminal_row, confirmed_row,
}
use perk_os_nayori_platform.Ledger.Invariant.{IsSound}
use perk_os_nayori_platform.Ledger.Invariant.Moving.{
  with_pending-Moves, with_terminal-Moves, with_confirmed-Moves,
}
use perk_os_nayori_platform.Ledger.StatusLaws.{after_observation, apply_outcome}
use perk_os_nayori_platform.Ledger.Reach.{NamesItsReceipt}
use perk_os_nayori_platform.Chain.{ChainObservation}
use perk_os_nayori_platform.Reconciler.{
  Config, Signing, Turn, ReceiptClaims, result_input, input_of, receipt_of, claims_of,
  confirmed_input, pending_input, reconcile_candidate,
}

applied :
    (db_now : ℕ) (input : ReconciliationResultInput) (db db' : Ledger) {s : SettlementRow}
    (r : Option SettlementRecord)
    → IsSound db
    → find_settlement (input_settlement_id input) db ≡ some s
    → is_open s.status ≡ true
    → apply_reconciliation_result db_now input db ≡ ok (r, db')
    → db' ≡ after_observation db_now input s db
applied db_now input db db' {s} r sound found opened h =
    ground (arith, apply_outcome db_now input db sound found)

abbrev pub row_after : ℕ → ReconciliationResultInput → SettlementRow → SettlementRow
row_after db_now (pending i) s = pending_row db_now i s
row_after db_now (terminal i) s = terminal_row db_now i s
row_after db_now (confirmed i) s = confirmed_row db_now i s

found_after :
    (db_now : ℕ) (input : ReconciliationResultInput) (db : Ledger) {s : SettlementRow}
    → IsSound db
    → NamesItsReceipt input
    → find_settlement (input_settlement_id input) db ≡ some s
    → is_open s.status ≡ true
    → find_settlement (input_settlement_id input) (after_observation db_now input s db)
      ≡ some (row_after db_now input s)
found_after db_now (pending i) db {s} sound named found opened = ground (
  arith,
  (with_pending-Moves db_now i sound found opened).settlement i.settlement_id,
  eq_refl i.settlement_id,
)
found_after db_now (terminal i) db {s} sound named found opened = ground (
  arith,
  (with_terminal-Moves db_now i sound found opened).settlement i.settlement_id,
  eq_refl i.settlement_id,
)
found_after db_now (confirmed i) db {s} sound named found opened = ground (
  arith,
  (with_confirmed-Moves db_now i sound found opened named).settlement i.settlement_id,
  eq_refl i.settlement_id,
)

-- What an observation makes of an open settlement's status.
abbrev pub observed_status : ChainObservation → SettlementStatus
observed_status (ChainObservation.pending reason) = SettlementStatus.pending
observed_status (ChainObservation.ambiguous reason) = SettlementStatus.pending
observed_status (ChainObservation.terminal status reason) = terminal_status status
observed_status (ChainObservation.confirmed height hash n) = SettlementStatus.confirmed

module _ (config : Config) (signing : Signing) where
  -- The claims are those of a receipt for the candidate's own payment and the block that was
  -- observed.
  pub record IsClaimed (checked_at : ℕ) (c : ReconciliationCandidate) (height : ℕ) (hash : String)
      (n : ℕ) (claims : ReceiptClaims) : Type 0 where
    pub merchant : claims.merchant_id ≡ c.merchant_id
    pub audience : claims.audience ≡ c.audience
    pub its_id : claims.receipt_id ≡ claims.receipt.receipt_id
    pub issued : claims.issued_at ≡ checked_at / 1000
    pub settlement : claims.receipt.settlement_id ≡ c.settlement_id
    pub quote : claims.receipt.quote_id ≡ c.quote_id
    pub same_merchant : claims.receipt.merchant_id ≡ c.merchant_id
    pub network : claims.receipt.network ≡ c.network
    pub asset : claims.receipt.asset ≡ c.asset_id
    pub amount : claims.receipt.amount ≡ c.amount_atomic
    pub payee : claims.receipt.pay_to ≡ c.pay_to
    pub payer : claims.receipt.payer ≡ c.payer
    pub transaction : claims.receipt.txid ≡ c.txid
    pub block_height : claims.receipt.block_height ≡ height
    pub block_hash : claims.receipt.block_hash ≡ hash
    pub depth : claims.receipt.confirmations ≡ n
    pub confirmed_at : claims.receipt.confirmed_at ≡ checked_at

  claims_of-IsClaimed :
      (t : ℕ) (c : ReconciliationCandidate) (height : ℕ) (hash : String) (n : ℕ)
      → IsClaimed t c height hash n
          (claims_of config signing t c (receipt_of config signing t c height hash n))
  claims_of-IsClaimed t c height hash n = record {
    merchant = refl;
    audience = refl;
    its_id = refl;
    issued = refl;
    settlement = refl;
    quote = refl;
    same_merchant = refl;
    network = refl;
    asset = refl;
    amount = refl;
    payee = refl;
    payer = refl;
    transaction = refl;
    block_height = refl;
    block_hash = refl;
    depth = refl;
    confirmed_at = refl;
  }

  -- The stored receipt holds the token that was signed, and the hashes of the token and of what it
  -- says.
  pub record IsStoredReceipt (checked_at : ℕ) (claims : ReceiptClaims) (token : String)
      (r : ConfirmationReceiptRecord) : Type 0 where
    pub its_id : r.receipt_id ≡ claims.receipt_id
    pub settlement : r.settlement_id ≡ claims.receipt.settlement_id
    pub signed_token : r.signed_token ≡ token
    pub token_hash : r.token_hash ≡ signing.sha256 token
    pub payload_hash : r.payload_hash ≡ signing.sha256 (signing.receipt_json claims.receipt)
    pub key : r.key_id ≡ signing.key_id
    pub issued : r.issued_at ≡ checked_at

  stored-IsStoredReceipt :
      (t : ℕ) (c : ReconciliationCandidate) (height : ℕ) (hash : String) (n : ℕ) (token : String)
      → IsStoredReceipt t
          (claims_of config signing t c (receipt_of config signing t c height hash n))
          token
          (confirmed_input config signing t c
            (receipt_of config signing t c height hash n)
            token).receipt
  stored-IsStoredReceipt t c height hash n token = record {
    its_id = refl;
    settlement = refl;
    signed_token = refl;
    token_hash = refl;
    payload_hash = refl;
    key = refl;
    issued = refl;
  }

  -- What is stored with a confirmation: the receipt that was signed for the candidate's own payment
  -- and the block that was observed, and that block.
  abbrev pub IsReceipted :
      ℕ → ReconciliationCandidate → ChainObservation → Ledger → SettlementRow → Type 0
  IsReceipted checked_at c (ChainObservation.confirmed height hash n) db t =
      (claims : ReceiptClaims) × (token : String) × (r : ConfirmationReceiptRecord) × IsClaimed
        checked_at c height hash n claims
      × (signing.sign_receipt claims ≡ some token)
      × IsStoredReceipt checked_at claims token r
      × (find_receipt c.settlement_id db ≡ some r)
      × (t.confirmed_block_height ≡ some height)
      × (t.confirmed_block_hash ≡ some hash)
  IsReceipted checked_at c _ db t = Unit

  by_observation :
      (t db_now : ℕ) (c : ReconciliationCandidate) (db db' : Ledger) {s : SettlementRow}
      (r : Option SettlementRecord) (o : ChainObservation) (input : ReconciliationResultInput)
      → result_input config signing t c o ≡ ok input
      → IsSound db
      → find_settlement c.settlement_id db ≡ some s
      → is_open s.status ≡ true
      → apply_reconciliation_result db_now input db ≡ ok (r, db')
      → (row : SettlementRow) × (find_settlement c.settlement_id db' ≡ some row)
        × (row.status ≡ observed_status o)
        × IsReceipted t c o db' row
  unfolding result_input lookup
  by_observation t db_now c db db' {s} r (ChainObservation.pending reason) input made sound found
        opened done =
      let mine : ReconciliationResultInput = pending_input config signing t c reason in
      let e = applied db_now mine db db' r sound found opened (ground (arith)) in
      (row_after db_now mine s, rw e (found_after db_now mine db sound tt found opened), refl, tt)
  by_observation t db_now c db db' {s} r (ChainObservation.ambiguous reason) input made sound found
        opened done =
      let mine : ReconciliationResultInput = pending_input config signing t c reason in
      let e = applied db_now mine db db' r sound found opened (ground (arith)) in
      (row_after db_now mine s, rw e (found_after db_now mine db sound tt found opened), refl, tt)
  by_observation t db_now c db db' {s} r (ChainObservation.terminal st reason) input made sound
        found opened done =
      let mine : ReconciliationResultInput = terminal (record {
        settlement_id = c.settlement_id;
        checked_at = t;
        status = st;
        reason_code = reason;
      }) in
      let e = applied db_now mine db db' r sound found opened (ground (arith)) in
      (row_after db_now mine s, rw e (found_after db_now mine db sound tt found opened), refl, tt)
  by_observation t db_now c db db' {s} r (ChainObservation.confirmed height hash n) input made sound
        found opened done =
      let receipt = receipt_of config signing t c height hash n in
      elim (Option-cases (signing.sign_receipt (claims_of config signing t c receipt))) [
        | inl failed ↦ ground arith
        | inr (token, signed) ↦
            let i = confirmed_input config signing t c receipt token in
            let e = applied db_now (confirmed i) db db' r sound found opened (ground arith) in
            (
              confirmed_row db_now i s,
              rw e (found_after db_now (confirmed i) db sound refl found opened),
              refl,
              (
                claims_of config signing t c receipt,
                token,
                i.receipt,
                claims_of-IsClaimed t c height hash n,
                signed,
                stored-IsStoredReceipt t c height hash n token,
                rw e (ground (arith, eq_refl c.settlement_id)),
                refl,
                refl,
              ),
            )
      ]

  -- An open settlement that the worker looks at takes the status that the observation names, and
  -- is confirmed in no other case. With a confirmation the tables hold a receipt with the token
  -- that was signed for the candidate's settlement, payer, payee, asset, amount and transaction, and
  -- the block that was observed.
  pub reconcile_candidate_lem :
      (turn : Turn) (c : ReconciliationCandidate) (db db' : Ledger) {s : SettlementRow}
      (r : Option SettlementRecord)
      → IsSound db
      → find_settlement c.settlement_id db ≡ some s
      → is_open s.status ≡ true
      → reconcile_candidate config signing turn c db ≡ ok (r, db')
      → (t : SettlementRow) × (find_settlement c.settlement_id db' ≡ some t)
        × (o : ChainObservation) × (turn.observe c.txid ≡ some o)
        × (t.status ≡ observed_status o)
        × IsReceipted turn.checked_at c o db' t
  unfolding reconcile_candidate
  reconcile_candidate_lem turn c db db' {s} r sound found opened h =
      let given = input_of config signing turn.checked_at c (turn.observe c.txid) in
      let (input, made, done) =
        >>=-eq-ok given (λ i. apply_reconciliation_result turn.db_now i db) h in
      elim (Option-cases (turn.observe c.txid)) [
        | inl thrown ↦
            let refused : ◌≡◌ {A = Result StoreError ReconciliationResultInput}
                (err (StoreError.other "observe")) (ok input) =
              ap (input_of config signing turn.checked_at c) (sym thrown) ∙ made in
            absurd (cc refused)
        | inr (o, observed) ↦
            let (t, there, status, receipted) =
              by_observation turn.checked_at turn.db_now c db db' r o input
                (ap (input_of config signing turn.checked_at c) (sym observed) ∙ made) sound found
                opened done in
            (t, there, o, observed, status, receipted)
      ]
