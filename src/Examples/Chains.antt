-- ===== src/Examples/Chains.antt =====
-- The theorems on the broadcaster, the chain source and the reconciler, at concrete answers.
use perk_os_nayori_platform.Prelude.{
  ℕ, zero, ◌+◌, ◌-◌, ◌≤◌, ◌<◌, String, ◌≡◌, refl, ◌≢◌, ◌↔◌, true, false, Option, none, some, List,
  [], ◌∷◌, ◌==◌, if◌then◌else◌, ok,
}
use perk_os_nayori_platform.Prelude.{
  ℕ, zero, ◌+◌, ◌-◌, ◌≤◌, String, ◌≡◌, refl, ◌↔◌, true, false, Option, none, some, List, [], ◌∷◌,
  ◌==◌, if◌then◌else◌, ok,
}
use perk_os_nayori_platform.Prelude.Json.{Value, Fields, field, end, string, object, number}
use perk_os_nayori_platform.Broadcast.{answered, rejected, broadcast, is_txid}
use perk_os_nayori_platform.Broadcast.Laws.{broadcast_rejected_iff}
use perk_os_nayori_platform.Prelude.Text.{matches, repeats, strip_prefix, char_length}
use perk_os_nayori_platform.Prelude.Table.{lookup, update}
use perk_os_nayori_platform.Ledger.{Ledger, SettlementRow, find_settlement}
use perk_os_nayori_platform.Ledger.Selecting.{settlement_select, settlement_record}
use perk_os_nayori_platform.Ledger.Claims.{ReconciliationCandidate}
use perk_os_nayori_platform.Ledger.Reconciling.{with_confirmed, confirmed}
use perk_os_nayori_platform.Ledger.StatusLaws.{apply_outcome}
use perk_os_nayori_platform.Ledger.Reach.{Reach}
use perk_os_nayori_platform.Chain.{ChainObservation, Response, observe}
use perk_os_nayori_platform.Chain.Laws.{IsMined, confirmed_iff}
use perk_os_nayori_platform.Reconciler.{
  Config, Signing, Turn, receipt_of, confirmed_input, result_input, reconcile_candidate, run_once,
}
use perk_os_nayori_platform.Reconciler.Runs.{run_once_lem}
use perk_os_nayori_platform.Reconciler.Confirmations.{
  observed_status, IsReceipted, reconcile_candidate_lem,
}
use perk_os_nayori_platform.Examples.Data.{after_reserve, after_lease, leased_settlement, quote_row}
use perk_os_nayori_platform.Examples.Ledgers.{after_lease-IsSound, leased_found}

abbrev txid : String
txid = "0x00000000000000000000000000000000000000000000000000000000000000aa"

abbrev read_text : String → Option Value
read_text received = some (string received)

abbrev of_number : ℕ → String
of_number n = "n"

abbrev keep : ℕ → String → String
keep n s = s

broadcast_rejected_iff_example :
    ((reason : String) × (broadcast (λ s. s) keep read_text of_number (answered 429 txid)
        ≡ rejected reason))
    ↔ ((status : ℕ) × (received : String) × (answered 429 txid ≡ answered status received)
        × (400 ≤ status)
        × (status < 500)
        × (status ≢ 408)
        × (status ≢ 425)
        × (status ≢ 429))
broadcast_rejected_iff_example =
    broadcast_rejected_iff (λ s. s) keep read_text of_number (answered 429 txid)

-- The two bodies, told apart by their one byte.
abbrev decode : List ℕ → Option String
decode (zero ∷ bytes) = some "transaction"
decode _ = some "info"

abbrev block : Fields
block = field "height" (number 7) (field "hash" (string txid) end)

abbrev parse_body : String → Option Value
parse_body s =
    if s == "transaction"
    then some (
        object (
          field "tx_id" (string txid)
            (field "status" (string "success") (field "block" (object block) end))))
    else some (object (field "stacks_tip_height" (number 12) end))

abbrev transaction_response : Response
transaction_response = record { status = 200; body = some ((0 ∷ []) ∷ []) }

abbrev info_response : Response
info_response = record { status = 200; body = some ((1 ∷ []) ∷ []) }

confirmed_iff_example :
    (observe decode parse_body
        (λ s. s)
        keep
        of_number
        6
        txid
        (some transaction_response)
        (some info_response)
      ≡ ChainObservation.confirmed 7 txid 6)
    ↔ ((is_txid txid ≡ true)
        × (tip : ℕ) × IsMined decode parse_body
            (λ s. s)
            keep
            of_number
            txid
            (some transaction_response)
            (some info_response)
            7
            txid
            tip
        × (7 ≤ tip)
        × (6 ≡ tip - 7 + 1)
        × (6 ≤ 6))
confirmed_iff_example =
    confirmed_iff decode parse_body (λ s. s) keep of_number 6 txid (some transaction_response)
      (some info_response) 7 txid 6

abbrev config : Config
config = record {
  reconciliation_interval_ms = 15000;
  delivery_retry_ttl_seconds = 600;
  reconciliation_batch_size = 10;
  reconciliation_lease_ms = 30000;
}

abbrev signing : Signing
signing = record {
  sha256 = λ s. "000000000000000000000000000000000000000000000000000000000000000a";
  receipt_json = λ receipt. "receipt";
  request_json = λ method url body. "request";
  key_id = "key";
  sign_receipt = λ claims. some "token";
}

abbrev turn : Turn
turn = record {
  checked_at = 4000;
  db_now = 4000;
  observe = λ id. some (
      ChainObservation.confirmed 7
        "0x0000000000000000000000000000000000000000000000000000000000000001" 6);
  others = λ db. db;
}

run_once_lem_example :
    (let (result, db') =
        run_once config signing (λ d. d) (λ id. false) 3000 3000 (λ n. turn) after_reserve in
      Reach after_reserve db'
      × (result.claimed ≡ result.confirmed + result.pending + result.terminal + result.errors))
run_once_lem_example =
    run_once_lem config signing (λ d. d) (λ id. false) 3000 3000 (λ n. turn) after_reserve
      (λ d. Reach.here) (λ n d. Reach.here)

abbrev candidate : ReconciliationCandidate
candidate = record {
  settlement = settlement_record leased_settlement quote_row none none;
  audience = "shop";
  request_method = "GET";
  canonical_url = "https://acme.example/a";
  body_hash = "00000000000000000000000000000000000000000000000000000000000000b0";
  asset_id = "usdcx";
  amount_atomic = "100";
  pay_to = "SP1";
}

abbrev after_reconcile : Ledger
after_reconcile =
    with_confirmed 4000
      (confirmed_input config signing 4000 candidate
        (receipt_of config signing 4000 candidate 7
          "0x0000000000000000000000000000000000000000000000000000000000000001" 6)
        "token")
      leased_settlement after_lease

reconcile_refl :
    reconcile_candidate config signing turn candidate after_lease
    ≡ ok (
      settlement_select after_reconcile
          (find_settlement "ns_00000000000000000000000000000001" after_reconcile),
      after_reconcile,
    )
unfolding reconcile_candidate result_input matches repeats strip_prefix char_length lookup update
reconcile_refl =
    apply_outcome 4000
      (confirmed (
        confirmed_input config signing 4000 candidate
          (receipt_of config signing 4000 candidate 7
            "0x0000000000000000000000000000000000000000000000000000000000000001" 6)
          "token"))
      after_lease {s = leased_settlement} after_lease-IsSound leased_found

reconcile_candidate_lem_example :
    (t : SettlementRow) × (find_settlement "ns_00000000000000000000000000000001" after_reconcile
      ≡ some t)
    × (o : ChainObservation) × (turn.observe candidate.txid ≡ some o)
    × (t.status ≡ observed_status o)
    × IsReceipted config signing 4000 candidate o after_reconcile t
reconcile_candidate_lem_example =
    reconcile_candidate_lem config signing turn candidate after_lease after_reconcile _
      after_lease-IsSound leased_found refl reconcile_refl
