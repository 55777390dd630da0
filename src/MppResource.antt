-- ===== src/MppResource.antt =====
-- The resource server that is paid by MPP (src/mpp-resource.ts). It shares the facilitator's
-- interface with the x402 server, and the parts of the report that depend on the payment; the SDK's
-- challenges, credentials and receipts are parameters, with `none` where the SDK throws.
pub mod Laws
use perk_os_nayori_platform.Prelude.{
  ℕ, String, Bool, true, false, not, ◌&&◌, ◌||◌, Option, none, some, ◌==◌, eqb, if◌then◌else◌,
  Result, ok, err,
}
use perk_os_nayori_platform.Merchant.{Network}
use perk_os_nayori_platform.Ledger.{SettlementStatus, is_found}
use perk_os_nayori_platform.Quoting.{IssuedQuoteResult}
use perk_os_nayori_platform.Signing.{NayoriX402Quote}
use perk_os_nayori_platform.Settlement.{PublicSettlement, PublicDelivery, is_settlement_id}
use perk_os_nayori_platform.Settlement.Public.{truthy, is_confirmed_status}
use perk_os_nayori_platform.Facilitator.{FacilitatorClientError, Facilitator}
use perk_os_nayori_platform.Resource.{CapabilityReport, capability_report, is_header}

-- A `MppResourceError`: its code, status and retry time.
pub record MppResourceError : Type 0 where
  pub code : String
  pub status : ℕ
  pub retry_after_seconds : Option ℕ

-- That error, or what the SDK throws.
pub data MppFailure : Type 0 where
  failed : MppResourceError → MppFailure
  thrown : MppFailure

-- The argument of `createNayoriMppUsdcStacksReceipt`.
pub record MppReceipt : Type 0 where
  pub challenge_id : String
  pub reference : String
  pub network : Network
  pub settled_at : ℕ
  pub external_id : String

pub data MppResourceResult : Type 0 where
  pending : PublicSettlement → MppResourceResult
  delivered : CapabilityReport → String → MppResourceResult

pub record MppResourceChallenge (Challenge : Type 0) : Type 0 where
  pub challenge : Challenge
  pub issued_quote : IssuedQuoteResult

abbrev pub failure : String → ℕ → MppFailure
failure code status = failed (record { code = code; status = status; retry_after_seconds = none })

-- `mapFacilitatorError`
unfoldable pub map_facilitator_error : FacilitatorClientError → MppFailure
map_facilitator_error e =
    if eqb e.status 422
    then failure e.code 402
    else if eqb e.status 429
    then failed
        (record { code = e.code; status = 429; retry_after_seconds = e.retry_after_seconds })
    else if eqb e.status 400 || eqb e.status 404 || eqb e.status 409
    then failure e.code e.status
    else failure "facilitator_unavailable" 503

abbrev is_final_failure : SettlementStatus → Bool
is_final_failure SettlementStatus.failed = true
is_final_failure SettlementStatus.dropped = true
is_final_failure SettlementStatus.reorged = true
is_final_failure _ = false

abbrev reason_or_failed : Option String → String
reason_or_failed none = "settlement_failed"
reason_or_failed (some reason) = reason

-- The receipt that is sent with a delivered report.
abbrev pub receipt_of : Network → PublicSettlement → MppReceipt
receipt_of network settlement = record {
  challenge_id = settlement.quote_id;
  reference = settlement.txid;
  network = network;
  settled_at = settlement.updated_at;
  external_id = settlement.quote_id;
}

module _ {S Credential : Type 0} (facilitator : Facilitator S Credential) (network : Network)
    (digest : CapabilityReport → String) (encode_receipt : MppReceipt → Option String) where
  abbrev pub Answer : Type 0
  Answer = Result MppFailure MppResourceResult × S

  abbrev answer_receipt : CapabilityReport → S → Option String → Answer
  answer_receipt body s none = (err thrown, s)
  answer_receipt body s (some encoded_receipt) = (ok (delivered body encoded_receipt), s)

  abbrev answer_completed :
      PublicSettlement
      → CapabilityReport
      → Result FacilitatorClientError PublicDelivery × S
      → Answer
  answer_completed settlement body (err e, s) = (err (map_facilitator_error e), s)
  answer_completed settlement body (ok d, s) =
      answer_receipt body s (encode_receipt (receipt_of network settlement))

  abbrev answer_claimed :
      PublicSettlement → Result FacilitatorClientError PublicDelivery × S → Answer
  answer_claimed settlement (err e, s) = (err (map_facilitator_error e), s)
  answer_claimed settlement (ok delivery, s) =
      let body = capability_report settlement delivery.receipt in
      answer_completed settlement body
        (facilitator.complete_delivery settlement.settlement_id (digest body) s)

  unfoldable pub deliver : PublicSettlement → S → Answer
  deliver settlement s =
      if is_confirmed_status settlement.status && is_found (truthy settlement.receipt)
      then answer_claimed settlement (facilitator.claim_delivery settlement.settlement_id s)
      else (err (failure "settlement_not_confirmed" 409), s)

  unfoldable pub normalize_settlement : PublicSettlement → S → Answer
  unfolding deliver
  normalize_settlement settlement s =
      if is_confirmed_status settlement.status
      then deliver settlement s
      else if is_final_failure settlement.status
      then (err (failure (reason_or_failed settlement.failure_reason) 409), s)
      else (ok (pending settlement), s)

  abbrev pub normalize_answer : Result FacilitatorClientError PublicSettlement × S → Answer
  normalize_answer (err e, s) = (err (map_facilitator_error e), s)
  normalize_answer (ok settlement, s) = normalize_settlement settlement s

  abbrev decode_and_settle : Bool → Option Credential → String → S → Answer
  decode_and_settle quote_ok none signed_quote s =
      (err (failure "invalid_payment_credential" 402), s)
  decode_and_settle quote_ok (some credential) signed_quote s =
      if quote_ok
      then normalize_answer (facilitator.settle credential signed_quote s)
      else (err (failure "invalid_signed_quote" 400), s)

  -- `submit`, with the length of a text and the decoding of a credential; `settle` of the
  -- facilitator's interface is `settleMpp` here.
  unfoldable pub submit : (String → ℕ) → (String → Option Credential) → String → String → S → Answer
  unfolding normalize_settlement
  submit text_length decode encoded_credential signed_quote s =
      if is_header 32768 text_length encoded_credential
      then decode_and_settle (is_header 16384 text_length signed_quote) (decode encoded_credential)
          signed_quote s
      else (err (failure "invalid_payment_credential" 402), s)

  unfoldable pub retrieve : String → S → Answer
  unfolding normalize_settlement
  retrieve settlement_id s =
      if is_settlement_id settlement_id
      then normalize_answer (facilitator.get_settlement settlement_id s)
      else (err (failure "invalid_settlement_id" 400), s)

module _ {S Challenge : Type 0}
    (issue_quote : S → Result FacilitatorClientError IssuedQuoteResult × S)
    (create : NayoriX402Quote → Option Challenge) where
  abbrev answer_challenge :
      IssuedQuoteResult → Option Challenge → Result MppFailure (MppResourceChallenge Challenge)
  answer_challenge issued none = err thrown
  answer_challenge issued (some challenge) =
      ok (record { challenge = challenge; issued_quote = issued })

  abbrev answer_quote :
      Result FacilitatorClientError IssuedQuoteResult × S
      → Result MppFailure (MppResourceChallenge Challenge) × S
  answer_quote (err e, s) = (err (map_facilitator_error e), s)
  answer_quote (ok issued, s) = (
    if not (issued.quote.payment_asset == "usdcx")
        then err (failure "mpp_route_misconfigured" 503)
        else answer_challenge issued (create issued.quote),
    s,
  )

  -- `createChallenge`: `issue_quote` asks the facilitator for a quote of the MPP route, and `create` is
  -- `createNayoriMppUsdcStacksChallenge` for the resource's host.
  unfoldable pub create_challenge : S → Result MppFailure (MppResourceChallenge Challenge) × S
  create_challenge s = answer_quote (issue_quote s)
