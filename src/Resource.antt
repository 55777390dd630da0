-- ===== src/Resource.antt =====
-- The paid resource server (src/paid-resource.ts). The facilitator is an interface; the decoding of
-- headers and the digest of a body are parameters. Of the report, the parts that depend on the
-- payment are modelled.
pub mod Laws
use perk_os_nayori_platform.Prelude.{
  ℕ, String, Bool, true, false, not, ◌&&◌, ◌||◌, Option, none, some, ◌==◌, leb, eqb, if◌then◌else◌,
  Result, ok, err,
}
use perk_os_nayori_platform.Ledger.{SettlementStatus, is_found}
use perk_os_nayori_platform.Settlement.{PublicSettlement, PublicDelivery, is_settlement_id}
use perk_os_nayori_platform.Settlement.Public.{truthy, is_confirmed_status}
use perk_os_nayori_platform.Quoting.{IssuedQuoteResult}
use perk_os_nayori_platform.Facilitator.{FacilitatorClientError, Facilitator}

-- A `PaidResourceError`: its code, status and retry time.
pub record PaidResourceError : Type 0 where
  pub code : String
  pub status : ℕ
  pub retry_after_seconds : Option ℕ

-- What `capabilityReport` takes from the settlement and the delivery.
pub record CapabilityReport : Type 0 where
  pub network : String
  pub settlement_id : String
  pub transaction : String
  pub payer : String
  pub receipt : String

pub data PaidResourceResult : Type 0 where
  pending : PublicSettlement → PaidResourceResult
  delivered : CapabilityReport → PaidResourceResult

abbrev pub error_of : String → ℕ → PaidResourceError
error_of code status = record { code = code; status = status; retry_after_seconds = none }

-- `mapFacilitatorError`
unfoldable pub map_facilitator_error : FacilitatorClientError → PaidResourceError
map_facilitator_error e =
    if eqb e.status 422
    then error_of e.code 402
    else if eqb e.status 429
    then record { code = e.code; status = 429; retry_after_seconds = e.retry_after_seconds }
    else if eqb e.status 400 || eqb e.status 404 || eqb e.status 409
    then error_of e.code e.status
    else error_of "facilitator_unavailable" 503

abbrev pub capability_report : PublicSettlement → String → CapabilityReport
capability_report settlement receipt = record {
  network = settlement.network;
  settlement_id = settlement.settlement_id;
  transaction = settlement.txid;
  payer = settlement.payer;
  receipt = receipt;
}

abbrev is_final_failure : SettlementStatus → Bool
is_final_failure SettlementStatus.failed = true
is_final_failure SettlementStatus.dropped = true
is_final_failure SettlementStatus.reorged = true
is_final_failure _ = false

abbrev reason_or_failed : Option String → String
reason_or_failed none = "settlement_failed"
reason_or_failed (some reason) = reason

-- The header's text is there and not too long.
abbrev pub is_header : ℕ → (String → ℕ) → String → Bool
is_header maximum text_length s = not (s == "") && leb (text_length s) maximum

-- What `createChallenge` takes from the issued quote and the configuration.
pub record PaidResourceChallenge : Type 0 where
  pub url : String
  pub issued : IssuedQuoteResult

abbrev answer_issued :
    {S : Type 0}
    → String
    → Result FacilitatorClientError IssuedQuoteResult × S
    → Result PaidResourceError PaidResourceChallenge × S
answer_issued url (err e, s) = (err (map_facilitator_error e), s)
answer_issued url (ok issued, s) = (ok (record { url = url; issued = issued }), s)

-- `createChallenge` for the resource's URL; `issue_quote` asks the facilitator for a quote of its route.
unfoldable pub create_challenge :
    {S : Type 0}
    → String
    → (S → Result FacilitatorClientError IssuedQuoteResult × S)
    → S
    → Result PaidResourceError PaidResourceChallenge × S
create_challenge url issue_quote s = answer_issued url (issue_quote s)

module _ {S Payment : Type 0} (facilitator : Facilitator S Payment)
    (digest : CapabilityReport → String) where
  abbrev pub Answer : Type 0
  Answer = Result PaidResourceError PaidResourceResult × S

  abbrev answer_completed :
      CapabilityReport → Result FacilitatorClientError PublicDelivery × S → Answer
  answer_completed body (err e, s) = (err (map_facilitator_error e), s)
  answer_completed body (ok d, s) = (ok (delivered body), s)

  abbrev answer_claimed :
      PublicSettlement → Result FacilitatorClientError PublicDelivery × S → Answer
  answer_claimed settlement (err e, s) = (err (map_facilitator_error e), s)
  answer_claimed settlement (ok delivery, s) =
      let body = capability_report settlement delivery.receipt in
      answer_completed body (facilitator.complete_delivery settlement.settlement_id (digest body) s)

  unfoldable pub deliver : PublicSettlement → S → Answer
  deliver settlement s =
      if is_confirmed_status settlement.status && is_found (truthy settlement.receipt)
      then answer_claimed settlement (facilitator.claim_delivery settlement.settlement_id s)
      else (err (error_of "settlement_not_confirmed" 409), s)

  unfoldable pub normalize_settlement : PublicSettlement → S → Answer
  unfolding deliver
  normalize_settlement settlement s =
      if is_confirmed_status settlement.status
      then deliver settlement s
      else if is_final_failure settlement.status
      then (err (error_of (reason_or_failed settlement.failure_reason) 409), s)
      else (ok (pending settlement), s)

  abbrev pub normalize_answer : Result FacilitatorClientError PublicSettlement × S → Answer
  normalize_answer (err e, s) = (err (map_facilitator_error e), s)
  normalize_answer (ok settlement, s) = normalize_settlement settlement s

  abbrev decode_and_settle : Bool → Option Payment → String → S → Answer
  decode_and_settle quote_ok none signed_quote s =
      (err (error_of "invalid_payment_signature" 400), s)
  decode_and_settle quote_ok (some payment) signed_quote s =
      if quote_ok
      then normalize_answer (facilitator.settle payment signed_quote s)
      else (err (error_of "invalid_signed_quote" 400), s)

  -- `submit`, with the length of a text and the decoding of a payment signature
  unfoldable pub submit : (String → ℕ) → (String → Option Payment) → String → String → S → Answer
  unfolding normalize_settlement
  submit text_length decode encoded_payment_signature signed_quote s =
      if is_header 32768 text_length encoded_payment_signature
      then decode_and_settle (is_header 16384 text_length signed_quote)
          (decode encoded_payment_signature) signed_quote s
      else (err (error_of "invalid_payment_signature" 400), s)

  unfoldable pub retrieve : String → S → Answer
  unfolding normalize_settlement
  retrieve settlement_id s =
      if is_settlement_id settlement_id
      then normalize_answer (facilitator.get_settlement settlement_id s)
      else (err (error_of "invalid_settlement_id" 400), s)
