-- ===== src/Facilitator.antt =====
-- The client of the facilitator (src/facilitator-client.ts), and the interface that the resource
-- servers take. `fetch` and the parsing of the answers' bodies are parameters.
use perk_os_nayori_platform.Prelude.{
  ℕ, String, Bool, ◌&&◌, ◌||◌, Option, none, some, leb, eqb, if◌then◌else◌, Result, ok, err,
}
use perk_os_nayori_platform.Prelude.Json.{Value, as_record, property, as_text}
use perk_os_nayori_platform.Settlement.{PublicSettlement, PublicDelivery}
use perk_os_nayori_platform.Broadcast.{is_ok}

-- A `FacilitatorClientError`: its code, status and retry time.
pub record FacilitatorClientError : Type 0 where
  pub code : String
  pub status : ℕ
  pub retry_after_seconds : Option ℕ

-- How a request ended: without an answer, or with a status, a body that may not be JSON, and the
-- whole number that `parseInt` reads in the `retry-after` header.
pub data Answered : Type 0 where
  unreachable : Answered
  response : ℕ → Option Value → Option ℕ → Answered

abbrev text_or : String → Option String → String
text_or otherwise none = otherwise
text_or otherwise (some s) = s

-- The code of `safeError`
unfoldable pub safe_error_code : Value → String
safe_error_code body =
    text_or "facilitator_error"
      (as_text (property "code" (as_record (property "error" (as_record (some body))))))

-- `errorStatus`
abbrev is_passed_on : ℕ → Bool
is_passed_on status =
    eqb status 400
    || eqb status 401
    || eqb status 403
    || eqb status 404
    || eqb status 409
    || eqb status 422
    || eqb status 429

unfoldable pub error_status : ℕ → ℕ
error_status status = if is_passed_on status then status else (if leb 500 status then 503 else 502)

abbrev positive : Option ℕ → Option ℕ
positive none = none
positive (some n) = if leb 1 n && leb n 9007199254740991 then some n else none

-- `request`, with the body of a good answer
unfoldable pub request : Answered → Result FacilitatorClientError Value
unfolding safe_error_code error_status
request unreachable =
    err (record { code = "facilitator_unavailable"; status = 503; retry_after_seconds = none })
request (response status none retry) =
    err (record { code = "invalid_facilitator_response"; status = 502; retry_after_seconds = none })
request (response status (some body) retry) =
    if is_ok status
    then ok body
    else err (record {
      code = safe_error_code body;
      status = error_status status;
      retry_after_seconds = positive retry;
    })

-- What a resource server asks of the facilitator, which keeps a state of its own: a payment is
-- settled with its signed quote.
pub record Facilitator (S Payment : Type 0) : Type 0 where
  pub settle : Payment → String → S → Result FacilitatorClientError PublicSettlement × S
  pub get_settlement : String → S → Result FacilitatorClientError PublicSettlement × S
  pub claim_delivery : String → S → Result FacilitatorClientError PublicDelivery × S
  pub complete_delivery : String → String → S → Result FacilitatorClientError PublicDelivery × S
