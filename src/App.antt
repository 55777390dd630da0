-- ===== src/App.antt =====
-- The HTTP routes (src/app.ts): how the results and errors of the services become responses. The
-- routes of the settlement service are here, those of the paid resources in App/Resources.antt, and
-- those of OAuth and quotes in App/Partners.antt. Of a response the status, the two headers that
-- depend on an error, and the body are modelled; a body that is no JSON is `none`.
pub mod Resources
pub mod Partners
pub mod Laws
pub mod Paying
pub mod Served
pub mod Delivering
pub mod Recorded
use Prim.Native.String
use perk_os_nayori_platform.Prelude.{
  ℕ, ◌/◌, String, Bool, true, false, ◌||◌, Option, none, some, [], ◌∷◌, ◌++◌, ◌==◌, eqb,
  if◌then◌else◌, ok, err,
}
use perk_os_nayori_platform.Prelude.Json.{Value, Fields, find_field, as_text}
use perk_os_nayori_platform.Ledger.{SettlementStatus}
use perk_os_nayori_platform.Oauth.{has_only, checked_text}
use perk_os_nayori_platform.Settlement.{
  Failure, service, thrown, PublicSettlement, PublicDelivery, SettlementResult, PaymentVerification,
  Config, Services, Moments, World, Answer, is_response_digest,
}
use perk_os_nayori_platform.Settlement.Validation.{verify_payment, verify_mpp}
use perk_os_nayori_platform.Settlement.Settling.{settle, settle_mpp}
use perk_os_nayori_platform.Settlement.Serving.{get, claim, complete}

-- A JSON body: what a service answered, or `errorBody` with a code.
pub data Body (A : Type 0) : Type 0 where
  value : A → Body A
  error : String → Body A

pub record Response (A : Type 0) : Type 0 where
  pub status : ℕ
  pub www_authenticate : Option String
  pub retry_after : Option ℕ
  pub body : Body A

-- What the routes read of `AppConfig`.
pub record AppConfig : Type 0 where
  pub oauth_enabled : Bool
  pub oauth_resource_origin : String

abbrev pub plain : {A : Type 0} → ℕ → Body A → Response A
plain status body = record {
  status = status;
  www_authenticate = none;
  retry_after = none;
  body = body;
}

abbrev scope_error : Option String → String
scope_error none = ""
scope_error (some scope) =
    String.◌++◌ ", error=\"insufficient_scope\", scope=\"" (String.◌++◌ scope "\"")

unfoldable pub bearer_challenge : AppConfig → String → Option String → String
bearer_challenge config realm scope =
    let metadata =
      if config.oauth_enabled
      then String.◌++◌ ", resource_metadata=\""
          (String.◌++◌ config.oauth_resource_origin "/.well-known/oauth-protected-resource\"")
      else "" in
    String.◌++◌ "Bearer realm=\""
      (String.◌++◌ realm (String.◌++◌ "\"" (String.◌++◌ metadata (scope_error scope))))

-- A number that JavaScript takes for true.
abbrev pub nonzero : Option ℕ → Option ℕ
nonzero none = none
nonzero (some n) = if eqb n 0 then none else some n

-- The answer to a `SettlementServiceError`, and `app.onError` for any other error.
unfoldable pub failure_response : {A : Type 0} → AppConfig → String → String → Failure → Response A
unfolding bearer_challenge
failure_response config realm scope (thrown message) = plain 500 (error "internal_error")
failure_response config realm scope (service code status retry_after) =
    let lacks_scope = code == "insufficient_scope" in
    record {
      status = status;
      www_authenticate =
          if eqb status 401 || lacks_scope
          then some (bearer_challenge config realm (if lacks_scope then some scope else none))
          else none;
      retry_after = if eqb status 429 then nonzero retry_after else none;
      body = error code;
    }

abbrev pub is_failed : SettlementStatus → Bool
is_failed SettlementStatus.failed = true
is_failed _ = false

-- `result.settlement.status === "failed" ? 422 : 202`
abbrev pub settle_status : SettlementResult → ℕ
settle_status r = if is_failed r.settlement.status then 422 else 202

abbrev invalid_json : {A : Type 0} → World → Response A × World
invalid_json w = (plain 400 (error "invalid_request"), w)

-- The digest of a completion's body.
abbrev digest_of : Option Value → Option String
digest_of (some (Value.object fs)) =
    if has_only ("responseDigest" ∷ []) fs
    then checked_text is_response_digest (find_field "responseDigest" fs)
    else none
digest_of _ = none

module _ (app : AppConfig) (config : Config) (services : Services) where
  abbrev respond : {A : Type 0} → String → String → (A → ℕ) → Answer A → Response A × World
  respond realm scope status (err e, w) = (failure_response app realm scope e, w)
  respond realm scope status (ok a, w) = (plain (status a) (value a), w)

  -- `POST /v1/x402/verify` and `POST /v1/mpp/verify`
  unfoldable pub verify_route :
      Moments → Option String → Option Value → World → Response PaymentVerification × World
  verify_route m authorization none w = invalid_json w
  verify_route m authorization (some input) w =
      respond "nayori-settlement" "payments:verify" (λ r. 200)
        (verify_payment config services m authorization input w)

  unfoldable pub verify_mpp_route :
      Moments → Option String → Option Value → World → Response PaymentVerification × World
  verify_mpp_route m authorization none w = invalid_json w
  verify_mpp_route m authorization (some input) w =
      respond "nayori-settlement" "payments:verify" (λ r. 200)
        (verify_mpp config services m authorization input w)

  -- `POST /v1/x402/settle` and `POST /v1/mpp/settle`
  unfoldable pub settle_route :
      Moments → Option String → Option Value → World → Response SettlementResult × World
  settle_route m authorization none w = invalid_json w
  settle_route m authorization (some input) w =
      respond "nayori-settlement" "payments:settle" settle_status
        (settle config services m authorization input w)

  unfoldable pub settle_mpp_route :
      Moments → Option String → Option Value → World → Response SettlementResult × World
  settle_mpp_route m authorization none w = invalid_json w
  settle_mpp_route m authorization (some input) w =
      respond "nayori-settlement" "payments:settle" settle_status
        (settle_mpp config services m authorization input w)

  -- `GET /v1/x402/settlements/:id`
  unfoldable pub get_route :
      Moments → Option String → String → World → Response PublicSettlement × World
  get_route m authorization id w =
      respond "nayori-settlement" "payments:read" (λ r. 200)
        (get config services m authorization id w)

  -- `POST /v1/x402/settlements/:id/delivery/claim`
  unfoldable pub claim_route :
      Moments → Option String → String → World → Response PublicDelivery × World
  claim_route m authorization id w =
      respond "nayori-settlement" "payments:read" (λ r. 200)
        (claim config services m authorization id w)

  abbrev complete_with :
      Moments → Option String → String → Option String → World → Response PublicDelivery × World
  complete_with m authorization id none w = invalid_json w
  complete_with m authorization id (some digest) w =
      respond "nayori-settlement" "payments:settle" (λ r. 200)
        (complete config services m authorization id digest w)

  -- `POST /v1/x402/settlements/:id/delivery/complete`
  unfoldable pub complete_route :
      Moments → Option String → String → Option Value → World → Response PublicDelivery × World
  unfolding has_only
  complete_route m authorization id input w = complete_with m authorization id (digest_of input) w
