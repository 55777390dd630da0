-- ===== src/App/Resources.antt =====
-- `GET /v1` and `GET /mpp/v1` (src/app.ts): a request for a paid resource is a submission, a poll or
-- the first one, which gets a challenge. `encodeURIComponent` is a parameter.
use Prim.Native.String
use perk_os_nayori_platform.Prelude.{
  ℕ, String, true, false, not, ◌&&◌, Option, none, some, List, [], ◌∷◌, ◌==◌, eqb, if◌then◌else◌,
  any, Result, ok, err,
}
use perk_os_nayori_platform.Ledger.{is_found}
use perk_os_nayori_platform.Settlement.{PublicSettlement}
use perk_os_nayori_platform.Settlement.Public.{truthy}
use perk_os_nayori_platform.Resource.{
  CapabilityReport, PaidResourceError, PaidResourceResult, PaidResourceChallenge, error_of, submit,
  retrieve, create_challenge,
}
use perk_os_nayori_platform.Quoting.{IssuedQuoteResult}
use perk_os_nayori_platform.Facilitator.{FacilitatorClientError, Facilitator}
use perk_os_nayori_platform.MppResource.{MppFailure, failed, thrown, MppResourceResult, failure}
use perk_os_nayori_platform.App.{nonzero}

-- `PaidResourceService` and `MppResourceService`
pub record PaidResourceService (S Challenge : Type 0) : Type 0 where
  pub create_challenge : S → Result PaidResourceError Challenge × S
  pub submit : String → String → S → Result PaidResourceError PaidResourceResult × S
  pub retrieve : String → S → Result PaidResourceError PaidResourceResult × S

pub record MppResourceService (S Challenge : Type 0) : Type 0 where
  pub create_challenge : S → Result MppFailure Challenge × S
  pub submit : String → String → S → Result MppFailure MppResourceResult × S
  pub retrieve : String → S → Result MppFailure MppResourceResult × S

-- An error with its status, code and retry time; the 402 of a challenge, which may come with an
-- error's code; the 202 with the place to poll; or the 200 with the report and, for MPP, the receipt.
pub data ResourceResponse (Challenge : Type 0) : Type 0 where
  rejected : ℕ → String → Option ℕ → ResourceResponse Challenge
  challenged : Option String → Challenge → ResourceResponse Challenge
  polling : String → PublicSettlement → ResourceResponse Challenge
  reported : CapabilityReport → Option String → ResourceResponse Challenge

abbrev pub status_of : {Challenge : Type 0} → ResourceResponse Challenge → ℕ
status_of (rejected status code retry) = status
status_of (challenged code challenge) = 402
status_of (polling location settlement) = 202
status_of (reported body receipt) = 200

-- The headers and the query of a request, the query in order.
pub record ResourceRequest : Type 0 where
  pub query : List (String × String)
  pub payment : Option String
  pub signed_quote : Option String

-- `search.getAll("settlement")`
abbrev pub settlement_values : List (String × String) → List String
settlement_values [] = []
settlement_values ((key, v) ∷ rest) = elim (key == "settlement") [
  | true ↦ v ∷ settlement_values rest
  | false ↦ settlement_values rest
]

abbrev one_settlement : List String → Option (Option String)
one_settlement [] = some none
one_settlement (v ∷ []) = if v == "" then none else some (some v)
one_settlement (v ∷ w ∷ rest) = none

-- The settlement to poll, if any, with `none` for a query that is refused.
unfoldable pub resource_query : List (String × String) → Option (Option String)
resource_query query =
    if any (λ (p : String × String). not (p.0 == "settlement")) query
    then none
    else one_settlement (settlement_values query)

abbrev pub location_of : (String → String) → String → PublicSettlement → String
location_of encode resource_url settlement =
    String.◌++◌ resource_url (String.◌++◌ "?settlement=" (encode settlement.settlement_id))

-- `createPaidResourceService`
abbrev pub paid_service :
    {S Payment : Type 0}
    → Facilitator S Payment
    → (CapabilityReport → String)
    → (String → ℕ)
    → (String → Option Payment)
    → String
    → (S → Result FacilitatorClientError IssuedQuoteResult × S)
    → PaidResourceService S PaidResourceChallenge
paid_service facilitator digest text_length decode url issue_quote = record {
  create_challenge = create_challenge url issue_quote;
  submit = submit facilitator digest text_length decode;
  retrieve = retrieve facilitator digest;
}

module _ {S Challenge : Type 0} (encode : String → String) (resource_url : String) where
  abbrev pub refuse : String → S → ResourceResponse Challenge × S
  refuse code s = (rejected 400 code none, s)

  -- What is left to do for a request whose query is accepted.
  abbrev pub paired :
      (Option String → Option String → Option String → S → ResourceResponse Challenge × S)
      → Option String
      → Option String
      → Option String
      → S
      → ResourceResponse Challenge × S
  paired dispatch settlement payment quote s =
      if is_found quote && not (is_found payment)
      then refuse "orphan_signed_quote" s
      else if is_found settlement && is_found payment
      then refuse "ambiguous_payment_request" s
      else dispatch settlement payment quote s

  -- The checks that come before any service is called.
  abbrev pub checked :
      (Option String → Option String → Option String → S → ResourceResponse Challenge × S)
      → Option (Option String)
      → ResourceRequest
      → S
      → ResourceResponse Challenge × S
  checked dispatch none r s = refuse "invalid_resource_query" s
  checked dispatch (some settlement) r s =
      paired dispatch settlement (truthy r.payment) (truthy r.signed_quote) s

  module _ (resource : PaidResourceService S Challenge) where
    abbrev pub paid_rejected : PaidResourceError → ResourceResponse Challenge
    paid_rejected e = rejected e.status e.code (nonzero e.retry_after_seconds)

    abbrev pub paid_answer :
        Result PaidResourceError PaidResourceResult × S → ResourceResponse Challenge × S
    paid_answer (err e, s) = (paid_rejected e, s)
    paid_answer (ok (PaidResourceResult.pending settlement), s) =
        (polling (location_of encode resource_url settlement) settlement, s)
    paid_answer (ok (PaidResourceResult.delivered body), s) = (reported body none, s)

    abbrev pub paid_challenge :
        Result PaidResourceError Challenge × S → ResourceResponse Challenge × S
    paid_challenge (err e, s) = (paid_rejected e, s)
    paid_challenge (ok challenge, s) = (challenged none challenge, s)

    abbrev pub dispatch_paid :
        Option String → Option String → Option String → S → ResourceResponse Challenge × S
    dispatch_paid (some id) payment quote s = paid_answer (resource.retrieve id s)
    dispatch_paid none (some payment) none s =
        (paid_rejected (error_of "missing_signed_quote" 400), s)
    dispatch_paid none (some payment) (some quote) s = paid_answer (resource.submit payment quote s)
    dispatch_paid none none quote s = paid_challenge (resource.create_challenge s)

    -- `GET /v1`
    unfoldable pub paid_route : ResourceRequest → S → ResourceResponse Challenge × S
    paid_route r s = checked dispatch_paid (resource_query r.query) r s

  module _ (resource : MppResourceService S Challenge) where
    -- A second challenge that fails, or an error that is no `MppResourceError`, is left to `onError`.
    abbrev pub challenge_again :
        String → Result MppFailure Challenge × S → ResourceResponse Challenge × S
    challenge_again code (err e, s) = (rejected 500 "internal_error" none, s)
    challenge_again code (ok challenge, s) = (challenged (some code) challenge, s)

    abbrev pub mpp_rejected : MppFailure → S → ResourceResponse Challenge × S
    mpp_rejected thrown s = (rejected 500 "internal_error" none, s)
    mpp_rejected (failed e) s =
        if eqb e.status 402
        then challenge_again e.code (resource.create_challenge s)
        else (rejected e.status e.code (nonzero e.retry_after_seconds), s)

    abbrev pub mpp_answer : Result MppFailure MppResourceResult × S → ResourceResponse Challenge × S
    mpp_answer (err e, s) = mpp_rejected e s
    mpp_answer (ok (MppResourceResult.pending settlement), s) =
        (polling (location_of encode resource_url settlement) settlement, s)
    mpp_answer (ok (MppResourceResult.delivered body receipt), s) =
        (reported body (some receipt), s)

    abbrev pub mpp_challenge : Result MppFailure Challenge × S → ResourceResponse Challenge × S
    mpp_challenge (err e, s) = mpp_rejected e s
    mpp_challenge (ok challenge, s) = (challenged none challenge, s)

    abbrev pub dispatch_mpp :
        Option String → Option String → Option String → S → ResourceResponse Challenge × S
    dispatch_mpp (some id) payment quote s = mpp_answer (resource.retrieve id s)
    dispatch_mpp none (some payment) none s = mpp_rejected (failure "missing_signed_quote" 400) s
    dispatch_mpp none (some payment) (some quote) s = mpp_answer (resource.submit payment quote s)
    dispatch_mpp none none quote s = mpp_challenge (resource.create_challenge s)

    -- `GET /mpp/v1`
    unfoldable pub mpp_route : ResourceRequest → S → ResourceResponse Challenge × S
    mpp_route r s = checked dispatch_mpp (resource_query r.query) r s
