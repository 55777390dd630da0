-- ===== src/App/Partners.antt =====
-- `POST /v1/quotes` and the OAuth routes (src/app.ts).
use perk_os_nayori_platform.Prelude.{
  ℕ, String, Bool, ◌||◌, Option, none, some, ◌==◌, eqb, if◌then◌else◌, Result, ok, err,
}
use perk_os_nayori_platform.Prelude.Json.{Value}
use perk_os_nayori_platform.Merchant.{Network}
use perk_os_nayori_platform.Partners.{PartnerTables}
use perk_os_nayori_platform.Oauth.{
  OauthCode, invalid_request, invalid_invitation, invalid_challenge, invalid_wallet_signature,
  invalid_client, invalid_scope, OauthError, service, OauthConfig, IssuedChallenge,
  RegisteredClient,
}
use perk_os_nayori_platform.Oauth.Registering.{issue_challenge, register}
use perk_os_nayori_platform.Oauth.Tokens.{Jwt}
use perk_os_nayori_platform.Oauth.Issuing.{TokenForm, TokenResponse, issue_token}
use perk_os_nayori_platform.Quoting
use perk_os_nayori_platform.Quoting.{IssuedQuoteResult, issue}
use perk_os_nayori_platform.App.{
  AppConfig, value, error, Response, plain, bearer_challenge, nonzero,
}

-- The answer to a `QuoteServiceError`, and `app.onError` for any other error.
unfoldable pub quote_failure : AppConfig → Quoting.Failure → Response IssuedQuoteResult
unfolding bearer_challenge
quote_failure app (Quoting.thrown message) = plain 500 (error "internal_error")
quote_failure app (Quoting.service code status retry_after) =
    let lacks_scope = code == "insufficient_scope" in
    record {
      status = status;
      www_authenticate =
          if eqb status 401 || lacks_scope
          then some (
              bearer_challenge app "nayori-quotes"
                (if lacks_scope then some "quotes:create" else none))
          else none;
      retry_after = if eqb status 429 then nonzero retry_after else none;
      body = error code;
    }

abbrev respond_quote : AppConfig → Quoting.Answer → Response IssuedQuoteResult × Quoting.World
respond_quote app (err e, w) = (quote_failure app e, w)
respond_quote app (ok issued, w) = (plain 201 (value issued), w)

-- `POST /v1/quotes`
unfoldable pub quote_route :
    AppConfig
    → Quoting.Config
    → Quoting.Services
    → Quoting.Moments
    → Option String
    → Option Value
    → Quoting.World
    → Response IssuedQuoteResult × Quoting.World
quote_route app config services m authorization none w = (plain 400 (error "invalid_request"), w)
quote_route app config services m authorization (some input) w =
    respond_quote app (issue config services m authorization input w)

abbrev pub code_text : OauthCode → String
code_text invalid_request = "invalid_request"
code_text invalid_invitation = "invalid_invitation"
code_text invalid_challenge = "invalid_challenge"
code_text invalid_wallet_signature = "invalid_wallet_signature"
code_text invalid_client = "invalid_client"
code_text invalid_scope = "invalid_scope"

abbrev respond_oauth :
    {A : Type 0}
    → ℕ
    → Option String
    → Result OauthError A × PartnerTables
    → Response A × PartnerTables
respond_oauth good basic (ok a, t) = (plain good (value a), t)
respond_oauth good basic (err (service code status), t) = (
  record {
    status = status;
    www_authenticate = if eqb status 401 then basic else none;
    retry_after = none;
    body = error (code_text code);
  },
  t,
)
respond_oauth good basic (err e, t) = (plain 500 (error "internal_error"), t)

-- `POST /oauth/token`, with the form of the body
unfoldable pub token_route :
    OauthConfig
    → (String → String)
    → (String → String)
    → String
    → (Jwt → String)
    → String
    → Option String
    → TokenForm
    → ℕ
    → PartnerTables
    → PartnerTables
    → Response TokenResponse × PartnerTables
token_route config sha256 from_base64 kid jwt_sign jti authorization form now t t' =
    respond_oauth 200 (some "Basic realm=\"nayori-oauth\"")
      (issue_token config sha256 from_base64 kid jwt_sign jti authorization form now t t')

-- `POST /v1/partners/challenges`
unfoldable pub challenge_route :
    OauthConfig
    → (String → String)
    → (ℕ → String)
    → String
    → ℕ
    → ℕ
    → Option Value
    → PartnerTables
    → PartnerTables
    → Response IssuedChallenge × PartnerTables
challenge_route config sha256 to_iso random now later none t t' =
    (plain 400 (error "invalid_request"), t')
challenge_route config sha256 to_iso random now later (some input) t t' =
    respond_oauth 201 none (issue_challenge config sha256 to_iso random now later input t t')

-- `POST /v1/partners/register`
unfoldable pub register_route :
    OauthConfig
    → (String → String)
    → (String → Network → Option String)
    → (String → String → String → Option Bool)
    → String
    → String
    → ℕ
    → Option Value
    → PartnerTables
    → PartnerTables
    → Response RegisteredClient × PartnerTables
register_route config sha256 address_of verify_rsv id secret now none t t' =
    (plain 400 (error "invalid_request"), t')
register_route config sha256 address_of verify_rsv id secret now (some input) t t' =
    respond_oauth 201 none (register config sha256 address_of verify_rsv id secret now input t t')
