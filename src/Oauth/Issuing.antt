-- ===== src/Oauth/Issuing.antt =====
-- `issueToken` of the OAuth service (src/oauth.ts): the tables that its look-up and its write find are
-- two arguments. `new Date(issuedAt * 1_000)` is in milliseconds, as in the store.
use perk_os_nayori_platform.Prelude.{
  ℕ, ◌+◌, ◌*◌, ◌/◌, String, Bool, false, not, Option, none, some, List, ◌==◌, if◌then◌else◌, Result,
  ok, err, ◌>>=◌, ◌>>◌, throw_if, or_throw,
}
use perk_os_nayori_platform.Prelude.Words.{join}
use perk_os_nayori_platform.Partners.{
  OauthClientRecord, PartnerTables, find_active_oauth_client, record_oauth_token_issued,
}
use perk_os_nayori_platform.Oauth.{
  OauthError, service, invalid_request, invalid_client, invalid_scope, OauthConfig,
}
use perk_os_nayori_platform.Oauth.Scopes.{normalize_scopes}
use perk_os_nayori_platform.Oauth.Digests.{safe_digest_equal, parse_basic_authorization}
use perk_os_nayori_platform.Oauth.Tokens.{Jwt, access_jwt}

-- The fields of the form that are read.
pub record TokenForm : Type 0 where
  pub grant_type : Option String
  pub scope : Option String

pub record TokenResponse : Type 0 where
  pub access_token : String
  pub expires_in : ℕ
  pub scope : String

abbrev is_client_credentials : Option String → Bool
is_client_credentials none = false
is_client_credentials (some grant_type) = grant_type == "client_credentials"

-- `client && safeDigestEqual(…)`
abbrev with_secret : String → Option OauthClientRecord → Option OauthClientRecord
with_secret digest none = none
with_secret digest (some client) =
    if safe_digest_equal digest client.secret_digest then some client else none

-- The client and the scopes that a token is issued for.
pub record Grant : Type 0 where
  pub client : OauthClientRecord
  pub scopes : List String

-- `from_base64` decodes base64.
module _ (sha256 : String → String) (from_base64 : String → String) where
  unfoldable pub granted : Option String → TokenForm → PartnerTables → Result OauthError Grant
  granted authorization form t = do
    throw_if (not (is_client_credentials form.grant_type)) (service invalid_request 400)
    credentials ←
        or_throw (parse_basic_authorization from_base64 authorization) (service invalid_client 401)
    client ←
        or_throw
          (with_secret (sha256 credentials.secret)
            (find_active_oauth_client credentials.client_id t))
          (service invalid_client 401)
    scopes ← or_throw (normalize_scopes form.scope client.scopes) (service invalid_scope 400)
    ok (record { client = client; scopes = scopes })

abbrev pub issued_jwt : OauthConfig → String → String → ℕ → Grant → Jwt
issued_jwt config kid jti now grant =
    access_jwt config.service_origin kid jti grant.client grant.scopes (now / 1000)
      (now / 1000 + config.oauth_access_token_ttl_seconds)

-- `kid` is the key's id, and `jwt_sign` is `SignJWT`'s `sign`.
module _ (config : OauthConfig) (sha256 : String → String) (from_base64 : String → String)
    (kid : String) (jwt_sign : Jwt → String) where
  abbrev respond :
      String
      → ℕ
      → PartnerTables
      → Result OauthError Grant
      → Result OauthError TokenResponse × PartnerTables
  respond jti now t (err e) = (err e, t)
  respond jti now t (ok grant) = (
    ok (record {
      access_token = jwt_sign (issued_jwt config kid jti now grant);
      expires_in = config.oauth_access_token_ttl_seconds;
      scope = join " " grant.scopes;
    }),
    record_oauth_token_issued grant.client.client_id (now / 1000 * 1000) t,
  )

  -- `jti` is the random id of the token.
  unfoldable pub issue_token :
      String
      → Option String
      → TokenForm
      → ℕ
      → PartnerTables
      → PartnerTables
      → Result OauthError TokenResponse × PartnerTables
  unfolding granted
  issue_token jti authorization form now t t' =
      respond jti now t' (granted sha256 from_base64 authorization form t)
