-- ===== src/Oauth/Tokens.antt =====
-- The signed access tokens (`createOAuthSigner` of src/oauth.ts), and the authenticator that accepts
-- them or an API key. The signing and the checking of a JWT by `jose` are parameters: the check
-- answers a token's header and payload if the signature, issuer, audience and expiry are good.
use perk_os_nayori_platform.Prelude.{
  ℕ, ◌/◌, String, Bool, false, not, ◌||◌, Option, none, some, List, [], ◌==◌, if◌then◌else◌, any,
  includes, Result, err, ◌>>=◌, ◌>>◌, throw_if, or_throw,
}
use perk_os_nayori_platform.Prelude.Text.{strip_prefix, starts_with}
use perk_os_nayori_platform.Prelude.Words.{words, join}
use perk_os_nayori_platform.Prelude.Json.{number, string, Fields, end, field, find_field, as_text}
use perk_os_nayori_platform.Merchant.{MerchantRecord}
use perk_os_nayori_platform.Auth.{
  OauthScope, AuthError, MerchantAuthenticator, api_key_authenticator,
}
use perk_os_nayori_platform.Partners.{OauthClientRecord}
use perk_os_nayori_platform.Oauth.Scopes.{scope_text, oauth_scopes}

-- The parts of a JWT that are signed or read.
pub record Jwt : Type 0 where
  pub typ : Option String
  pub kid : String
  pub payload : Fields

pub record OauthClaims : Type 0 where
  pub client_id : String
  pub merchant_id : String
  pub wallet_address : String
  pub scopes : List String

-- What `sign` gives to `SignJWT`.
unfoldable pub access_jwt : String → String → String → OauthClientRecord → List String → ℕ → ℕ → Jwt
access_jwt origin kid jti client scopes issued_at expires_at = record {
  typ = some "at+jwt";
  kid = kid;
  payload = field "client_id" (string client.client_id) (
      field "wallet_address" (string client.wallet_address) (
        field "scope" (string (join " " scopes)) (
          field "iss" (string origin) (
            field "aud" (string origin) (
              field "sub" (string client.merchant_id) (
                field "jti" (string jti)
                  (field "iat" (number issued_at) (field "exp" (number expires_at) end))))))));
}

abbrev pub scopes_of : Option String → List String
scopes_of none = []
scopes_of (some scope) = words scope

abbrev pub is_access_token : Option String → Bool
is_access_token none = false
is_access_token (some typ) = typ == "at+jwt"

abbrev claims : Jwt → Option String → Option String → Option String → Option OauthClaims
claims jwt (some sub) (some client_id) (some wallet_address) =
    let scopes = scopes_of (as_text (find_field "scope" jwt.payload)) in
    if not (is_access_token jwt.typ) || any (λ scope. not (includes oauth_scopes scope)) scopes
    then none
    else some (record {
      client_id = client_id;
      merchant_id = sub;
      wallet_address = wallet_address;
      scopes = scopes;
    })
claims jwt _ _ _ = none

-- The claims that `verify` takes from a verified token, with `none` for the error.
unfoldable pub verified_claims : Option Jwt → Option OauthClaims
verified_claims none = none
verified_claims (some jwt) =
    claims jwt (as_text (find_field "sub" jwt.payload))
      (as_text (find_field "client_id" jwt.payload))
      (as_text (find_field "wallet_address" jwt.payload))

-- `verify` of the signer
unfoldable pub verify_token : (String → ℕ → Option Jwt) → String → ℕ → Option OauthClaims
unfolding verified_claims
verify_token jwt_verify token now_seconds = verified_claims (jwt_verify token now_seconds)

-- The parameters are the look-ups of the store, the signer's `verify` and the clock in milliseconds.
module _ (sha256 : String → String) (find_by_hash : String → Option MerchantRecord)
    (find_client : String → Option OauthClientRecord)
    (find_merchant : String → Option MerchantRecord) (verify : String → ℕ → Option OauthClaims)
    (now : ℕ) where
  unfoldable pub token_authenticated : String → OauthScope → Result AuthError MerchantRecord
  token_authenticated token required = do
    claims ← or_throw (verify token (now / 1000)) AuthError.unauthorized
    throw_if (not (includes claims.scopes (scope_text required))) AuthError.insufficient_scope
    client ← or_throw (find_client claims.client_id) AuthError.unauthorized
    throw_if
        (not (client.merchant_id == claims.merchant_id)
          || not (client.wallet_address == claims.wallet_address)
          || not (includes client.scopes (scope_text required)))
        AuthError.unauthorized
    or_throw (find_merchant claims.merchant_id) AuthError.unauthorized

  abbrev bearer_authenticated : Option String → OauthScope → Result AuthError MerchantRecord
  bearer_authenticated none required = err AuthError.unauthorized
  bearer_authenticated (some token) required = token_authenticated token required

  -- `authenticate`
  unfoldable pub oauth_authenticator : MerchantAuthenticator
  unfolding token_authenticated
  oauth_authenticator none required = err AuthError.unauthorized
  oauth_authenticator (some authorization) required =
      if starts_with authorization "Bearer ny_mk_"
      then api_key_authenticator sha256 find_by_hash (some authorization) required
      else bearer_authenticated (strip_prefix "Bearer " authorization) required
