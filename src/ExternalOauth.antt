-- ===== src/ExternalOauth.antt =====
-- The authenticator for the tokens of an external OAuth issuer (src/external-oauth.ts). The check of
-- a JWT by `jose`, against the issuer's remote keys, is a parameter, as in Oauth/Tokens.antt.
pub mod Laws
use Prim.Native.Char.{code}
use Prim.Native.String
use perk_os_nayori_platform.Prelude.{
  ℕ, String, Bool, false, not, ◌&&◌, ◌||◌, Option, none, some, [], ◌∷◌, leb, eqb, if◌then◌else◌,
  length, any, includes, Result, err, ◌>>=◌, ◌>>◌, throw_if, or_throw,
}
use perk_os_nayori_platform.Prelude.Text.{strip_prefix, starts_with}
use perk_os_nayori_platform.Prelude.Json.{find_field, as_text}
use perk_os_nayori_platform.Merchant.{MerchantRecord}
use perk_os_nayori_platform.Auth.{
  OauthScope, AuthError, unauthorized, insufficient_scope, MerchantAuthenticator,
  api_key_authenticator,
}
use perk_os_nayori_platform.Prelude.Text.{all_chars}
use perk_os_nayori_platform.Oauth.{is_client_id, text_length}
use perk_os_nayori_platform.Oauth.Scopes.{scope_text, oauth_scopes, has_repeats}
use perk_os_nayori_platform.Oauth.Tokens.{Jwt, OauthClaims, scopes_of, is_access_token}

-- `[0-9A-HJKMNP-TV-Z]`
abbrev pub is_c32 : ℕ → Bool
is_c32 c =
    leb b'0' c && leb c b'9'
    || leb b'A' c && leb c b'H'
    || eqb c b'J'
    || eqb c b'K'
    || eqb c b'M'
    || eqb c b'N'
    || leb b'P' c && leb c b'T'
    || leb b'V' c && leb c b'Z'

abbrev is_address_rest : Option String → Bool
is_address_rest none = false
is_address_rest (some rest) =
    leb 26 (text_length rest) && leb (text_length rest) 62 && all_chars is_c32 rest

-- `stacksAddressPattern`
unfoldable pub is_stacks_address : String → Bool
unfolding all_chars text_length
is_stacks_address s =
    any (λ prefix. is_address_rest (strip_prefix prefix s)) ("SP" ∷ "ST" ∷ "SM" ∷ "SN" ∷ [])

abbrev checked_claims : Jwt → Option String → Option String → Option String → Option OauthClaims
checked_claims jwt (some sub) (some client_id) (some wallet_address) =
    let scopes = scopes_of (as_text (find_field "scope" jwt.payload)) in
    if not (is_access_token jwt.typ)
      || not (is_client_id client_id)
      || not (is_stacks_address wallet_address)
      || eqb (length scopes) 0
      || has_repeats scopes
      || any (λ scope. not (includes oauth_scopes scope)) scopes
    then none
    else some (record {
      client_id = client_id;
      merchant_id = sub;
      wallet_address = wallet_address;
      scopes = scopes;
    })
checked_claims jwt _ _ _ = none

-- `claimsFromVerification` of what `jwtVerify` answers, with `none` for their errors
unfoldable pub claims_from_verification : Option Jwt → Option OauthClaims
claims_from_verification none = none
claims_from_verification (some jwt) =
    checked_claims jwt (as_text (find_field "sub" jwt.payload))
      (as_text (find_field "client_id" jwt.payload))
      (as_text (find_field "wallet_address" jwt.payload))

module _ (jwt_verify : String → Option Jwt) where
  -- `verifyExternalAccessToken`
  unfoldable pub verify_external_access_token : String → Option OauthClaims
  verify_external_access_token token = claims_from_verification (jwt_verify token)

module _ (sha256 : String → String) (find_by_hash : String → Option MerchantRecord)
    (find_merchant : String → Option MerchantRecord) (verify : String → Option OauthClaims) where
  unfoldable pub external_token_authenticated :
      String → OauthScope → Result AuthError MerchantRecord
  external_token_authenticated token required = do
    claims ← or_throw (verify token) AuthError.unauthorized
    throw_if (not (includes claims.scopes (scope_text required))) AuthError.insufficient_scope
    or_throw (find_merchant claims.merchant_id) AuthError.unauthorized

  abbrev external_bearer : Option String → OauthScope → Result AuthError MerchantRecord
  external_bearer none required = err AuthError.unauthorized
  external_bearer (some token) required = external_token_authenticated token required

  -- `createExternalOAuthAuthenticator`
  unfoldable pub external_authenticator : MerchantAuthenticator
  unfolding external_token_authenticated
  external_authenticator none required = err AuthError.unauthorized
  external_authenticator (some authorization) required =
      if starts_with authorization "Bearer ny_mk_"
      then api_key_authenticator sha256 find_by_hash (some authorization) required
      else external_bearer (strip_prefix "Bearer " authorization) required
