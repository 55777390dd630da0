-- ===== src/Examples/Tokens.antt =====
-- The theorems on OAuth clients and access tokens, at concrete calls.
use perk_os_nayori_platform.Prelude.{
  ℕ, ◌*◌, ◌/◌, String, ◌≡◌, refl, ◌↔◌, Bool, true, Option, none, some, [], ◌∷◌, arith, ◌==◌,
  includes, ok,
}
use perk_os_nayori_platform.Prelude.Text.{matches, repeats, strip_prefix}
use perk_os_nayori_platform.Prelude.Table.{lookup, update}
use perk_os_nayori_platform.Prelude.Words.{split, words, join, cut_at}
use perk_os_nayori_platform.Prelude.Json.{Value, string, object, field, end, find_field}
use perk_os_nayori_platform.Merchant.{Network, MerchantRecord}
use perk_os_nayori_platform.Auth.{OauthScope}
use perk_os_nayori_platform.Partners.{
  RowStatus, InvitationRow, ChallengeRow, OauthClientRecord, PartnerTables,
  record_oauth_token_issued, find_active_oauth_client, find_active_merchant_by_id,
  find_active_merchant_by_api_key_hash,
}
use perk_os_nayori_platform.Partners.Consuming.{
  usable_challenge, consume_challenge_and_create_oauth_client, find_active_wallet_auth_challenge,
}
use perk_os_nayori_platform.Prelude.Text.{all_chars}
use perk_os_nayori_platform.Oauth.{
  OauthConfig, RegisteredClient, parse_registration_request, has_only,
}
use perk_os_nayori_platform.Oauth.Scopes.{normalize_scopes}
use perk_os_nayori_platform.Oauth.Digests.{safe_digest_equal, hex_bytes, parse_basic_authorization}
use perk_os_nayori_platform.Oauth.Registering.{signed_challenge, register}
use perk_os_nayori_platform.Oauth.Registered.{IsRegistered, register_sound}
use perk_os_nayori_platform.Oauth.Tokens.{Jwt, OauthClaims, verify_token, oauth_authenticator}
use perk_os_nayori_platform.Oauth.Issuing.{
  TokenForm, TokenResponse, Grant, granted, issued_jwt, issue_token,
}
use perk_os_nayori_platform.Oauth.Issued.{
  IsGrantedTo, IsTokenFor, issue_token_sound, issued_token_accepted,
}
use perk_os_nayori_platform.Oauth.Access.{IsAccepted, token-IsAccepted_iff}
use perk_os_nayori_platform.Examples.Partnering.{merchant, first_id, invited}
use perk_os_nayori_platform.ExternalOauth.{
  external_authenticator, external_token_authenticated, verify_external_access_token,
  claims_from_verification, is_stacks_address,
}
use perk_os_nayori_platform.ExternalOauth.Laws.{AreClaims, external_token_sound}
use perk_os_nayori_platform.Oauth.{text_length}
use perk_os_nayori_platform.Oauth.Scopes.{scope_text}

abbrev config : OauthConfig
config = record {
  service_origin = "https://nayori.example";
  stacks_network = Network.mainnet;
  partner_challenge_ttl_seconds = 300;
  oauth_access_token_ttl_seconds = 900;
}

abbrev digest : String
digest = "0000000000000000000000000000000000000000000000000000000000000001"

abbrev sha256 : String → String
sha256 s = digest

abbrev address_of : String → Network → Option String
address_of key network = some "SP1"

abbrev verify_rsv : String → String → String → Option Bool
verify_rsv message key signature = some true

abbrev registration : Value
registration = object (
    field "challengeId" (string first_id) (
      field "signature"
        (string
          "0000000000000000000000000000000000000000000000000000000000000000000000000000000000000000000000000000000000000000000000000000000000")
        (field "publicKey"
          (string "020000000000000000000000000000000000000000000000000000000000000000") end)))

abbrev client_id : String
client_id = "ny_oc_AAAAAAAAAAAAAAAAAAAAAAAA"

abbrev secret : String
secret = "ny_cs_AAAAAAAAAAAAAAAAAAAAAAAAAAAAAAAAAAAAAAAAAAA"

abbrev registered : RegisteredClient
registered = record {
  client_id = client_id;
  client_secret = secret;
  token_endpoint = "https://nayori.example/oauth/token";
  scopes = "payments:read" ∷ "payments:settle" ∷ [];
  wallet_address = "SP1";
}

abbrev client : OauthClientRecord
client = record {
  client_id = client_id;
  merchant_id = "nayori-public-resource";
  wallet_address = "SP1";
  secret_digest = digest;
  scopes = "payments:read" ∷ "payments:settle" ∷ [];
}

abbrev with_client : PartnerTables
with_client = record {
  merchants = invited.merchants;
  invitations =
      update (λ (i : InvitationRow). true) (λ i. record i { used_at = some 50000 })
        invited.invitations;
  challenges =
      update (λ (c : ChallengeRow). c.challenge_id == first_id)
        (λ c. record c { used_at = some 50000 }) invited.challenges;
  clients = record { client = client; status = RowStatus.active; last_token_at = none } ∷ [];
}

register_sound_example :
    IsRegistered config sha256 address_of verify_rsv "AAAAAAAAAAAAAAAAAAAAAAAA"
      "AAAAAAAAAAAAAAAAAAAAAAAAAAAAAAAAAAAAAAAAAAA" 50000 registration invited invited with_client
      registered
unfolding register signed_challenge parse_registration_request has_only find_field matches repeats
    strip_prefix find_active_wallet_auth_challenge usable_challenge lookup update
    consume_challenge_and_create_oauth_client
register_sound_example =
    register_sound config sha256 address_of verify_rsv "AAAAAAAAAAAAAAAAAAAAAAAA"
      "AAAAAAAAAAAAAAAAAAAAAAAAAAAAAAAAAAAAAAAAAAA" 50000 registration invited invited with_client
      registered refl

abbrev from_base64 : String → String
from_base64 s = "ny_oc_AAAAAAAAAAAAAAAAAAAAAAAA:ny_cs_AAAAAAAAAAAAAAAAAAAAAAAAAAAAAAAAAAAAAAAAAAA"

abbrev jwt_sign : Jwt → String
jwt_sign jwt = "eyJ"

abbrev form : TokenForm
form = record { grant_type = some "client_credentials"; scope = some "payments:read" }

abbrev grant : Grant
grant = record { client = client; scopes = "payments:read" ∷ [] }

abbrev response : TokenResponse
response = record { access_token = "eyJ"; expires_in = 900; scope = "payments:read" }

abbrev after_token : PartnerTables
after_token = record with_client {
  clients = record { client = client; status = RowStatus.active; last_token_at = some 60000 } ∷ [];
}

issue_token_sound_example :
    (g : Grant) × IsGrantedTo config sha256 from_base64 "k1" jwt_sign
      (some "Basic x")
      form
      with_client
      g
    × (j : Jwt) × ◌≡◌ {A = String} "eyJ" (jwt_sign j)
    × IsTokenFor config sha256 from_base64 "k1" jwt_sign "j1" 60500 g j
    × ("payments:read" ≡ join " " g.scopes)
    × (after_token ≡ record_oauth_token_issued g.client.client_id (60500 / 1000 * 1000) with_client)
unfolding issue_token granted parse_basic_authorization cut_at matches repeats strip_prefix
    find_active_oauth_client lookup update record_oauth_token_issued safe_digest_equal hex_bytes
    normalize_scopes words split join
issue_token_sound_example =
    issue_token_sound config sha256 from_base64 "k1" jwt_sign "j1" (some "Basic x") form 60500
      with_client with_client after_token response refl

abbrev jwt : Jwt
jwt = issued_jwt config "k1" "j1" 60500 grant

abbrev jwt_verify : String → ℕ → Option Jwt
jwt_verify token now = some jwt

issued_token_accepted_example :
    oauth_authenticator sha256
      (λ hash. find_active_merchant_by_api_key_hash hash after_token)
      (λ id. find_active_oauth_client id after_token)
      (λ id. find_active_merchant_by_id id after_token)
      (verify_token jwt_verify)
      900000
      (some "Bearer eyJ")
      OauthScope.payments_read
    ≡ ok merchant
unfolding issue_token granted parse_basic_authorization cut_at matches repeats strip_prefix
    find_active_oauth_client find_active_merchant_by_id lookup update record_oauth_token_issued
    safe_digest_equal hex_bytes normalize_scopes words split join
issued_token_accepted_example =
    issued_token_accepted config sha256 from_base64 "k1" jwt_sign "j1" (some "Basic x") form 60500
      900000 with_client with_client after_token after_token response grant merchant
      OauthScope.payments_read jwt_verify refl refl (omega arith) (λ live. refl) refl refl refl refl

token-IsAccepted_iff_example :
    (oauth_authenticator sha256
        (λ hash. none)
        (λ id. some client)
        (λ id. some merchant)
        (verify_token jwt_verify)
        900000
        (some "Bearer eyJ")
        OauthScope.payments_read
      ≡ ok merchant)
    ↔ IsAccepted sha256
        (λ hash. none)
        (λ id. some client)
        (λ id. some merchant)
        (verify_token jwt_verify)
        900000
        "eyJ"
        OauthScope.payments_read
        merchant
unfolding strip_prefix
token-IsAccepted_iff_example =
    token-IsAccepted_iff sha256 (λ hash. none) (λ id. some client) (λ id. some merchant)
      (verify_token jwt_verify) 900000 "eyJ" OauthScope.payments_read merchant refl

abbrev external_jwt : Jwt
external_jwt = record {
  typ = some "at+jwt";
  kid = "k2";
  payload = field "sub" (string "nayori-public-resource") (
      field "client_id" (string client_id) (
        field "wallet_address" (string "SP000000000000000000000000000")
          (field "scope" (string "payments:read mcp:invoke") end)));
}

external_token_sound_example :
    (j : Jwt) × (claims : OauthClaims) × ◌≡◌ {A = Option Jwt} (some external_jwt) (some j)
    × AreClaims j claims
    × (includes claims.scopes (scope_text OauthScope.payments_read) ≡ true)
    × ◌≡◌ {A = Option MerchantRecord} (some merchant) (some merchant)
unfolding strip_prefix external_authenticator external_token_authenticated
    verify_external_access_token claims_from_verification find_field matches repeats
    is_stacks_address all_chars text_length words split
external_token_sound_example =
    external_token_sound sha256 (λ hash. none) (λ id. some merchant) (λ token. some external_jwt)
      "eyJ" OauthScope.payments_read merchant refl refl
