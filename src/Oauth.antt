-- ===== src/Oauth.antt =====
-- The registration of partners (src/oauth.ts): challenges for a wallet, and the OAuth client that a
-- signed challenge makes. Its scopes are Oauth/Scopes.antt, the comparison of digests
-- Oauth/Digests.antt, the token requests Oauth/Issuing.antt, and the signed tokens with the
-- authenticator Oauth/Tokens.antt. SHA-256, the wallet's signature check, random texts and the
-- printing of an instant are parameters.
pub mod Scopes
pub mod Digests
pub mod Tokens
pub mod Issuing
pub mod Access
pub mod Issued
pub mod Registering
pub mod Registered
use Prim.Native.String
use Prim.Native.Char.{code}
use perk_os_nayori_platform.Prelude.{
  ℕ, ◌+◌, String, Bool, true, ◌&&◌, ◌||◌, Option, none, some, List, [], ◌∷◌, leb, if◌then◌else◌,
  any, includes,
}
use perk_os_nayori_platform.Prelude.Text.{is_hex, is_base64url, matches}
use perk_os_nayori_platform.Prelude.Words.{join}
use perk_os_nayori_platform.Prelude.Json.{Value, Fields, end, field, find_field}
use perk_os_nayori_platform.Merchant.{Network, testnet, mainnet, MerchantRecord}
use perk_os_nayori_platform.Ledger.{StoreError}
use perk_os_nayori_platform.Partners.{
  PartnerInvitationRecord, WalletAuthChallengeRecord, OauthClientRecord, PartnerTables,
  find_active_merchant_by_id, find_active_partner_invitation, insert_wallet_auth_challenge,
}
use perk_os_nayori_platform.Partners.Consuming.{
  Consumption, find_active_wallet_auth_challenge, consume_challenge_and_create_oauth_client,
}

-- The codes of `OAuthServiceError` that the service throws.
pub data OauthCode : Type 0 where
  invalid_request invalid_invitation invalid_challenge invalid_wallet_signature invalid_client
        invalid_scope :
      OauthCode

-- An `OAuthServiceError` with its code and status, what the store throws, or any other error.
pub data OauthError : Type 0 where
  service : OauthCode → ℕ → OauthError
  store : StoreError → OauthError
  other : OauthError

-- What the service reads of `AppConfig`.
pub record OauthConfig : Type 0 where
  pub service_origin : String
  pub stacks_network : Network
  pub partner_challenge_ttl_seconds : ℕ
  pub oauth_access_token_ttl_seconds : ℕ

abbrev pub network_text : Network → String
network_text testnet = "testnet"
network_text mainnet = "mainnet"

-- `invitationTokenPattern`, `clientIdPattern`, `clientSecretPattern` and `challengeIdPattern`
abbrev pub is_invitation_token : String → Bool
is_invitation_token = matches "ny_pi_" 43 is_base64url

abbrev pub is_client_id : String → Bool
is_client_id = matches "ny_oc_" 24 is_base64url

abbrev pub is_client_secret : String → Bool
is_client_secret = matches "ny_cs_" 43 is_base64url

abbrev pub is_challenge_id : String → Bool
is_challenge_id = matches "nc_" 32 is_hex

-- `[0-9a-f]` with the flag `i`
abbrev pub is_any_hex : ℕ → Bool
is_any_hex c = is_hex c || leb b'A' c && leb c b'F'

-- `hexPublicKeyPattern` and `rsvSignaturePattern`
abbrev pub is_public_key : String → Bool
is_public_key s =
    any (λ prefix. matches prefix 64 is_any_hex s)
      ("02" ∷ "03" ∷ "0x02" ∷ "0x03" ∷ "0X02" ∷ "0X03" ∷ [])

abbrev pub is_rsv_signature : String → Bool
is_rsv_signature s = any (λ prefix. matches prefix 130 is_any_hex s) ("" ∷ "0x" ∷ "0X" ∷ [])

-- `value.length`: a character beyond the basic plane counts as two.
unfoldable pub text_length : String → ℕ
text_length String.[] = 0
text_length (String.◌∷◌ c s) = (if leb 65536 (code c) then 2 else 1) + text_length s

-- `z.object(…).strict()`: no other key.
unfoldable pub has_only : List String → Fields → Bool
has_only keys end = true
has_only keys (field k v fs) = includes keys k && has_only keys fs

abbrev pub checked_text : (String → Bool) → Option Value → Option String
checked_text p (some (Value.string s)) = if p s then some s else none
checked_text p _ = none

pub record ChallengeRequest : Type 0 where
  pub invitation_token : String
  pub wallet_address : String

abbrev challenge_request : Option String → Option String → Option ChallengeRequest
challenge_request (some token) (some wallet) =
    some (record { invitation_token = token; wallet_address = wallet })
challenge_request _ _ = none

-- `challengeRequestSchema.safeParse`
unfoldable pub parse_challenge_request : Value → Option ChallengeRequest
unfolding has_only text_length
parse_challenge_request (Value.object fs) =
    if has_only ("invitationToken" ∷ "walletAddress" ∷ []) fs
    then challenge_request (checked_text is_invitation_token (find_field "invitationToken" fs)) (
        checked_text (λ s. leb 38 (text_length s) && leb (text_length s) 64)
          (find_field "walletAddress" fs))
    else none
parse_challenge_request _ = none

pub record RegistrationRequest : Type 0 where
  pub challenge_id : String
  pub signature : String
  pub public_key : String

abbrev registration_request :
    Option String → Option String → Option String → Option RegistrationRequest
registration_request (some id) (some signature) (some key) =
    some (record { challenge_id = id; signature = signature; public_key = key })
registration_request _ _ _ = none

-- `registrationRequestSchema.safeParse`
unfoldable pub parse_registration_request : Value → Option RegistrationRequest
unfolding has_only
parse_registration_request (Value.object fs) =
    if has_only ("challengeId" ∷ "signature" ∷ "publicKey" ∷ []) fs
    then registration_request (checked_text is_challenge_id (find_field "challengeId" fs))
        (checked_text is_rsv_signature (find_field "signature" fs))
        (checked_text is_public_key (find_field "publicKey" fs))
    else none
parse_registration_request _ = none

-- What `issueChallenge` answers.
pub record IssuedChallenge : Type 0 where
  pub challenge_id : String
  pub message : String
  pub expires_at : String
  pub wallet_address : String
  pub network : Network

-- What `register` answers.
pub record RegisteredClient : Type 0 where
  pub client_id : String
  pub client_secret : String
  pub token_endpoint : String
  pub scopes : List String
  pub wallet_address : String
