-- ===== src/Oauth/Registering.antt =====
-- `issueChallenge` and `register` of the OAuth service (src/oauth.ts). Each reads the tables and
-- writes them later: the tables that the reads and the write find are two arguments.
use Prim.Native.String
use perk_os_nayori_platform.Prelude.{
  ℕ, ◌+◌, ◌*◌, String, Bool, false, not, ◌||◌, Option, none, some, [], ◌∷◌, ◌==◌, if◌then◌else◌,
  Result, ok, err, ◌>>=◌, ◌>>◌, throw_if, or_throw,
}
use perk_os_nayori_platform.Prelude.Text.{strip_prefix}
use perk_os_nayori_platform.Prelude.Words.{join}
use perk_os_nayori_platform.Prelude.Json.{Value}
use perk_os_nayori_platform.Merchant.{Network}
use perk_os_nayori_platform.Ledger.{StoreError}
use perk_os_nayori_platform.Partners.{
  WalletAuthChallengeRecord, OauthClientRecord, PartnerTables, find_active_merchant_by_id,
  find_active_partner_invitation, insert_wallet_auth_challenge,
}
use perk_os_nayori_platform.Partners.Consuming.{
  Consumption, find_active_wallet_auth_challenge, consume_challenge_and_create_oauth_client,
}
use perk_os_nayori_platform.Oauth.{
  OauthError, service, store, other, invalid_request, invalid_invitation, invalid_challenge,
  invalid_wallet_signature, OauthConfig, network_text, is_invitation_token, parse_challenge_request,
  parse_registration_request, IssuedChallenge, RegisteredClient,
}

-- `hashPartnerInvitationToken`, with `none` for the error
unfoldable pub hash_partner_invitation_token : (String → String) → String → Option String
hash_partner_invitation_token sha256 token =
    if is_invitation_token token then some (sha256 token) else none

without_0x : Option String → String → String
without_0x none value = value
without_0x (some rest) value = rest

-- `normalizeHex`
unfoldable pub normalize_hex : String → String
unfolding without_0x
normalize_hex value =
    without_0x (strip_prefix "0x" value) (without_0x (strip_prefix "0X" value) value)

-- The wallet address and whether the signature is valid, after the `try` and its `catch`.
abbrev signed_by : Option String → Option Bool → String × Bool
signed_by (some wallet) (some valid) = (wallet, valid)
signed_by _ _ = ("", false)

abbrev pub consumption :
    (String → String) → String → String → ℕ → WalletAuthChallengeRecord → Consumption
consumption sha256 id secret now challenge = record {
  challenge_id = challenge.challenge_id;
  client_id = String.◌++◌ "ny_oc_" id;
  secret_digest = sha256 (String.◌++◌ "ny_cs_" secret);
  used_at = now;
}

module _ (config : OauthConfig) (sha256 : String → String) where
  module _ (to_iso : ℕ → String) where
    unfoldable pub challenge_message : String → String → String → ℕ → String
    challenge_message merchant_id wallet_address challenge_id expires_at = join "\n" (
        "Nayori partner registration"
        ∷ "Version: 1"
        ∷ String.◌++◌ "Origin: " config.service_origin
        ∷ String.◌++◌ "Network: " (network_text config.stacks_network)
        ∷ String.◌++◌ "Merchant: " merchant_id
        ∷ String.◌++◌ "Wallet: " wallet_address
        ∷ String.◌++◌ "Challenge: " challenge_id
        ∷ String.◌++◌ "Expires at: " (to_iso expires_at)
        ∷ [])

    -- The challenge that is inserted; `random` are the hex digits of 16 bytes.
    prepare_challenge :
        String → ℕ → ℕ → Value → PartnerTables → Result OauthError WalletAuthChallengeRecord
    prepare_challenge random now later input t = do
      request ← or_throw (parse_challenge_request input) (service invalid_request 400)
      token_digest ← or_throw (hash_partner_invitation_token sha256 request.invitation_token) other
      invitation ←
          or_throw (find_active_partner_invitation token_digest now t)
            (service invalid_invitation 409)
      derived_merchant ←
          or_throw (find_active_merchant_by_id invitation.merchant_id t)
            (service invalid_invitation 409)
      let challenge_id = String.◌++◌ "nc_" random
      let expires_at = later + config.partner_challenge_ttl_seconds * 1000
      ok (record {
        invitation = invitation;
        challenge_id = challenge_id;
        wallet_address = request.wallet_address;
        network = config.stacks_network;
        message =
            challenge_message invitation.merchant_id request.wallet_address challenge_id expires_at;
        challenge_expires_at = expires_at;
      })

    abbrev answer_inserted :
        WalletAuthChallengeRecord
        → PartnerTables
        → Result StoreError (Unit {0} × PartnerTables)
        → Result OauthError IssuedChallenge × PartnerTables
    answer_inserted new t (err e) = (err (store e), t)
    answer_inserted new t (ok (done, t')) = (
      ok (record {
        challenge_id = new.challenge_id;
        message = new.message;
        expires_at = to_iso new.challenge_expires_at;
        wallet_address = new.wallet_address;
        network = config.stacks_network;
      }),
      t',
    )

    abbrev insert_prepared :
        Result OauthError WalletAuthChallengeRecord
        → PartnerTables
        → Result OauthError IssuedChallenge × PartnerTables
    insert_prepared (err e) t = (err e, t)
    insert_prepared (ok new) t = answer_inserted new t (insert_wallet_auth_challenge new t)

    unfoldable pub issue_challenge :
        String
        → ℕ
        → ℕ
        → Value
        → PartnerTables
        → PartnerTables
        → Result OauthError IssuedChallenge × PartnerTables
    unfolding prepare_challenge
    issue_challenge random now later input t t' =
        insert_prepared (prepare_challenge random now later input t) t'

  -- `address_of` is `publicKeyToAddressSingleSig` and `verify_rsv` is `verifyMessageSignatureRsv`
  -- on a message, a public key and a signature, each with `none` where it throws.
  module _ (address_of : String → Network → Option String)
      (verify_rsv : String → String → String → Option Bool) where
    -- The challenge whose wallet signed it.
    unfoldable pub signed_challenge :
        ℕ → Value → PartnerTables → Result OauthError WalletAuthChallengeRecord
    signed_challenge now input t = do
      request ← or_throw (parse_registration_request input) (service invalid_request 400)
      challenge ←
          or_throw (find_active_wallet_auth_challenge request.challenge_id now t)
            (service invalid_challenge 409)
      let public_key = normalize_hex request.public_key
      let signature = normalize_hex request.signature
      let signed =
          signed_by (address_of public_key config.stacks_network)
            (verify_rsv challenge.message public_key signature)
      throw_if (not signed.1 || not (signed.0 == challenge.wallet_address))
          (service invalid_wallet_signature 401)
      ok challenge

    abbrev answer_consumed :
        String
        → String
        → PartnerTables
        → Result StoreError (Option OauthClientRecord × PartnerTables)
        → Result OauthError RegisteredClient × PartnerTables
    answer_consumed client_id client_secret t (err e) = (err (store e), t)
    answer_consumed client_id client_secret t (ok (none, t')) =
        (err (service invalid_challenge 409), t')
    answer_consumed client_id client_secret t (ok (some client, t')) = (
      ok (record {
        client_id = client_id;
        client_secret = client_secret;
        token_endpoint = String.◌++◌ config.service_origin "/oauth/token";
        scopes = client.scopes;
        wallet_address = client.wallet_address;
      }),
      t',
    )

    abbrev consume_signed :
        String
        → String
        → ℕ
        → Result OauthError WalletAuthChallengeRecord
        → PartnerTables
        → Result OauthError RegisteredClient × PartnerTables
    consume_signed id secret now (err e) t = (err e, t)
    consume_signed id secret now (ok challenge) t =
        answer_consumed (String.◌++◌ "ny_oc_" id) (String.◌++◌ "ny_cs_" secret) t
          (consume_challenge_and_create_oauth_client (consumption sha256 id secret now challenge) t)

    -- `id` and `secret` are the base64url texts of 18 and of 32 random bytes.
    unfoldable pub register :
        String
        → String
        → ℕ
        → Value
        → PartnerTables
        → PartnerTables
        → Result OauthError RegisteredClient × PartnerTables
    unfolding signed_challenge
    register id secret now input t t' =
        consume_signed id secret now (signed_challenge now input t) t'
