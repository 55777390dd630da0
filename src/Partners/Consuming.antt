-- ===== src/Partners/Consuming.antt =====
-- A wallet challenge joined with its invitation, and the transaction that consumes the two for a new
-- client (`findActiveWalletAuthChallenge` and `consumeChallengeAndCreateOAuthClient`,
-- src/database.ts).
use mathlib.Core.Option
use perk_os_nayori_platform.Prelude.{
  ℕ, String, ◌&&◌, Option, none, some, ◌∷◌, ◌==◌, if◌then◌else◌, any, Result, ok, ◌>>◌, throw_if,
}
use perk_os_nayori_platform.Prelude.Table.{lookup, update}
use perk_os_nayori_platform.Ledger.{StoreError}
use perk_os_nayori_platform.Partners.{
  active, MerchantRow, InvitationRow, WalletAuthChallengeRecord, ChallengeRow, OauthClientRecord,
  ClientRow, PartnerTables, merchant_key, invitation_key, challenge_key, is_active, is_empty,
  is_usable,
}

-- A challenge with its invitation.
pub record Joined : Type 0 where
  pub challenge : ChallengeRow
  pub invitation : InvitationRow

abbrev with_merchant : ℕ → ChallengeRow → InvitationRow → Option MerchantRow → Option Joined
with_merchant now c i none = none
with_merchant now c i (some m) =
    if is_usable c.used_at c.expires_at now
      && is_usable i.used_at i.expires_at now
      && is_active m.status
    then some (record { challenge = c; invitation = i })
    else none

abbrev with_invitation : ℕ → PartnerTables → ChallengeRow → Option InvitationRow → Option Joined
with_invitation now t c none = none
with_invitation now t c (some i) =
    with_merchant now c i (lookup merchant_key c.merchant_id t.merchants)

abbrev with_challenge : ℕ → PartnerTables → Option ChallengeRow → Option Joined
with_challenge now t none = none
with_challenge now t (some c) =
    with_invitation now t c (lookup invitation_key c.invitation_id t.invitations)

-- The two `JOIN`s and the conditions that `findActiveWalletAuthChallenge` and
-- `consumeChallengeAndCreateOAuthClient` share.
unfoldable pub usable_challenge : String → ℕ → PartnerTables → Option Joined
usable_challenge id now t = with_challenge now t (lookup challenge_key id t.challenges)

unfoldable pub find_active_wallet_auth_challenge :
    String → ℕ → PartnerTables → Option WalletAuthChallengeRecord
find_active_wallet_auth_challenge id now t =
    Option.map
      (λ (j : Joined). record {
        invitation = record {
          invitation_id = j.challenge.invitation_id;
          merchant_id = j.challenge.merchant_id;
          scopes = j.invitation.scopes;
          expires_at = j.invitation.expires_at;
        };
        challenge_id = j.challenge.challenge_id;
        wallet_address = j.challenge.wallet_address;
        network = j.challenge.network;
        message = j.challenge.message;
        challenge_expires_at = j.challenge.expires_at;
      })
      (usable_challenge id now t)

pub record Consumption : Type 0 where
  pub challenge_id : String
  pub client_id : String
  pub secret_digest : String
  pub used_at : ℕ

abbrev pub new_client : Consumption → Joined → OauthClientRecord
new_client input j = record {
  client_id = input.client_id;
  merchant_id = j.challenge.merchant_id;
  wallet_address = j.challenge.wallet_address;
  secret_digest = input.secret_digest;
  scopes = j.invitation.scopes;
}

abbrev pub used_challenge : ℕ → ChallengeRow → ChallengeRow
used_challenge at c = record c { used_at = some at }

abbrev pub used_invitation : ℕ → InvitationRow → InvitationRow
used_invitation at i = record i { used_at = some at }

-- The two UPDATEs and the INSERT of `consumeChallengeAndCreateOAuthClient`.
abbrev pub consumed : Consumption → Joined → PartnerTables → PartnerTables
consumed input j t = record {
  merchants = t.merchants;
  invitations =
      update (λ i. i.invitation_id == j.challenge.invitation_id) (used_invitation input.used_at)
        t.invitations;
  challenges =
      update (λ c. c.challenge_id == input.challenge_id) (used_challenge input.used_at)
        t.challenges;
  clients =
      record { client = new_client input j; status = active; last_token_at = none } ∷ t.clients;
}

abbrev pub consume_joined :
    Consumption
    → Option Joined
    → PartnerTables
    → Result StoreError (Option OauthClientRecord × PartnerTables)
consume_joined input none t = ok (none, t)
consume_joined input (some j) t = do
  throw_if (is_empty j.invitation.scopes) (StoreError.other "23514")
  throw_if (any (λ (c : ClientRow). c.client_id == input.client_id) t.clients)
      (StoreError.other "23505")
  ok (some (new_client input j), consumed input j t)

unfoldable pub consume_challenge_and_create_oauth_client :
    Consumption → PartnerTables → Result StoreError (Option OauthClientRecord × PartnerTables)
consume_challenge_and_create_oauth_client input t =
    consume_joined input (usable_challenge input.challenge_id input.used_at t) t
