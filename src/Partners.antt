-- ===== src/Partners.antt =====
-- The tables of merchants, partner invitations, wallet challenges and OAuth clients, and the methods
-- of `PostgresDatabase` on them (src/database.ts, migrations/001, 002 and 005). An INSERT that breaks
-- a constraint is an error and changes nothing; the lengths of the varchar columns are not modelled.
pub mod Consuming
pub mod Reach
pub mod Laws
pub mod Upserts
pub mod Clients
pub mod Refinement
use mathlib.Core.Option
use perk_os_nayori_platform.Prelude.{
  ℕ, ◌*◌, String, Bool, true, false, not, ◌&&◌, ◌||◌, Option, none, some, List, [], ◌∷◌, map, ◌==◌,
  leb, if◌then◌else◌, any, Result, ok, ◌>>=◌, ◌>>◌, throw_if,
}
use perk_os_nayori_platform.Prelude.Table.{lookup, update}
use perk_os_nayori_platform.Prelude.Text.{is_hex, repeats}
use perk_os_nayori_platform.Merchant.{Network, MerchantRecord}
use perk_os_nayori_platform.Ledger.{StoreError, is_found}

pub data RowStatus : Type 0 where
  active disabled : RowStatus

pub record MerchantRow : Type 0 where
  pub merchant : MerchantRecord
  pub status : RowStatus
  pub api_key_hash : String

pub record PartnerInvitationRecord : Type 0 where
  pub invitation_id : String
  pub merchant_id : String
  pub scopes : List String
  pub expires_at : ℕ

pub record InvitationRow : Type 0 where
  pub invitation : PartnerInvitationRecord
  pub open invitation use *
  pub token_digest : String
  pub used_at : Option ℕ

pub record WalletAuthChallengeRecord : Type 0 where
  pub invitation : PartnerInvitationRecord
  pub open invitation use *
  pub challenge_id : String
  pub wallet_address : String
  pub network : Network
  pub message : String
  pub challenge_expires_at : ℕ

pub record ChallengeRow : Type 0 where
  pub challenge_id : String
  pub invitation_id : String
  pub merchant_id : String
  pub wallet_address : String
  pub network : Network
  pub message : String
  pub expires_at : ℕ
  pub used_at : Option ℕ

pub record OauthClientRecord : Type 0 where
  pub client_id : String
  pub merchant_id : String
  pub wallet_address : String
  pub secret_digest : String
  pub scopes : List String

pub record ClientRow : Type 0 where
  pub client : OauthClientRecord
  pub open client use *
  pub status : RowStatus
  pub last_token_at : Option ℕ

pub record PartnerTables : Type 0 where
  pub merchants : List MerchantRow
  pub invitations : List InvitationRow
  pub challenges : List ChallengeRow
  pub clients : List ClientRow

abbrev pub merchant_key : MerchantRow → String
merchant_key m = m.merchant.merchant_id

abbrev pub invitation_key : InvitationRow → String
invitation_key i = i.invitation_id

abbrev pub challenge_key : ChallengeRow → String
challenge_key c = c.challenge_id

abbrev pub client_key : ClientRow → String
client_key c = c.client_id

abbrev pub is_active : RowStatus → Bool
is_active active = true
is_active disabled = false

abbrev pub is_empty : List String → Bool
is_empty [] = true
is_empty (x ∷ xs) = false

abbrev active_merchant : Option MerchantRow → Option MerchantRecord
active_merchant none = none
active_merchant (some m) = if is_active m.status then some m.merchant else none

unfoldable pub find_active_merchant_by_api_key_hash : String → PartnerTables → Option MerchantRecord
find_active_merchant_by_api_key_hash hash t =
    active_merchant (lookup (λ (m : MerchantRow). m.api_key_hash) hash t.merchants)

unfoldable pub find_active_merchant_by_id : String → PartnerTables → Option MerchantRecord
find_active_merchant_by_id id t = active_merchant (lookup merchant_key id t.merchants)

-- Another merchant holds the hash: the UNIQUE constraint of `api_key_hash`.
abbrev pub takes_hash : String → String → MerchantRow → Bool
takes_hash id hash m = m.api_key_hash == hash && not (m.merchant.merchant_id == id)

abbrev pub is_merchant : String → MerchantRow → Bool
is_merchant id m = m.merchant.merchant_id == id

-- `INSERT … ON CONFLICT (merchant_id) DO UPDATE`
abbrev pub upsert : MerchantRow → List MerchantRow → List MerchantRow
upsert new t =
    if any (is_merchant new.merchant.merchant_id) t
    then update (is_merchant new.merchant.merchant_id) (λ old. new) t
    else new ∷ t

unfoldable pub provision_merchant :
    MerchantRow → PartnerTables → Result StoreError (Unit {0} × PartnerTables)
provision_merchant new t = do
  throw_if (not (repeats 64 is_hex new.api_key_hash)) (StoreError.other "23514")
  throw_if (any (takes_hash new.merchant.merchant_id new.api_key_hash) t.merchants)
      (StoreError.other "23505")
  ok (tt, record t { merchants = upsert new t.merchants })

abbrev pub invitation_clash : String → String → InvitationRow → Bool
invitation_clash id token_digest i = i.invitation_id == id || i.token_digest == token_digest

unfoldable pub insert_partner_invitation :
    PartnerInvitationRecord → String → PartnerTables → Result StoreError (Unit {0} × PartnerTables)
insert_partner_invitation new token_digest t = do
  throw_if (is_empty new.scopes) (StoreError.other "23514")
  throw_if (any (invitation_clash new.invitation_id token_digest) t.invitations)
      (StoreError.other "23505")
  throw_if (not (any (is_merchant new.merchant_id) t.merchants)) (StoreError.other "23503")
  ok (
    tt,
    record t {
      invitations =
          record { invitation = new; token_digest = token_digest; used_at = none } ∷ t.invitations;
    },
  )

-- `used_at IS NULL AND expires_at >= $2`
abbrev pub is_usable : Option ℕ → ℕ → ℕ → Bool
is_usable used_at expires_at now = not (is_found used_at) && leb now expires_at

abbrev usable_invitation : ℕ → Option InvitationRow → Option PartnerInvitationRecord
usable_invitation now none = none
usable_invitation now (some i) =
    if is_usable i.used_at i.expires_at now then some i.invitation else none

unfoldable pub find_active_partner_invitation :
    String → ℕ → PartnerTables → Option PartnerInvitationRecord
find_active_partner_invitation token_digest now t =
    usable_invitation now
      (lookup (λ (i : InvitationRow). i.token_digest) token_digest t.invitations)

unfoldable pub insert_wallet_auth_challenge :
    WalletAuthChallengeRecord → PartnerTables → Result StoreError (Unit {0} × PartnerTables)
insert_wallet_auth_challenge new t = do
  throw_if (any (λ (c : ChallengeRow). c.challenge_id == new.challenge_id) t.challenges)
      (StoreError.other "23505")
  throw_if (not (any (λ (i : InvitationRow). i.invitation_id == new.invitation_id) t.invitations))
      (StoreError.other "23503")
  throw_if (not (any (is_merchant new.merchant_id) t.merchants)) (StoreError.other "23503")
  ok (
    tt,
    record t {
      challenges =
          record {
            challenge_id = new.challenge_id;
            invitation_id = new.invitation_id;
            merchant_id = new.merchant_id;
            wallet_address = new.wallet_address;
            network = new.network;
            message = new.message;
            expires_at = new.challenge_expires_at;
            used_at = none;
          }
          ∷ t.challenges;
    },
  )

abbrev active_client : Option ClientRow → Option OauthClientRecord
active_client none = none
active_client (some c) = if is_active c.status then some c.client else none

unfoldable pub find_active_oauth_client : String → PartnerTables → Option OauthClientRecord
find_active_oauth_client id t = active_client (lookup client_key id t.clients)

unfoldable pub record_oauth_token_issued : String → ℕ → PartnerTables → PartnerTables
record_oauth_token_issued id issued_at t = record t {
  clients =
      update (λ (c : ClientRow). c.client_id == id && is_active c.status)
        (λ (c : ClientRow). record c { last_token_at = some issued_at }) t.clients;
}
