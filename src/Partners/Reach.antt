-- ===== src/Partners/Reach.antt =====
-- The partner tables under any sequence of the store's statements and transactions, by any number
-- of processes (src/database.ts).
use perk_os_nayori_platform.Prelude.{ℕ, String, ◌≡◌, Option, ok}
use perk_os_nayori_platform.Partners.{
  MerchantRow, PartnerInvitationRecord, WalletAuthChallengeRecord, OauthClientRecord, PartnerTables,
  provision_merchant, insert_partner_invitation, insert_wallet_auth_challenge,
  record_oauth_token_issued,
}
use perk_os_nayori_platform.Partners.Consuming.{
  Consumption, consume_challenge_and_create_oauth_client,
}

pub data Step (t t' : PartnerTables) : Type 0 where
  provision : (new : MerchantRow) → provision_merchant new t ≡ ok (tt, t') → Step t t'
  invite :
      (new : PartnerInvitationRecord) (token_digest : String)
      → insert_partner_invitation new token_digest t ≡ ok (tt, t')
      → Step t t'
  challenge :
      (new : WalletAuthChallengeRecord)
      → insert_wallet_auth_challenge new t ≡ ok (tt, t')
      → Step t t'
  consume :
      (input : Consumption) (result : Option OauthClientRecord)
      → consume_challenge_and_create_oauth_client input t ≡ ok (result, t')
      → Step t t'
  token : (id : String) (issued_at : ℕ) → record_oauth_token_issued id issued_at t ≡ t' → Step t t'

pub data Reach (t : PartnerTables) : PartnerTables → Type 0 where
  here : Reach t t
  then : {t' t'' : PartnerTables} → Reach t t' → Step t' t'' → Reach t t''
