-- ===== src/Partners/Clients.antt =====
-- What the constraints of the partner tables keep true (src/database.ts, migrations/001 and 005).
use perk_os_nayori_platform.Prelude.{
  String, ◌≡◌, refl, inl, inr, false, ◌&&◌, Option, none, some, List, [], ◌∷◌, arith, ◌==◌,
  Option-cases, any, ok,
}
use mathlib.Core.Path.{subst}
use perk_os_nayori_platform.Prelude.Table.Keys.{IsUnique, update-IsUnique}
use perk_os_nayori_platform.Partners.{
  InvitationRow, ChallengeRow, ClientRow, PartnerTables, OauthClientRecord, merchant_key,
  invitation_key, challenge_key, client_key, takes_hash, is_active, invitation_clash, upsert,
  provision_merchant, insert_partner_invitation, insert_wallet_auth_challenge,
  record_oauth_token_issued,
}
use perk_os_nayori_platform.Partners.Consuming.{
  Consumption, used_invitation, used_challenge, usable_challenge, consumed,
  consume_challenge_and_create_oauth_client,
}
use perk_os_nayori_platform.Partners.Reach.{Step, provision, invite, challenge, consume, token}
use perk_os_nayori_platform.Partners.Upserts.{hash_key, upsert-IsUnique}

abbrev pub token_key : InvitationRow → String
token_key i = i.token_digest

-- Ids, API key hashes and token digests are unique.
pub record IsConsistent (t : PartnerTables) : Type 0 where
  pub merchant_ids : IsUnique merchant_key t.merchants
  pub api_key_hashes : IsUnique hash_key t.merchants
  pub invitation_ids : IsUnique invitation_key t.invitations
  pub token_digests : IsUnique token_key t.invitations
  pub challenge_ids : IsUnique challenge_key t.challenges
  pub client_ids : IsUnique client_key t.clients

no_clash :
    (id token_digest : String) (t : List InvitationRow)
    → any (invitation_clash id token_digest) t ≡ false
    → (any (λ x. invitation_key x == id) t ≡ false)
      × (any (λ x. token_key x == token_digest) t ≡ false)
no_clash id token_digest [] h = (refl, refl)
no_clash id token_digest (r ∷ t) h =
    let (a, b) = no_clash id token_digest t (ground arith) in (ground arith, ground arith)

consume-IsConsistent :
    (input : Consumption) (result : Option OauthClientRecord) (t t' : PartnerTables)
    → consume_challenge_and_create_oauth_client input t ≡ ok (result, t')
    → IsConsistent t
    → IsConsistent t'
unfolding consume_challenge_and_create_oauth_client
consume-IsConsistent input result t t' h c =
    elim (Option-cases (usable_challenge input.challenge_id input.used_at t)) [
      | inl gone ↦ let e : t ≡ t' = ground arith in subst IsConsistent e c
      | inr (j, usable) ↦
          let e : consumed input j t ≡ t' = ground arith in
          subst IsConsistent e (record {
            merchant_ids = c.merchant_ids;
            api_key_hashes = c.api_key_hashes;
            invitation_ids =
                update-IsUnique invitation_key _ (used_invitation input.used_at) t.invitations
                  (λ r. refl) c.invitation_ids;
            token_digests =
                update-IsUnique token_key _ (used_invitation input.used_at) t.invitations
                  (λ r. refl) c.token_digests;
            challenge_ids =
                update-IsUnique challenge_key _ (used_challenge input.used_at) t.challenges
                  (λ r. refl) c.challenge_ids;
            client_ids = (ground arith, c.client_ids);
          })
    ]

-- Whatever the store's methods are called with, no two merchants share an id or an API key hash,
-- no two invitations an id or a token digest, and no two challenges or clients an id: each
-- statement that commits keeps this, the upsert of a merchant included.
pub Step-IsConsistent : (t t' : PartnerTables) → Step t t' → IsConsistent t → IsConsistent t'
unfolding provision_merchant insert_partner_invitation insert_wallet_auth_challenge
    record_oauth_token_issued
Step-IsConsistent t t' (provision new h) c =
    let free : any (takes_hash new.merchant.merchant_id new.api_key_hash) t.merchants ≡ false =
      ground arith in
    let (u, v) = upsert-IsUnique new t.merchants free c.merchant_ids c.api_key_hashes in
    let e : record t { merchants = upsert new t.merchants } ≡ t' = ground arith in
    subst IsConsistent e (record {
      merchant_ids = u;
      api_key_hashes = v;
      invitation_ids = c.invitation_ids;
      token_digests = c.token_digests;
      challenge_ids = c.challenge_ids;
      client_ids = c.client_ids;
    })
Step-IsConsistent t t' (invite new token_digest h) c =
    let (a, b) = no_clash new.invitation_id token_digest t.invitations (ground arith) in
    let row : InvitationRow = record {
      invitation = new;
      token_digest = token_digest;
      used_at = none;
    } in
    let e : record t { invitations = row ∷ t.invitations } ≡ t' = ground arith in
    subst IsConsistent e (record {
      merchant_ids = c.merchant_ids;
      api_key_hashes = c.api_key_hashes;
      invitation_ids = (a, c.invitation_ids);
      token_digests = (b, c.token_digests);
      challenge_ids = c.challenge_ids;
      client_ids = c.client_ids;
    })
Step-IsConsistent t t' (challenge new h) c =
    let row : ChallengeRow = record {
      challenge_id = new.challenge_id;
      invitation_id = new.invitation_id;
      merchant_id = new.merchant_id;
      wallet_address = new.wallet_address;
      network = new.network;
      message = new.message;
      expires_at = new.challenge_expires_at;
      used_at = none;
    } in
    let e : record t { challenges = row ∷ t.challenges } ≡ t' = ground arith in
    subst IsConsistent e (record {
      merchant_ids = c.merchant_ids;
      api_key_hashes = c.api_key_hashes;
      invitation_ids = c.invitation_ids;
      token_digests = c.token_digests;
      challenge_ids = (ground arith, c.challenge_ids);
      client_ids = c.client_ids;
    })
Step-IsConsistent t t' (consume input result h) c = consume-IsConsistent input result t t' h c
Step-IsConsistent t t' (token id issued_at h) c = subst IsConsistent h (record {
  merchant_ids = c.merchant_ids;
  api_key_hashes = c.api_key_hashes;
  invitation_ids = c.invitation_ids;
  token_digests = c.token_digests;
  challenge_ids = c.challenge_ids;
  client_ids =
      update-IsUnique client_key (λ (x : ClientRow). x.client_id == id && is_active x.status)
        (λ (x : ClientRow). record x { last_token_at = some issued_at }) t.clients (λ r. refl)
        c.client_ids;
})
