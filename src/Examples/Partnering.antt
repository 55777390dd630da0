-- ===== src/Examples/Partnering.antt =====
-- The theorems on partners, OAuth and public payments, at concrete calls.
use perk_os_nayori_platform.Prelude.{
  String, ◌≡◌, refl, ◌≢◌, ◌↔◌, none, some, List, [], ◌∷◌, All, ok,
}
use perk_os_nayori_platform.Prelude.Table.{lookup, update}
use perk_os_nayori_platform.Merchant.{Network, MerchantRecord}
use perk_os_nayori_platform.Partners.{
  RowStatus, InvitationRow, ChallengeRow, OauthClientRecord, PartnerTables,
  record_oauth_token_issued,
}
use perk_os_nayori_platform.Partners.Consuming.{
  Consumption, usable_challenge, consume_challenge_and_create_oauth_client,
}
use perk_os_nayori_platform.Partners.Reach.{Step, Reach}
use perk_os_nayori_platform.Partners.Laws.{invitation_used_once}
use perk_os_nayori_platform.Partners.Clients.{IsConsistent, Step-IsConsistent}
use perk_os_nayori_platform.Partners.Refinement.{Move, view, Step-Move}
use perk_os_nayori_platform.Oauth.Scopes.{
  IsAskedOf, normalize_scopes, IsDistinct, IsGranted, normalize_scopes_iff,
}

abbrev pub merchant : MerchantRecord
merchant = record {
  merchant_id = "nayori-public-resource";
  allowed_origins = [];
  allowed_audiences = [];
  recipient_allowlist = [];
  routes = [];
}

abbrev pub invitation : InvitationRow
invitation = record {
  invitation = record {
    invitation_id = "ni_1";
    merchant_id = "nayori-public-resource";
    scopes = "payments:read" ∷ "payments:settle" ∷ [];
    expires_at = 90000;
  };
  token_digest = "td1";
  used_at = none;
}

abbrev pub challenge : String → ChallengeRow
challenge id = record {
  challenge_id = id;
  invitation_id = "ni_1";
  merchant_id = "nayori-public-resource";
  wallet_address = "SP1";
  network = Network.mainnet;
  message = "sign this";
  expires_at = 80000;
  used_at = none;
}

abbrev pub first_id : String
first_id = "nc_00000000000000000000000000000001"

abbrev pub second_id : String
second_id = "nc_00000000000000000000000000000002"

abbrev pub invited : PartnerTables
invited = record {
  merchants = record { merchant = merchant; status = RowStatus.active; api_key_hash = "h1" } ∷ [];
  invitations = invitation ∷ [];
  challenges = challenge first_id ∷ challenge second_id ∷ [];
  clients = [];
}

abbrev pub consumption : String → String → Consumption
consumption challenge_id client_id = record {
  challenge_id = challenge_id;
  client_id = client_id;
  secret_digest = "d1";
  used_at = 50000;
}

abbrev new_client : OauthClientRecord
new_client = record {
  client_id = "c1";
  merchant_id = "nayori-public-resource";
  wallet_address = "SP1";
  secret_digest = "d1";
  scopes = "payments:read" ∷ "payments:settle" ∷ [];
}

abbrev joined : PartnerTables
joined = record {
  merchants = invited.merchants;
  invitations = record invitation { used_at = some 50000 } ∷ [];
  challenges = record (challenge first_id) { used_at = some 50000 } ∷ challenge second_id ∷ [];
  clients = record { client = new_client; status = RowStatus.active; last_token_at = none } ∷ [];
}

abbrev token_issued : PartnerTables
token_issued = record joined {
  clients =
      record { client = new_client; status = RowStatus.active; last_token_at = some 60000 } ∷ [];
}

invitation_used_once_example :
    consume_challenge_and_create_oauth_client (consumption second_id "c2") token_issued
    ≡ ok (none, token_issued)
unfolding consume_challenge_and_create_oauth_client usable_challenge lookup update
    record_oauth_token_issued
invitation_used_once_example =
    invitation_used_once "ni_1" (consumption first_id "c1") (consumption second_id "c2") new_client
      invited joined token_issued refl refl (Reach.then Reach.here (Step.token "c1" 60000 refl))
      refl

invited-IsConsistent : IsConsistent invited
invited-IsConsistent = record {
  merchant_ids = (refl, tt);
  api_key_hashes = (refl, tt);
  invitation_ids = (refl, tt);
  token_digests = (refl, tt);
  challenge_ids = (refl, (refl, tt));
  client_ids = tt;
}

Step-IsConsistent_example : IsConsistent joined
unfolding consume_challenge_and_create_oauth_client usable_challenge lookup update
Step-IsConsistent_example =
    Step-IsConsistent invited joined
      (Step.consume (consumption first_id "c1") (some new_client) refl) invited-IsConsistent

Step-Move_example : Move (view invited) (view joined)
unfolding consume_challenge_and_create_oauth_client usable_challenge lookup update
Step-Move_example =
    Step-Move invited joined (Step.consume (consumption first_id "c1") (some new_client) refl)

abbrev read_only : List String
read_only = "payments:read" ∷ []

normalize_scopes_iff_example :
    (normalize_scopes (some "payments:read") new_client.scopes ≡ some read_only) ↔ (
      IsAskedOf (some "payments:read") new_client.scopes read_only
      × (read_only ≢ [])
      × IsDistinct read_only
      × All (IsGranted new_client.scopes) read_only)
normalize_scopes_iff_example =
    normalize_scopes_iff (some "payments:read") new_client.scopes read_only
