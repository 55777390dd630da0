-- ===== src/Oauth/Registered.antt =====
-- Who is registered as an OAuth client (src/oauth.ts).
use Prim.Native.String
use perk_os_nayori_platform.Prelude.{
  ℕ, String, ◌≡◌, sym, ap, ◌∙◌, inl, inr, Bool, true, Option, none, some, arith, eq_iff,
  Option-cases, ok, Result-cases,
}
use perk_os_nayori_platform.Prelude.Json.{Value}
use perk_os_nayori_platform.Merchant.{Network}
use perk_os_nayori_platform.Partners.{
  WalletAuthChallengeRecord, PartnerTables, find_active_oauth_client,
}
use perk_os_nayori_platform.Partners.Consuming.{
  Joined, find_active_wallet_auth_challenge, consume_challenge_and_create_oauth_client,
}
use perk_os_nayori_platform.Partners.Laws.{IsUsable, consume_sound}
use perk_os_nayori_platform.Oauth.{
  OauthConfig, RegistrationRequest, parse_registration_request, RegisteredClient,
}
use perk_os_nayori_platform.Oauth.Registering.{
  normalize_hex, signed_challenge, consumption, register,
}

module _ (config : OauthConfig) (sha256 : String → String)
    (address_of : String → Network → Option String)
    (verify_rsv : String → String → String → Option Bool) where
  -- The wallet of the challenge has signed its message.
  pub record IsSigned (request : RegistrationRequest) (challenge : WalletAuthChallengeRecord)
      : Type 0 where
    pub wallet :
        address_of (normalize_hex request.public_key) config.stacks_network
        ≡ some challenge.wallet_address
    pub signed :
        verify_rsv challenge.message
          (normalize_hex request.public_key)
          (normalize_hex request.signature)
        ≡ some true

  signed_challenge-IsSigned :
      (now : ℕ) (input : Value) (t : PartnerTables) (challenge : WalletAuthChallengeRecord)
      → signed_challenge config sha256 address_of verify_rsv now input t ≡ ok challenge
      → (request : RegistrationRequest) × (parse_registration_request input ≡ some request)
        × (find_active_wallet_auth_challenge request.challenge_id now t ≡ some challenge)
        × IsSigned request challenge
  unfolding signed_challenge
  signed_challenge-IsSigned now input t challenge h =
      elim (Option-cases (parse_registration_request input)) [
        | inl bad ↦ ground arith
        | inr (q, parsed) ↦
            elim (Option-cases (find_active_wallet_auth_challenge q.challenge_id now t)) [
              | inl unknown ↦ ground arith
              | inr (c, found) ↦
                  let key = normalize_hex q.public_key in
                  let wallet = address_of key config.stacks_network in
                  let check = verify_rsv c.message key (normalize_hex q.signature) in
                  elim (Option-cases wallet) [
                    | inl thrown ↦ ground arith
                    | inr (w, has_wallet) ↦ elim (Option-cases check) [
                      | inl thrown ↦ ground arith
                      | inr (valid, checked) ↦
                          let same : c ≡ challenge = ground arith in
                          let ours : w ≡ c.wallet_address =
                            ground (arith, eq_iff w c.wallet_address) in
                          let good : valid ≡ true = ground arith in
                          (
                            q,
                            parsed,
                            found ∙ ap some same,
                            rw (sym same) (record {
                              wallet = has_wallet ∙ ap some ours;
                              signed = checked ∙ ap some good;
                            }),
                          )
                    ]
                  ]
            ]
      ]

  -- The client `r` is that of a signed challenge: `t` are the tables when the challenge was read,
  -- `t'` those when the client was made, and `t''` those after it.
  pub record IsRegistered (id secret : String) (now : ℕ) (input : Value) (t t' t'' : PartnerTables)
      (r : RegisteredClient) : Type 0 where
    pub request : RegistrationRequest
    pub challenge : WalletAuthChallengeRecord
    pub joined : Joined
    pub parsed : parse_registration_request input ≡ some request
    pub found : find_active_wallet_auth_challenge request.challenge_id now t ≡ some challenge
    pub signed : IsSigned request challenge
    pub usable : IsUsable challenge.challenge_id now t' joined
    pub its_id : r.client_id ≡ String.◌++◌ "ny_oc_" id
    pub its_secret : r.client_secret ≡ String.◌++◌ "ny_cs_" secret
    pub its_scopes : r.scopes ≡ joined.invitation.scopes
    pub its_wallet : r.wallet_address ≡ joined.challenge.wallet_address
    pub stored :
        find_active_oauth_client r.client_id t''
        ≡ some (record {
          client_id = r.client_id;
          merchant_id = joined.challenge.merchant_id;
          wallet_address = joined.challenge.wallet_address;
          secret_digest = sha256 r.client_secret;
          scopes = joined.invitation.scopes;
        })

  -- A client is registered only for a well-formed request whose challenge was in use when it was
  -- read, with the challenge's message signed by the key of the challenge's wallet, and only if the
  -- challenge, its invitation and its merchant can still be used when the client is made; the answer
  -- has the client's id and secret, the challenge's wallet and the invitation's scopes, and the
  -- tables then hold an active client with that id, those scopes and the digest of that secret.
  pub register_sound :
      (id secret : String) (now : ℕ) (input : Value) (t t' t'' : PartnerTables)
      (r : RegisteredClient)
      → register config sha256 address_of verify_rsv id secret now input t t' ≡ (ok r, t'')
      → IsRegistered id secret now input t t' t'' r
  unfolding register
  register_sound id secret now input t t' t'' r h =
      elim (Result-cases (signed_challenge config sha256 address_of verify_rsv now input t)) [
        | inr (e, refused) ↦ ground arith
        | inl (c, signed) ↦
            let input' = consumption sha256 id secret now c in
            let (q, parsed, found, is_signed) = signed_challenge-IsSigned now input t c signed in
            elim (Result-cases (consume_challenge_and_create_oauth_client input' t')) [
              | inr (e, refused) ↦ ground arith
              | inl ((none, s), conflict) ↦ ground arith
              | inl ((some client, s), made) ↦
                  let (j, usable, is_new, there) = consume_sound input' client t' s made in
                  let moved : s ≡ t'' = ground arith in
                  let its_id : r.client_id ≡ String.◌++◌ "ny_oc_" id = ground arith in
                  let its_secret : r.client_secret ≡ String.◌++◌ "ny_cs_" secret = ground arith in
                  record {
                    request = q;
                    challenge = c;
                    joined = j;
                    parsed = parsed;
                    found = found;
                    signed = is_signed;
                    usable = usable;
                    its_id = its_id;
                    its_secret = its_secret;
                    its_scopes = ground arith;
                    its_wallet = ground arith;
                    stored = rw (its_id, its_secret, sym moved) (there ∙ ap some is_new);
                  }
            ]
      ]
