-- ===== src/Oauth/Issued.antt =====
-- Who is issued an access token, and that the service accepts it (src/oauth.ts).
use Prim.Native.String
use perk_os_nayori_platform.Prelude.{
  ℕ, ◌+◌, ◌*◌, ◌/◌, ◌<◌, String, ◌≡◌, refl, sym, ◌≢◌, inl, inr, true, false, not, Option, some,
  List, [], ◌∷◌, arith, Option-cases, eq-cases, any, All, includes, ok, Result-cases,
}
use perk_os_nayori_platform.Prelude.Text.{starts_with}
use perk_os_nayori_platform.Prelude.Words.{words, words-join, join}
use perk_os_nayori_platform.Prelude.Json.{string, number, find_field}
use perk_os_nayori_platform.Merchant.{MerchantRecord}
use perk_os_nayori_platform.Auth.{OauthScope}
use perk_os_nayori_platform.Partners.{
  OauthClientRecord, PartnerTables, find_active_oauth_client, find_active_merchant_by_id,
  find_active_merchant_by_api_key_hash, record_oauth_token_issued,
}
use perk_os_nayori_platform.Oauth.{OauthConfig}
use perk_os_nayori_platform.Oauth.Scopes.{
  scope_text, oauth_scopes, IsAskedOf, normalize_scopes, IsDistinct, IsGranted,
  normalize_scopes_iff, All-scope-word,
}
use perk_os_nayori_platform.Oauth.Digests.{
  Credentials, safe_digest_equal, safe_digest_equal_iff, parse_basic_authorization,
}
use perk_os_nayori_platform.Oauth.Tokens.{
  Jwt, access_jwt, verified_claims, verify_token, oauth_authenticator,
}
use perk_os_nayori_platform.Oauth.Access.{token-IsAccepted_iff}
use perk_os_nayori_platform.Oauth.Issuing.{
  TokenForm, TokenResponse, Grant, granted, issued_jwt, issue_token,
}

all_known :
    (allowed xs : List String)
    → All (IsGranted allowed) xs
    → any (λ scope. not (includes oauth_scopes scope)) xs ≡ false
all_known allowed [] h = refl
all_known allowed (x ∷ xs) ((known, mine), h) = ground (arith, all_known allowed xs h)

-- A token that was signed for some scopes verifies to the claims that it was signed with.
claims-access_jwt :
    (origin kid jti : String) (client : OauthClientRecord) (scopes : List String)
    (issued_at expires_at : ℕ)
    → All (IsGranted client.scopes) scopes
    → verified_claims (some (access_jwt origin kid jti client scopes issued_at expires_at))
      ≡ some (record {
        client_id = client.client_id;
        merchant_id = client.merchant_id;
        wallet_address = client.wallet_address;
        scopes = scopes;
      })
unfolding verified_claims access_jwt find_field
claims-access_jwt origin kid jti client scopes issued_at expires_at h =
    let read = words-join scopes (All-scope-word client.scopes scopes h) in
    let known = all_known client.scopes scopes h in rw (read, known) refl

All-includes_granted :
    (allowed xs : List String) (s : String)
    → All (IsGranted allowed) xs
    → includes xs s ≡ true
    → includes allowed s ≡ true
All-includes_granted allowed [] s h m = cc
All-includes_granted allowed (x ∷ xs) s ((known, mine), h) m = elim (eq-cases x s) [
  | inl same ↦ rw (sym same) mine
  | inr other ↦ All-includes_granted allowed xs s h (ground arith)
]

module _ (config : OauthConfig) (sha256 : String → String) (from_base64 : String → String)
    (kid : String) (jwt_sign : Jwt → String) where
  -- The credentials are those of the active client, and the scopes are its own.
  pub record IsGrantedTo (authorization : Option String) (form : TokenForm) (t : PartnerTables)
      (grant : Grant) : Type 0 where
    pub credentials : Credentials
    pub presented : parse_basic_authorization from_base64 authorization ≡ some credentials
    pub known : find_active_oauth_client credentials.client_id t ≡ some grant.client
    pub secret : sha256 credentials.secret ≡ grant.client.secret_digest
    pub requested : IsAskedOf form.scope grant.client.scopes grant.scopes
    pub distinct : IsDistinct grant.scopes
    pub something : grant.scopes ≢ []
    pub scopes : All (IsGranted grant.client.scopes) grant.scopes

  granted-IsGrantedTo :
      (authorization : Option String) (form : TokenForm) (t : PartnerTables) (grant : Grant)
      → granted sha256 from_base64 authorization form t ≡ ok grant
      → IsGrantedTo authorization form t grant
  unfolding granted
  granted-IsGrantedTo authorization form t grant h =
      elim (Option-cases (parse_basic_authorization from_base64 authorization)) [
        | inl bad ↦ ground arith
        | inr (c, presented) ↦ elim (Option-cases (find_active_oauth_client c.client_id t)) [
          | inl unknown ↦ ground arith
          | inr (client, known) ↦ elim (Option-cases (normalize_scopes form.scope client.scopes)) [
            | inl refused ↦ ground arith
            | inr (scopes, given) ↦
                let equal : safe_digest_equal (sha256 c.secret) client.secret_digest ≡ true =
                  ground arith in
                let (same, digest) =
                  (safe_digest_equal_iff (sha256 c.secret) client.secret_digest).0 equal in
                let (exactly, some_scope, distinct, all_granted) =
                  (normalize_scopes_iff form.scope client.scopes scopes).0 given in
                let e : record { client = client; scopes = scopes } ≡ grant = ground arith in
                rw (sym e) (record {
                  credentials = c;
                  presented = presented;
                  known = known;
                  secret = same;
                  requested = exactly;
                  distinct = distinct;
                  something = some_scope;
                  scopes = all_granted;
                })
          ]
        ]
      ]

  -- The claims of the token that a grant is given.
  pub record IsTokenFor (jti : String) (now : ℕ) (grant : Grant) (jwt : Jwt) : Type 0 where
    pub typ : jwt.typ ≡ some "at+jwt"
    pub key : jwt.kid ≡ kid
    pub issuer : find_field "iss" jwt.payload ≡ some (string config.service_origin)
    pub audience : find_field "aud" jwt.payload ≡ some (string config.service_origin)
    pub token_id : find_field "jti" jwt.payload ≡ some (string jti)
    pub subject : find_field "sub" jwt.payload ≡ some (string grant.client.merchant_id)
    pub client : find_field "client_id" jwt.payload ≡ some (string grant.client.client_id)
    pub wallet : find_field "wallet_address" jwt.payload ≡ some (string grant.client.wallet_address)
    pub scope : find_field "scope" jwt.payload ≡ some (string (join " " grant.scopes))
    pub issued_at : find_field "iat" jwt.payload ≡ some (number (now / 1000))
    pub expires_at :
        find_field "exp" jwt.payload
        ≡ some (number (now / 1000 + config.oauth_access_token_ttl_seconds))

  issued_jwt-IsTokenFor :
      (jti : String) (now : ℕ) (grant : Grant)
      → IsTokenFor jti now grant (issued_jwt config kid jti now grant)
  unfolding access_jwt find_field
  issued_jwt-IsTokenFor jti now grant = record {
    typ = refl;
    key = refl;
    issuer = refl;
    audience = refl;
    token_id = refl;
    subject = refl;
    client = refl;
    wallet = refl;
    scope = refl;
    issued_at = refl;
    expires_at = refl;
  }

  -- A token is issued only to a caller that presents the id of an active client and a secret with
  -- the digest that is stored for it; the token is signed for that client, with a nonempty list of
  -- different scopes that it has, those that were asked for or all of them, for the configured
  -- time from now, and the moment is recorded with the client.
  pub issue_token_sound :
      (jti : String) (authorization : Option String) (form : TokenForm) (now : ℕ)
      (t t' t'' : PartnerTables) (r : TokenResponse)
      → issue_token config sha256 from_base64 kid jwt_sign jti authorization form now t t'
        ≡ (ok r, t'')
      → (grant : Grant) × IsGrantedTo authorization form t grant
        × (jwt : Jwt) × (r.access_token ≡ jwt_sign jwt)
        × IsTokenFor jti now grant jwt
        × (r.scope ≡ join " " grant.scopes)
        × (t'' ≡ record_oauth_token_issued grant.client.client_id (now / 1000 * 1000) t')
  unfolding issue_token
  issue_token_sound jti authorization form now t t' t'' r h =
      elim (Result-cases (granted sha256 from_base64 authorization form t)) [
        | inr (e, refused) ↦ ground arith
        | inl (grant, given) ↦ (
          grant,
          granted-IsGrantedTo authorization form t grant given,
          issued_jwt config kid jti now grant,
          ground arith,
          issued_jwt-IsTokenFor jti now grant,
          ground arith,
          ground arith,
        )
      ]

  -- A token that was issued for a client is accepted, until the second that it expires in, for every
  -- scope that the answer names, as the client's merchant, as long as the client and the merchant
  -- are active with the data that they had: given that `jose` verifies what it signed until it
  -- expires, and that a signed token does not start like an API key.
  pub issued_token_accepted :
      (jti : String) (authorization : Option String) (form : TokenForm) (now later : ℕ)
      (t t' t'' u : PartnerTables) (r : TokenResponse) (grant : Grant) (m : MerchantRecord)
      (required : OauthScope) (jwt_verify : String → ℕ → Option Jwt)
      → granted sha256 from_base64 authorization form t ≡ ok grant
      → issue_token config sha256 from_base64 kid jwt_sign jti authorization form now t t'
        ≡ (ok r, t'')
      → later / 1000 < now / 1000 + config.oauth_access_token_ttl_seconds
      → (later / 1000 < now / 1000 + config.oauth_access_token_ttl_seconds
          → jwt_verify (jwt_sign (issued_jwt config kid jti now grant)) (later / 1000)
            ≡ some (issued_jwt config kid jti now grant))
      → starts_with (jwt_sign (issued_jwt config kid jti now grant)) "ny_mk_" ≡ false
      → find_active_oauth_client grant.client.client_id u ≡ some grant.client
      → find_active_merchant_by_id grant.client.merchant_id u ≡ some m
      → includes (words r.scope) (scope_text required) ≡ true
      → oauth_authenticator sha256
          (λ hash. find_active_merchant_by_api_key_hash hash u)
          (λ id. find_active_oauth_client id u)
          (λ id. find_active_merchant_by_id id u)
          (verify_token jwt_verify)
          later
          (some (String.◌++◌ "Bearer " r.access_token))
          required
        ≡ ok m
  unfolding issue_token verify_token
  issued_token_accepted jti authorization form now later t t' t'' u r grant m required jwt_verify
        given h time verifies other active_client active_merchant named =
      let jwt = issued_jwt config kid jti now grant in
      let g = granted-IsGrantedTo authorization form t grant given in
      let token : r.access_token ≡ jwt_sign jwt = ground (arith, given, h) in
      let scope : r.scope ≡ join " " grant.scopes = ground (arith, given, h) in
      let in_scopes : includes grant.scopes (scope_text required) ≡ true =
        rw
          (
            sym (
                words-join grant.scopes (All-scope-word grant.client.scopes grant.scopes g.scopes)),
            sym scope,
          )
          named in
      let claims =
        claims-access_jwt config.service_origin kid jti grant.client grant.scopes (now / 1000)
          (now / 1000 + config.oauth_access_token_ttl_seconds) g.scopes in
      rw token (
        (token-IsAccepted_iff sha256 _ _ _ (verify_token jwt_verify) later (jwt_sign jwt) required m
            other).1
          (record {
            claims = record {
              client_id = grant.client.client_id;
              merchant_id = grant.client.merchant_id;
              wallet_address = grant.client.wallet_address;
              scopes = grant.scopes;
            };
            client = grant.client;
            verified = rw (verifies time) claims;
            in_token = in_scopes;
            known = active_client;
            same_merchant = refl;
            same_wallet = refl;
            in_client =
                All-includes_granted grant.client.scopes grant.scopes (scope_text required) g.scopes
                  in_scopes;
            merchant = active_merchant;
          }))
