-- ===== src/ExternalOauth/Laws.antt =====
-- Which external access tokens are accepted (src/external-oauth.ts).
use Prim.Native.String
use perk_os_nayori_platform.Prelude.{
  String, ◌≡◌, refl, sym, ap, ◌∙◌, inl, inr, true, false, not, Option, none, some, arith,
  Option-cases, any, includes, ok,
}
use perk_os_nayori_platform.Prelude.Text.{
  strip_prefix, starts_with, strip_prefix-append, strip_prefix-append_both,
}
use perk_os_nayori_platform.Prelude.Json.{find_field, as_text}
use perk_os_nayori_platform.Merchant.{MerchantRecord}
use perk_os_nayori_platform.Auth.{OauthScope}
use perk_os_nayori_platform.Oauth.{is_client_id}
use perk_os_nayori_platform.Oauth.Scopes.{scope_text, oauth_scopes, IsDistinct, set_size-IsDistinct}
use perk_os_nayori_platform.Oauth.Tokens.{Jwt, OauthClaims, scopes_of, is_access_token}
use perk_os_nayori_platform.ExternalOauth.{
  is_stacks_address, claims_from_verification, verify_external_access_token,
  external_token_authenticated, external_authenticator,
}

-- The claims that a JWT has to have.
pub record AreClaims (jwt : Jwt) (claims : OauthClaims) : Type 0 where
  pub access_token : is_access_token jwt.typ ≡ true
  pub sub : as_text (find_field "sub" jwt.payload) ≡ some claims.merchant_id
  pub client : as_text (find_field "client_id" jwt.payload) ≡ some claims.client_id
  pub wallet : as_text (find_field "wallet_address" jwt.payload) ≡ some claims.wallet_address
  pub client_pattern : is_client_id claims.client_id ≡ true
  pub wallet_pattern : is_stacks_address claims.wallet_address ≡ true
  pub scopes : claims.scopes ≡ scopes_of (as_text (find_field "scope" jwt.payload))
  pub distinct : IsDistinct claims.scopes
  pub known : any (λ scope. not (includes oauth_scopes scope)) claims.scopes ≡ false

verified-AreClaims :
    (jwt : Jwt) (claims : OauthClaims)
    → claims_from_verification (some jwt) ≡ some claims
    → AreClaims jwt claims
unfolding claims_from_verification
verified-AreClaims jwt claims h =
    let scopes = scopes_of (as_text (find_field "scope" jwt.payload)) in
    elim (Option-cases (as_text (find_field "sub" jwt.payload))) [
      | inl missing ↦ ground arith
      | inr (sub, a) ↦ elim (Option-cases (as_text (find_field "client_id" jwt.payload))) [
        | inl missing ↦ ground arith
        | inr (client, b) ↦
            elim (Option-cases (as_text (find_field "wallet_address" jwt.payload))) [
              | inl missing ↦ ground arith
              | inr (wallet, c) ↦
                  let distinct = set_size-IsDistinct scopes (ground arith) in
                  let e : record {
                    client_id = client;
                    merchant_id = sub;
                    wallet_address = wallet;
                    scopes = scopes;
                  }
                      ≡ claims =
                    ground arith in
                  rw (sym e) (record {
                    access_token = ground arith;
                    sub = a;
                    client = b;
                    wallet = c;
                    client_pattern = ground arith;
                    wallet_pattern = ground arith;
                    scopes = refl;
                    distinct = distinct;
                    known = ground arith;
                  })
            ]
      ]
    ]

module _ (sha256 : String → String) (find_by_hash : String → Option MerchantRecord)
    (find_merchant : String → Option MerchantRecord) (jwt_verify : String → Option Jwt) where
  external_bearer_token :
      (token : String) (required : OauthScope)
      → starts_with token "ny_mk_" ≡ false
      → external_authenticator sha256 find_by_hash find_merchant
          (verify_external_access_token jwt_verify)
          (some (String.◌++◌ "Bearer " token))
          required
        ≡ external_token_authenticated sha256 find_by_hash find_merchant
            (verify_external_access_token jwt_verify)
            token
            required
  unfolding external_authenticator
  external_bearer_token token required h =
      let p : strip_prefix "Bearer ny_mk_" (String.◌++◌ "Bearer " token)
          ≡ strip_prefix "ny_mk_" token =
        strip_prefix-append_both "Bearer " "ny_mk_" token in
      let q = strip_prefix-append "Bearer " token in ground (arith, p, q)

  -- A bearer token that is no API key is accepted for a scope only if `jose` verifies it, it is an
  -- access token whose client id and Stacks address have the right form, its scopes are different
  -- ones that the service knows with the required one among them, and its subject is an active
  -- merchant, which is then the caller.
  pub external_token_sound :
      (token : String) (required : OauthScope) (m : MerchantRecord)
      → starts_with token "ny_mk_" ≡ false
      → external_authenticator sha256 find_by_hash find_merchant
          (verify_external_access_token jwt_verify)
          (some (String.◌++◌ "Bearer " token))
          required
        ≡ ok m
      → (jwt : Jwt) × (claims : OauthClaims) × (jwt_verify token ≡ some jwt)
        × AreClaims jwt claims
        × (includes claims.scopes (scope_text required) ≡ true)
        × (find_merchant claims.merchant_id ≡ some m)
  unfolding external_token_authenticated verify_external_access_token
  external_token_sound token required m api h =
      let accepted = sym (external_bearer_token token required api) ∙ h in
      elim (Option-cases (jwt_verify token)) [
        | inl bad ↦
            let none_ : claims_from_verification none ≡ none =
              unfold claims_from_verification in refl in
            ground arith
        | inr (jwt, verified) ↦ elim (Option-cases (claims_from_verification (some jwt))) [
          | inl bad ↦ ground arith
          | inr (claims, read) ↦
              let a = verified-AreClaims jwt claims read in
              elim (Option-cases (find_merchant claims.merchant_id)) [
                | inl gone ↦ ground arith
                | inr (m', merchant) ↦
                    (jwt, claims, verified, a, ground arith, merchant ∙ ap some (ground arith))
              ]
        ]
      ]
