-- ===== src/Oauth/Access.antt =====
-- Which access tokens the OAuth authenticator accepts (src/oauth.ts).
use Prim.Native.String
use perk_os_nayori_platform.Prelude.{
  ℕ, ◌/◌, String, ◌≡◌, ap, ◌∙◌, ◌↔◌, inl, inr, true, false, Option, some, arith, eq_iff,
  Option-cases, ≡→eq, includes, ok,
}
use perk_os_nayori_platform.Prelude.Text.{
  strip_prefix, starts_with, strip_prefix-append, strip_prefix-append_both,
}
use perk_os_nayori_platform.Merchant.{MerchantRecord}
use perk_os_nayori_platform.Auth.{OauthScope}
use perk_os_nayori_platform.Partners.{OauthClientRecord}
use perk_os_nayori_platform.Oauth.Scopes.{scope_text}
use perk_os_nayori_platform.Oauth.Tokens.{OauthClaims, token_authenticated, oauth_authenticator}

module _ (sha256 : String → String) (find_by_hash : String → Option MerchantRecord)
    (find_client : String → Option OauthClientRecord)
    (find_merchant : String → Option MerchantRecord) (verify : String → ℕ → Option OauthClaims)
    (now : ℕ) where
  -- The token, the client that it names and the client's merchant are in order.
  pub record IsAccepted (token : String) (required : OauthScope) (m : MerchantRecord) : Type 0 where
    pub claims : OauthClaims
    pub client : OauthClientRecord
    pub verified : verify token (now / 1000) ≡ some claims
    pub in_token : includes claims.scopes (scope_text required) ≡ true
    pub known : find_client claims.client_id ≡ some client
    pub same_merchant : client.merchant_id ≡ claims.merchant_id
    pub same_wallet : client.wallet_address ≡ claims.wallet_address
    pub in_client : includes client.scopes (scope_text required) ≡ true
    pub merchant : find_merchant claims.merchant_id ≡ some m

  token_authenticated-IsAccepted :
      (token : String) (required : OauthScope) (m : MerchantRecord)
      → token_authenticated sha256 find_by_hash find_client find_merchant verify now token required
        ≡ ok m
      → IsAccepted token required m
  unfolding token_authenticated
  token_authenticated-IsAccepted token required m h =
      elim (Option-cases (verify token (now / 1000))) [
        | inl bad ↦ ground arith
        | inr (c, verified) ↦ elim (Option-cases (find_client c.client_id)) [
          | inl unknown ↦ ground arith
          | inr (client, known) ↦ elim (Option-cases (find_merchant c.merchant_id)) [
            | inl gone ↦ ground arith
            | inr (m', merchant) ↦ record {
              claims = c;
              client = client;
              verified = verified;
              in_token = ground arith;
              known = known;
              same_merchant = ground (arith, eq_iff client.merchant_id c.merchant_id);
              same_wallet = ground (arith, eq_iff client.wallet_address c.wallet_address);
              in_client = ground arith;
              merchant = merchant ∙ ap some (ground arith);
            }
          ]
        ]
      ]

  IsAccepted-token_authenticated :
      (token : String) (required : OauthScope) (m : MerchantRecord)
      → IsAccepted token required m
      → token_authenticated sha256 find_by_hash find_client find_merchant verify now token required
        ≡ ok m
  unfolding token_authenticated
  IsAccepted-token_authenticated token required m a =
      let c = a.claims in
      let client = a.client in
      ground (
        arith,
        a.verified,
        a.in_token,
        a.known,
        a.in_client,
        a.merchant,
        ≡→eq client.merchant_id c.merchant_id a.same_merchant,
        ≡→eq client.wallet_address c.wallet_address a.same_wallet,
      )

  -- What is no API key is read as a token.
  bearer_token :
      (token : String) (required : OauthScope)
      → starts_with token "ny_mk_" ≡ false
      → oauth_authenticator sha256 find_by_hash find_client find_merchant verify now
          (some (String.◌++◌ "Bearer " token))
          required
        ≡ token_authenticated sha256 find_by_hash find_client find_merchant verify now token
            required
  unfolding oauth_authenticator
  bearer_token token required h =
      let p : strip_prefix "Bearer ny_mk_" (String.◌++◌ "Bearer " token)
          ≡ strip_prefix "ny_mk_" token =
        strip_prefix-append_both "Bearer " "ny_mk_" token in
      let q = strip_prefix-append "Bearer " token in ground (arith, p, q)

  -- A bearer token that is no API key is accepted for a scope, as the merchant `m`, exactly if it
  -- verifies at the present second, names the scope, names a client that is active, has the token's
  -- merchant and wallet and still has the scope itself, and the token's merchant is active and is `m`.
  pub token-IsAccepted_iff :
      (token : String) (required : OauthScope) (m : MerchantRecord)
      → starts_with token "ny_mk_" ≡ false
      → (oauth_authenticator sha256 find_by_hash find_client find_merchant verify now
            (some (String.◌++◌ "Bearer " token))
            required
          ≡ ok m)
        ↔ IsAccepted token required m
  token-IsAccepted_iff token required m h = rw (bearer_token token required h) (
    token_authenticated-IsAccepted token required m,
    IsAccepted-token_authenticated token required m,
  )
