-- ===== src/Auth/Laws.antt =====
-- Who the API-key authenticator lets in (src/auth.ts, src/merchant.ts).
use Prim.Native.String
use perk_os_nayori_platform.Prelude.{
  String, ◌≡◌, ap, ◌∙◌, ◌↔◌, inl, inr, true, Option, none, some, arith, Option-cases, ok,
}
use perk_os_nayori_platform.Prelude.Text.{strip_prefix, strip_prefix_sound, strip_prefix-append}
use perk_os_nayori_platform.Merchant.{
  MerchantRecord, is_api_key, hash_merchant_api_key, parse_bearer_api_key,
}
use perk_os_nayori_platform.Auth.{OauthScope, api_key_authenticator}

-- An authorization is accepted exactly if it is `Bearer ` and a well-formed API key whose hash
-- belongs to an active merchant, and then as that merchant; the required scope plays no part.
pub api_key_authenticator_iff :
    (sha256 : String → String) (find : String → Option MerchantRecord)
    (authorization : Option String) (scope : OauthScope) (m : MerchantRecord)
    → (api_key_authenticator sha256 find authorization scope ≡ ok m) ↔ (
        (key : String) × (authorization ≡ some (String.◌++◌ "Bearer " key))
        × (is_api_key key ≡ true)
        × (find (sha256 key) ≡ some m))
unfolding api_key_authenticator parse_bearer_api_key hash_merchant_api_key
api_key_authenticator_iff sha256 find none scope m = (λ h. cc, λ (key, e, _, _). cc)
api_key_authenticator_iff sha256 find (some a) scope m = (
  λ h. elim (Option-cases (strip_prefix "Bearer " a)) [
    | inl absent ↦ ground arith
    | inr (key, stripped) ↦ (
      key,
      ap some (strip_prefix_sound "Bearer " a key stripped),
      ground arith,
      elim (Option-cases (find (sha256 key))) [
        | inl unknown ↦ ground arith
        | inr (m', known) ↦ known ∙ ap some (ground arith)
      ],
    )
  ],
  λ (key, e, good, known).
      let whole : a ≡ String.◌++◌ "Bearer " key = ground arith in
      let stripped : strip_prefix "Bearer " a ≡ some key =
        rw whole (strip_prefix-append "Bearer " key) in
      ground arith,
)
