-- ===== src/Examples/Calls.antt =====
-- The theorems on the limiter, the merchants, the credentials and the tokens, at concrete calls.
use perk_os_nayori_platform.Prelude.{
  ◌+◌, ◌≤◌, String, ◌≡◌, refl, ◌↔◌, true, Option, none, some, [], ◌∷◌, arith, ok,
}
use Prim.Native.String
use perk_os_nayori_platform.Prelude.Map.{get}
use perk_os_nayori_platform.Limiter.{WindowState, consume, admitted}
use perk_os_nayori_platform.Limiter.Laws.{admitted_bound, refused_retry}
use perk_os_nayori_platform.Merchant.{
  Network, Asset, MerchantRoute, MerchantRecord, QuoteRequest, Url, is_api_key, ResolvedQuotePolicy,
  resolve_quote_policy,
}
use perk_os_nayori_platform.Merchant.Policy.{Serves, resolve_quote_policy_iff}
use perk_os_nayori_platform.Auth.{OauthScope, api_key_authenticator}
use perk_os_nayori_platform.Auth.Laws.{api_key_authenticator_iff}
use perk_os_nayori_platform.Signing.{
  NayoriX402Quote, VerifiedQuoteToken, Claims, claims_of, sign, verify, read_claims,
}
use perk_os_nayori_platform.Signing.Laws.{IsQuoteToken, verify-sign, verify_sound}

abbrev window : WindowState
window = record { count = 1; started_at_ms = 1000 }

admitted_bound_example :
    admitted 2 "nayori-public-resource"
        (("nayori-public-resource", 1005) ∷ ("other", 1006) ∷ ("nayori-public-resource", 1007) ∷ [])
        (("nayori-public-resource", window) ∷ [])
      + 1
    ≤ 2
unfolding get
admitted_bound_example =
    admitted_bound 2 "nayori-public-resource"
      (("nayori-public-resource", 1005) ∷ ("other", 1006) ∷ ("nayori-public-resource", 1007) ∷ [])
      window (("nayori-public-resource", window) ∷ []) refl (omega arith)
      (omega arith, (omega arith, (omega arith, tt)))

refused_retry_example :
    (1 ≤ 59)
    × (59 ≤ 60)
    × ((consume 1 "nayori-public-resource" 2000 (("nayori-public-resource", window) ∷ [])).1
        ≡ ("nayori-public-resource", window) ∷ [])
    × ((consume 1 "nayori-public-resource" 61000
          (("nayori-public-resource", window) ∷ [])).0.allowed
        ≡ true)
unfolding get consume
refused_retry_example =
    refused_retry 1 "nayori-public-resource" 2000 window (("nayori-public-resource", window) ∷ [])
      refl (omega arith) refl

abbrev pub route : MerchantRoute
route = record {
  method = "GET";
  path_prefix = "/v1";
  audience = "shop";
  network = Network.mainnet;
  asset = Asset.usdcx;
  amount = "100";
  pay_to = "SP1";
  ttl_seconds = 60;
}

abbrev pub merchant : MerchantRecord
merchant = record {
  merchant_id = "nayori-public-resource";
  allowed_origins = "https://acme.example" ∷ [];
  allowed_audiences = "shop" ∷ [];
  recipient_allowlist = "SP1" ∷ [];
  routes = ("items", route) ∷ [];
}

abbrev pub quote_request : QuoteRequest
quote_request = record {
  route_id = "items";
  method = "GET";
  url = "https://acme.example/v1/items";
  body = none;
}

abbrev pub parse_url : String → Url
parse_url u = record {
  protocol = "https:";
  origin = "https://acme.example";
  pathname = "/v1/items";
}

abbrev policy : ResolvedQuotePolicy
policy = record { route = route; canonical_url = "https://acme.example/v1/items" }

resolve_quote_policy_iff_example :
    (resolve_quote_policy some parse_url merchant quote_request Network.mainnet 300 ≡ ok policy)
    ↔ Serves some parse_url merchant quote_request Network.mainnet 300 policy
resolve_quote_policy_iff_example =
    resolve_quote_policy_iff some parse_url merchant quote_request Network.mainnet 300 policy

abbrev find_merchant : String → Option MerchantRecord
find_merchant key_hash = some merchant

api_key_authenticator_iff_example :
    (api_key_authenticator
        (λ key. key)
        find_merchant
        (some "Bearer ny_mk_0123456789012345678901234567890123456789abc")
        OauthScope.payments_settle
      ≡ ok merchant)
    ↔ ((key : String) × ◌≡◌ {A = Option String}
          (some "Bearer ny_mk_0123456789012345678901234567890123456789abc")
          (some (String.◌++◌ "Bearer " key))
        × (is_api_key key ≡ true)
        × (find_merchant key ≡ some merchant))
api_key_authenticator_iff_example =
    api_key_authenticator_iff (λ key. key) find_merchant
      (some "Bearer ny_mk_0123456789012345678901234567890123456789abc") OauthScope.payments_settle
      merchant

abbrev pub quote : NayoriX402Quote
quote = record {
  quote_id = "nq_1";
  merchant_id = "nayori-public-resource";
  method = "GET";
  url = "https://acme.example/a";
  body_sha256 = "00000000000000000000000000000000000000000000000000000000000000b0";
  network = "stacks:1";
  payment_asset = "usdcx";
  asset = "usdcx";
  amount = "100";
  pay_to = "SP1";
  issued_at = 1;
  expires_at = 61;
}

abbrev pub token : VerifiedQuoteToken
token = record {
  merchant_id = "nayori-public-resource";
  audience = "shop";
  quote_id = "nq_1";
  issued_at = 1;
  expires_at = 61;
  quote = quote;
}

verify-sign_example :
    verify (λ signed now. some (claims_of token)) (sign (λ c. "signed") token) 30 ≡ some token
verify-sign_example =
    verify-sign (λ c. "signed") (λ signed now. some (claims_of token)) token 30 refl refl

verify_sound_example :
    (c : Claims) × ◌≡◌ {A = Option Claims} (some (claims_of token)) (some c) × IsQuoteToken c token
unfolding claims_of read_claims verify
verify_sound_example = verify_sound (λ signed now. some (claims_of token)) "signed" 30 token refl
