-- ===== src/Merchant.antt =====
-- Merchants, their routes and API keys (src/merchant.ts). The shapes that the zod schemas accept
-- are the records below; the schemas' bounds on text lengths and the patterns of ids are not
-- modelled. SHA-256, the SDK's URL canonicalisation and `new URL` are parameters.
pub mod Policy
use Prim.Native.String
use perk_os_nayori_platform.Prelude.{
  ℕ, String, Bool, true, false, not, ◌||◌, Option, none, some, List, ◌++◌, ◌==◌, ltb, if◌then◌else◌,
  includes, Result, ok, err, ◌>>=◌, ◌>>◌, throw_if, or_throw,
}
use perk_os_nayori_platform.Prelude.Map.{get}
use perk_os_nayori_platform.Prelude.Text.{
  is_base64url, matches, strip_prefix, starts_with, ends_with,
}

pub data Network : Type 0 where
  testnet mainnet : Network

pub data Asset : Type 0 where
  stx sbtc usdcx : Asset

pub record MerchantRoute : Type 0 where
  pub method : String
  pub path_prefix : String
  pub audience : String
  pub network : Network
  pub asset : Asset
  pub amount : String
  pub pay_to : String
  pub ttl_seconds : ℕ

pub record MerchantRecord : Type 0 where
  pub merchant_id : String
  pub allowed_origins : List String
  pub allowed_audiences : List String
  pub recipient_allowlist : List String
  pub routes : List (String × MerchantRoute)

pub record QuoteRequest : Type 0 where
  pub route_id : String
  pub method : String
  pub url : String
  pub body : Option String

-- The parts of a `URL` that the policy reads.
pub record Url : Type 0 where
  pub protocol : String
  pub origin : String
  pub pathname : String

-- `API_KEY_PATTERN`
abbrev pub is_api_key : String → Bool
is_api_key = matches "ny_mk_" 43 is_base64url

-- `hashMerchantApiKey`, with `none` for the error.
unfoldable pub hash_merchant_api_key : (String → String) → String → Option String
hash_merchant_api_key sha256 api_key = if is_api_key api_key then some (sha256 api_key) else none

-- `parseBearerApiKey`, with `none` for its errors.
abbrev checked_key : Option String → Option String
checked_key none = none
checked_key (some api_key) = if is_api_key api_key then some api_key else none

unfoldable pub parse_bearer_api_key : Option String → Option String
parse_bearer_api_key none = none
parse_bearer_api_key (some authorization) = checked_key (strip_prefix "Bearer " authorization)

unfoldable pub path_matches_prefix : String → String → Bool
unfolding strip_prefix ends_with
path_matches_prefix pathname prefix =
    pathname == prefix
    || starts_with pathname (if ends_with prefix b'/' then prefix else String.◌++◌ prefix "/")

abbrev pub same_network : Network → Network → Bool
same_network Network.testnet Network.testnet = true
same_network Network.mainnet Network.mainnet = true
same_network _ _ = false

-- The messages of the errors that `resolveQuotePolicy` throws, and what its callees throw.
pub data PolicyError : Type 0 where
  unknown_route route_policy_mismatch invalid_url : PolicyError

pub record ResolvedQuotePolicy : Type 0 where
  pub route : MerchantRoute
  pub canonical_url : String

-- `canonicalize` is the SDK's `canonicalizeNayoriX402ResourceUrl`, with `none` where it throws, and
-- `parse_url` is `new URL` on a canonical URL.
module _ (canonicalize : String → Option String) (parse_url : String → Url) where
  check_url :
      MerchantRecord → MerchantRoute → Option String → Result PolicyError ResolvedQuotePolicy
  check_url merchant route none = err invalid_url
  check_url merchant route (some canonical_url) = do
    let url = parse_url canonical_url
    throw_if (not (url.protocol == "https:")) route_policy_mismatch
    throw_if (not (includes merchant.allowed_origins url.origin)) route_policy_mismatch
    throw_if (not (path_matches_prefix url.pathname route.path_prefix)) route_policy_mismatch
    ok (record { route = route; canonical_url = canonical_url })

  unfoldable pub resolve_quote_policy :
      MerchantRecord → QuoteRequest → Network → ℕ → Result PolicyError ResolvedQuotePolicy
  unfolding check_url
  resolve_quote_policy merchant request configured_network maximum_ttl_seconds = do
    route ← or_throw (get request.route_id merchant.routes) unknown_route
    throw_if (not (route.method == request.method)) route_policy_mismatch
    throw_if (not (same_network route.network configured_network)) route_policy_mismatch
    throw_if (ltb maximum_ttl_seconds route.ttl_seconds) route_policy_mismatch
    throw_if (not (includes merchant.allowed_audiences route.audience)) route_policy_mismatch
    throw_if (not (includes merchant.recipient_allowlist route.pay_to)) route_policy_mismatch
    check_url merchant route (canonicalize request.url)
