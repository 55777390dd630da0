-- ===== src/Quoting.antt =====
-- The issuing of quotes (src/quotes.ts). The authenticator, the schema of requests, the SDK's
-- quotes, fingerprints and URL canonicalisation, `new URL`, SHA-256, the hash of a route
-- configuration, and the signer are parameters; the parts of the answer that only copy the signer's
-- and the SDK's values are left out.
pub mod Steps
pub mod Issuing
use perk_os_nayori_platform.Prelude.{
  ℕ, ◌+◌, ◌*◌, ◌/◌, String, Option, none, some, if◌then◌else◌, Result, ok, err, ◌>>=◌, ◌>>◌,
  or_throw,
}
use perk_os_nayori_platform.Prelude.Json.{Value}
use perk_os_nayori_platform.Limiter.{RateLimitResult, Windows, consume}
use perk_os_nayori_platform.Merchant.{
  Network, Asset, MerchantRoute, MerchantRecord, QuoteRequest, Url, PolicyError, unknown_route,
  ResolvedQuotePolicy, resolve_quote_policy,
}
use perk_os_nayori_platform.Auth.{OauthScope, AuthError, MerchantAuthenticator}
use perk_os_nayori_platform.Ledger.{IssuedQuoteRecord, Ledger, StoreError}
use perk_os_nayori_platform.Ledger.Quotes.{insert_issued_quote}
use perk_os_nayori_platform.Signing.{NayoriX402Quote, VerifiedQuoteToken}

-- A `QuoteServiceError` with its code, status and retry time, or any other error.
pub data Failure : Type 0 where
  service : String → ℕ → Option ℕ → Failure
  thrown : String → Failure

pub record Config : Type 0 where
  pub stacks_network : Network
  pub quote_max_ttl_seconds : ℕ
  pub quote_rate_limit_per_minute : ℕ

-- The argument of the SDK's `createNayoriX402Quote`.
pub record QuoteInput : Type 0 where
  pub quote_id : String
  pub merchant_id : String
  pub method : String
  pub url : String
  pub body : Option String
  pub network : Network
  pub asset : Asset
  pub amount : String
  pub pay_to : String
  pub issued_at : ℕ
  pub expires_at : ℕ

pub record Services : Type 0 where
  pub authenticate : MerchantAuthenticator
  pub parse_request : Value → Option QuoteRequest
  pub canonicalize : String → Option String
  pub parse_url : String → Url
  pub create_quote : QuoteInput → Option NayoriX402Quote
  pub fingerprint : NayoriX402Quote → String
  pub route_config_hash : MerchantRecord → String
  pub sign : VerifiedQuoteToken → String
  pub sha256 : String → String

-- The clock readings of a call, the id that it draws, and what other processes commit before it
-- uses the store.
pub record Moments : Type 0 where
  pub consumed_at : ℕ
  pub issued_at : ℕ
  pub db_now : ℕ
  pub new_quote_id : String
  pub before_insert : Ledger → Ledger

pub record World : Type 0 where
  pub ledger : Ledger
  pub windows : Windows

pub record IssuedQuoteResult : Type 0 where
  pub merchant_id : String
  pub route_id : String
  pub quote_id : String
  pub quote : NayoriX402Quote
  pub signed_quote : String

abbrev pub Answer : Type 0
Answer = Result Failure IssuedQuoteResult × World

abbrev pub auth_failure : AuthError → Failure
auth_failure AuthError.insufficient_scope = service "insufficient_scope" 403 none
auth_failure _ = service "unauthorized" 401 none

abbrev pub policy_failure : PolicyError → Failure
policy_failure unknown_route = service "route_not_found" 404 none
policy_failure _ = service "route_policy_denied" 403 none

abbrev pub checked_policy :
    Result PolicyError ResolvedQuotePolicy → Result Failure ResolvedQuotePolicy
checked_policy (ok policy) = ok policy
checked_policy (err e) = err (policy_failure e)

module _ (config : Config) (services : Services) where
  abbrev pub quote_input :
      Moments → MerchantRecord → QuoteRequest → ResolvedQuotePolicy → QuoteInput
  quote_input m merchant request policy =
      let issued_at = m.issued_at / 1000 in
      record {
        quote_id = m.new_quote_id;
        merchant_id = merchant.merchant_id;
        method = request.method;
        url = policy.canonical_url;
        body = request.body;
        network = policy.route.network;
        asset = policy.route.asset;
        amount = policy.route.amount;
        pay_to = policy.route.pay_to;
        issued_at = issued_at;
        expires_at = issued_at + policy.route.ttl_seconds;
      }

  -- The argument of `signer.sign`.
  abbrev pub token_of : QuoteInput → ResolvedQuotePolicy → NayoriX402Quote → VerifiedQuoteToken
  token_of input policy quote = record {
    merchant_id = input.merchant_id;
    audience = policy.route.audience;
    quote_id = input.quote_id;
    issued_at = input.issued_at;
    expires_at = input.expires_at;
    quote = quote;
  }

  unfoldable pub quote_record : MerchantRecord → VerifiedQuoteToken → String → IssuedQuoteRecord
  quote_record merchant token signed_quote = record {
    quote_id = token.quote_id;
    merchant_id = merchant.merchant_id;
    audience = token.audience;
    request_method = token.quote.method;
    canonical_url = token.quote.url;
    body_hash = token.quote.body_sha256;
    network = token.quote.network;
    asset_id = token.quote.asset;
    amount_atomic = token.quote.amount;
    pay_to = token.quote.pay_to;
    fingerprint = services.fingerprint token.quote;
    route_config_hash = services.route_config_hash merchant;
    signed_token_hash = services.sha256 signed_quote;
    issued_at = token.issued_at * 1000;
    expires_at = token.expires_at * 1000;
  }

  -- What is signed for a request, before it is stored.
  unfoldable pub prepare :
      Moments → MerchantRecord → Value → Result Failure (QuoteRequest × VerifiedQuoteToken)
  prepare m merchant input = do
    request ← or_throw (services.parse_request input) (service "invalid_request" 400 none)
    policy ← checked_policy (
        resolve_quote_policy services.canonicalize services.parse_url merchant request
          config.stacks_network config.quote_max_ttl_seconds)
    let quote_in = quote_input m merchant request policy
    quote ← or_throw (services.create_quote quote_in) (thrown "createNayoriX402Quote")
    ok (request, token_of quote_in policy quote)

  abbrev answer_inserted :
      IssuedQuoteResult → Result StoreError (Unit {0} × Ledger) → World → Answer
  answer_inserted result (err e) w = (err (thrown "insertIssuedQuote"), w)
  answer_inserted result (ok (_, db)) w = (ok result, record w { ledger = db })

  abbrev store_quote :
      Moments → MerchantRecord → Result Failure (QuoteRequest × VerifiedQuoteToken) → World → Answer
  store_quote m merchant (err e) w = (err e, w)
  store_quote m merchant (ok (request, token)) w =
      let signed_quote = services.sign token in
      let w' = record w { ledger = m.before_insert w.ledger } in
      answer_inserted
        (record {
          merchant_id = merchant.merchant_id;
          route_id = request.route_id;
          quote_id = token.quote_id;
          quote = token.quote;
          signed_quote = signed_quote;
        })
        (insert_issued_quote m.db_now (quote_record merchant token signed_quote) w'.ledger) w'

  abbrev limited : Moments → Value → MerchantRecord → RateLimitResult × Windows → World → Answer
  limited m input merchant (rate, windows) w =
      let w' = record w { windows = windows } in
      if rate.allowed
      then store_quote m merchant (prepare m merchant input) w'
      else (err (service "rate_limited" 429 (some rate.retry_after_seconds)), w')

  abbrev admitted : Moments → Value → Result AuthError MerchantRecord → World → Answer
  admitted m input (err e) w = (err (auth_failure e), w)
  admitted m input (ok merchant) w =
      limited m input merchant
        (consume config.quote_rate_limit_per_minute merchant.merchant_id m.consumed_at w.windows) w

  unfoldable pub issue : Moments → Option String → Value → World → Answer
  unfolding prepare quote_record
  issue m authorization input w =
      admitted m input (services.authenticate authorization OauthScope.quotes_create) w
