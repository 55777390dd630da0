-- ===== src/Settlement/Validation.antt =====
-- Who calls, and which payment the call proves (src/settlement.ts: `authenticate`, `validateQuote`,
-- `validate`, `validateMpp`, `verify`, `verifyMpp`).
use perk_os_nayori_platform.Prelude.{
  ℕ, ◌*◌, ◌/◌, String, Bool, false, not, ◌&&◌, Option, none, some, ◌==◌, ltb, eqb, if◌then◌else◌,
  includes, Result, ok, err, ◌>>=◌, ◌>>◌, throw_if, or_throw,
}
use perk_os_nayori_platform.Prelude.Json.{Value}
use perk_os_nayori_platform.Limiter.{RateLimitResult, Windows, consume}
use perk_os_nayori_platform.Merchant.{MerchantRecord}
use perk_os_nayori_platform.Auth.{OauthScope, AuthError}
use perk_os_nayori_platform.Ledger.{QuoteStatus, StoredQuoteRecord, Ledger}
use perk_os_nayori_platform.Ledger.Quotes.{find_stored_quote}
use perk_os_nayori_platform.Signing.{VerifiedQuoteToken}
use perk_os_nayori_platform.Settlement.{
  Failure, service, thrown, VerifiedPayment, PaymentVerification, ValidatedPayment, ValidatedQuote,
  Config, Services, Moments, World, Answer,
}
use perk_os_nayori_platform.Settlement.Public.{truthy}

abbrev pub auth_failure : AuthError → Failure
auth_failure AuthError.insufficient_scope = service "insufficient_scope" 403 none
auth_failure _ = service "unauthorized" 401 none

-- `quoteMatchesStored`
unfoldable pub quote_matches_stored : VerifiedQuoteToken → StoredQuoteRecord → String → Bool
quote_matches_stored token r signed_token_hash =
    let quote = token.quote in
    r.signed_token_hash == signed_token_hash
    && r.audience == token.audience
    && r.request_method == quote.method
    && r.canonical_url == quote.url
    && r.body_hash == quote.body_sha256
    && r.network == quote.network
    && r.asset_id == quote.asset
    && r.amount_atomic == quote.amount
    && r.pay_to == quote.pay_to
    && eqb r.issued_at (quote.issued_at * 1000)
    && eqb r.expires_at (quote.expires_at * 1000)

-- The quote's status lets the call go on.
abbrev pub is_available : Bool → ℕ → QuoteStatus → ℕ → Bool
is_available allow_reserved now QuoteStatus.issued expires_at = not (ltb expires_at now)
is_available allow_reserved now QuoteStatus.reserved expires_at = allow_reserved
is_available allow_reserved now _ expires_at = false

module _ (config : Config) (services : Services) where
  abbrev limit : MerchantRecord → RateLimitResult × Windows → World → Answer MerchantRecord
  limit merchant (rate, windows) w =
      let w' = record w { windows = windows } in
      if rate.allowed
      then (ok merchant, w')
      else (err (service "rate_limited" 429 (some rate.retry_after_seconds)), w')

  -- `authenticate`, by what the authenticator answers
  abbrev pub admit : ℕ → Result AuthError MerchantRecord → World → Answer MerchantRecord
  admit now (err e) w = (err (auth_failure e), w)
  admit now (ok merchant) w =
      limit merchant
        (consume config.payment_rate_limit_per_minute merchant.merchant_id now w.windows) w

  unfoldable pub authenticate : ℕ → Option String → OauthScope → World → Answer MerchantRecord
  authenticate now authorization required_scope w =
      admit now (services.authenticate authorization required_scope) w

  unfoldable pub check_stored :
      Moments
      → MerchantRecord
      → VerifiedQuoteToken
      → String
      → Bool
      → Option StoredQuoteRecord
      → Result Failure ValidatedQuote
  unfolding quote_matches_stored
  check_stored m merchant token signed_token_hash allow_reserved none =
      err (service "quote_record_mismatch" 422 none)
  check_stored m merchant token signed_token_hash allow_reserved (some stored) = do
    throw_if (not (quote_matches_stored token stored signed_token_hash))
        (service "quote_record_mismatch" 422 none)
    throw_if (not (is_available allow_reserved m.checked_at stored.status stored.expires_at))
        (service "quote_unavailable" 409 none)
    ok (record { merchant = merchant; token = token; signed_token_hash = signed_token_hash })

  -- The token is of the merchant, for one of its audiences, and on the configured network.
  abbrev pub is_of_merchant : MerchantRecord → VerifiedQuoteToken → Bool
  is_of_merchant merchant token =
      token.merchant_id == merchant.merchant_id
      && token.quote.merchant_id == merchant.merchant_id
      && includes merchant.allowed_audiences token.audience
      && token.quote.network == services.x402_network config.stacks_network

  -- `validateQuote`, on the tables that it reads
  unfoldable pub validate_quote :
      Moments → MerchantRecord → String → Bool → Ledger → Result Failure ValidatedQuote
  unfolding check_stored
  validate_quote m merchant signed_quote allow_reserved db = do
    let signed_token_hash = services.sha256 signed_quote
    token ←
        or_throw (services.verify_token signed_quote (m.verified_at / 1000))
          (service "invalid_signed_quote" 422 none)
    throw_if (not (is_of_merchant merchant token)) (service "quote_policy_mismatch" 422 none)
    check_stored m merchant token signed_token_hash allow_reserved
        (find_stored_quote token.quote_id merchant.merchant_id db)

  -- The reason that a verifier gives, or the one that stands for its other errors.
  abbrev pub checked_payment :
      String → Result (Option String) VerifiedPayment → Result Failure VerifiedPayment
  checked_payment otherwise (ok payment) = ok payment
  checked_payment otherwise (err (some reason)) = err (service reason 422 none)
  checked_payment otherwise (err none) = err (service otherwise 422 none)

  -- `payment.sponsored || !payment.transactionId`
  unfoldable pub unsponsored : ValidatedQuote → VerifiedPayment → Result Failure ValidatedPayment
  unsponsored q payment = do
    throw_if payment.sponsored (service "sponsorship_not_supported" 422 none)
    transaction_id ←
        or_throw (truthy payment.transaction_id) (service "sponsorship_not_supported" 422 none)
    ok (record {
      merchant = q.merchant;
      token = q.token;
      payment = payment;
      transaction_id = transaction_id;
      signed_token_hash = q.signed_token_hash;
    })

  -- `validate` after `authenticate`
  unfoldable pub validate_payment :
      Moments → Value → Bool → MerchantRecord → Ledger → Result Failure ValidatedPayment
  unfolding validate_quote unsponsored
  validate_payment m input allow_reserved merchant db = do
    request ← or_throw (services.parse_payment input) (service "invalid_request" 400 none)
    q ← validate_quote m merchant request.signed_quote allow_reserved db
    payment ←
        checked_payment "payment_verification_failed"
          (services.verifier request q.token.quote (m.proved_at / 1000))
    unsponsored q payment

  -- `validateMpp` after `authenticate`
  unfoldable pub validate_mpp_payment :
      Moments → Value → Bool → MerchantRecord → Ledger → Result Failure ValidatedPayment
  unfolding validate_quote unsponsored
  validate_mpp_payment m input allow_reserved merchant db = do
    request ← or_throw (services.parse_mpp_payment input) (service "invalid_request" 400 none)
    q ← validate_quote m merchant request.signed_quote allow_reserved db
    challenge ←
        or_throw (services.mpp_challenge q.token.quote (services.hostname q.token.quote.url))
          (thrown "createNayoriMppUsdcStacksChallenge")
    payment ←
        checked_payment "mpp_payment_verification_failed"
          (services.mpp_verifier request challenge q.token.quote (m.proved_at / 1000))
    unsponsored q payment

  abbrev pub as_payment_verification : ValidatedPayment → PaymentVerification
  as_payment_verification v = record {
    quote_id = v.token.quote_id;
    merchant_id = v.merchant.merchant_id;
    network = v.payment.x402_network;
    asset = v.payment.asset;
    amount = v.payment.amount;
    payer = v.payment.payer;
    pay_to = v.payment.pay_to;
    txid = v.transaction_id;
  }

  -- The tables as a call finds them when it reads the quote.
  abbrev pub at_find : Moments → World → World
  at_find m w = record w { ledger = m.before_find w.ledger }

  -- `authenticate`, and then what `validate` or `validateMpp` makes of the payment.
  abbrev pub validated :
      (Moments → Value → Bool → MerchantRecord → Ledger → Result Failure ValidatedPayment)
      → Moments
      → Value
      → Bool
      → Answer MerchantRecord
      → Answer ValidatedPayment
  validated check m input allow_reserved (err e, w) = (err e, w)
  validated check m input allow_reserved (ok merchant, w) =
      (check m input allow_reserved merchant (at_find m w).ledger, at_find m w)

  abbrev answer_verification : Answer ValidatedPayment → Answer PaymentVerification
  answer_verification (err e, w) = (err e, w)
  answer_verification (ok v, w) = (ok (as_payment_verification v), w)

  unfoldable pub verify_payment :
      Moments → Option String → Value → World → Answer PaymentVerification
  unfolding authenticate validate_payment
  verify_payment m authorization input w = answer_verification (
      validated validate_payment m input false
        (authenticate m.consumed_at authorization OauthScope.payments_verify w))

  unfoldable pub verify_mpp : Moments → Option String → Value → World → Answer PaymentVerification
  unfolding authenticate validate_mpp_payment
  verify_mpp m authorization input w = answer_verification (
      validated validate_mpp_payment m input false
        (authenticate m.consumed_at authorization OauthScope.payments_verify w))
