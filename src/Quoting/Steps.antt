-- ===== src/Quoting/Steps.antt =====
-- The steps that a quote has gone through when it is issued (src/quotes.ts).
use perk_os_nayori_platform.Prelude.{
  String, ◌≡◌, refl, ap, ◌∙◌, inl, inr, Option, none, some, arith, Bool-cases, Result, ok, err,
  or_throw, >>=-eq-ok, Result-cases,
}
use mathlib.Core.Path.{subst}
use perk_os_nayori_platform.Prelude.Json.{Value}
use perk_os_nayori_platform.Limiter.{consume}
use perk_os_nayori_platform.Merchant.{
  MerchantRecord, QuoteRequest, PolicyError, ResolvedQuotePolicy, resolve_quote_policy,
}
use perk_os_nayori_platform.Merchant.Policy.{Serves, resolve_quote_policy_iff}
use perk_os_nayori_platform.Auth.{OauthScope}
use perk_os_nayori_platform.Ledger.Quotes.{insert_issued_quote}
use perk_os_nayori_platform.Signing.{NayoriX402Quote, VerifiedQuoteToken}
use perk_os_nayori_platform.Quoting.{
  Config, Services, Moments, World, Failure, IssuedQuoteResult, quote_input, token_of, quote_record,
  prepare, issue, checked_policy, store_quote,
}

or_throw-eq-ok : {E A : Type 0} (o : Option A) (e : E) {a : A} → or_throw o e ≡ ok a → o ≡ some a
or_throw-eq-ok none e h = cc
or_throw-eq-ok (some b) e h = cc

checked_policy-eq-ok :
    (r : Result PolicyError ResolvedQuotePolicy) {p : ResolvedQuotePolicy}
    → checked_policy r ≡ ok p
    → r ≡ ok p
checked_policy-eq-ok (ok q) h = cc
checked_policy-eq-ok (err e) h = cc

module _ (config : Config) (services : Services) where
  pub record IsPrepared (m : Moments) (merchant : MerchantRecord) (request : QuoteRequest)
      (token : VerifiedQuoteToken) : Type 0 where
    pub policy : ResolvedQuotePolicy
    pub served :
        Serves services.canonicalize services.parse_url merchant request config.stacks_network
          config.quote_max_ttl_seconds policy
    pub quote : NayoriX402Quote
    pub created :
        services.create_quote (quote_input config services m merchant request policy) ≡ some quote
    pub result :
        token
        ≡ token_of config services
            (quote_input config services m merchant request policy)
            policy
            quote

  pub prepare_sound :
      (m : Moments) (merchant : MerchantRecord) (input : Value) (request : QuoteRequest)
      (token : VerifiedQuoteToken)
      → prepare config services m merchant input ≡ ok (request, token)
      → IsPrepared m merchant request token
  unfolding prepare
  prepare_sound m merchant input request token h =
      let (request', parsed, h1) = >>=-eq-ok (or_throw (services.parse_request input) _) _ h in
      let (policy, checked, h2) =
        >>=-eq-ok
          (checked_policy (
            resolve_quote_policy services.canonicalize services.parse_url merchant request'
              config.stacks_network config.quote_max_ttl_seconds))
          _ h1 in
      let (quote, made, h3) =
        >>=-eq-ok
          (or_throw (services.create_quote (quote_input config services m merchant request' policy))
            _)
          _ h2 in
      let same : request' ≡ request = cc in
      let served =
        (resolve_quote_policy_iff services.canonicalize services.parse_url merchant request'
            config.stacks_network config.quote_max_ttl_seconds policy).0
          (checked_policy-eq-ok _ checked) in
      subst (λ rq. IsPrepared m merchant rq token) same
        (record {
          policy = policy;
          served = served;
          quote = quote;
          created = or_throw-eq-ok (services.create_quote _) _ made;
          result = cc;
        })

  store_sound :
      (m : Moments) (merchant : MerchantRecord)
      (p : Result Failure (QuoteRequest × VerifiedQuoteToken)) (w w' : World)
      (r : IssuedQuoteResult)
      → store_quote config services m merchant p w ≡ (ok r, w')
      → (request : QuoteRequest) × (token : VerifiedQuoteToken) × (p ≡ ok (request, token))
        × (r.signed_quote ≡ services.sign token)
        × (insert_issued_quote m.db_now
              (quote_record config services merchant token (services.sign token))
              (m.before_insert w.ledger)
            ≡ ok (tt, w'.ledger))
  store_sound m merchant (err e) w w' r h = cc
  store_sound m merchant (ok (request, token)) w w' r h =
      let inserted =
        insert_issued_quote m.db_now
          (quote_record config services merchant token (services.sign token))
          (m.before_insert w.ledger) in
      elim (Result-cases inserted) [
        | inr (e, broken) ↦ ground arith
        | inl ((_, db), done) ↦
            (request, token, refl, ground arith, done ∙ ap (λ d. ok (tt, d)) (ground arith))
      ]

  pub issue_sound :
      (m : Moments) (authorization : Option String) (input : Value) (w w' : World)
      (r : IssuedQuoteResult)
      → issue config services m authorization input w ≡ (ok r, w')
      → (merchant : MerchantRecord) × (request : QuoteRequest) × (token : VerifiedQuoteToken)
        × (services.authenticate authorization OauthScope.quotes_create ≡ ok merchant)
        × (prepare config services m merchant input ≡ ok (request, token))
        × (r.signed_quote ≡ services.sign token)
        × (insert_issued_quote m.db_now
              (quote_record config services merchant token (services.sign token))
              (m.before_insert w.ledger)
            ≡ ok (tt, w'.ledger))
  unfolding issue
  issue_sound m authorization input w w' r h =
      elim (Result-cases (services.authenticate authorization OauthScope.quotes_create)) [
        | inr (e, refused) ↦ ground arith
        | inl (merchant, known) ↦
            let limits =
              consume config.quote_rate_limit_per_minute merchant.merchant_id m.consumed_at
                w.windows in
            elim (Bool-cases limits.0.allowed) [
              | inr refused ↦ ground arith
              | inl allowed ↦
                  let (request, token, made, signed, stored) =
                    store_sound m merchant (prepare config services m merchant input)
                      (record w { windows = limits.1 }) w' r (ground arith) in
                  (merchant, request, token, known, made, signed, stored)
            ]
      ]
