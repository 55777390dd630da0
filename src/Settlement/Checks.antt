-- ===== src/Settlement/Checks.antt =====
-- What a validated payment has gone through (src/settlement.ts).
use perk_os_nayori_platform.Prelude.{
  ℕ, ◌*◌, ◌/◌, ◌≤◌, String, ◌≡◌, sym, ap, ◌∙◌, ◌↔◌, ◌⊎◌, inl, inr, Bool, true, some, arith, eq_iff,
  Option-cases, includes, ok,
}
use perk_os_nayori_platform.Merchant.{MerchantRecord}
use perk_os_nayori_platform.Ledger.{StoredQuoteRecord, QuoteStatus, Ledger}
use perk_os_nayori_platform.Ledger.Quotes.{find_stored_quote}
use perk_os_nayori_platform.Signing.{VerifiedQuoteToken}
use perk_os_nayori_platform.Settlement.{Config, Services, Moments, ValidatedQuote}
use perk_os_nayori_platform.Settlement.Validation.{
  quote_matches_stored, is_available, check_stored, is_of_merchant, validate_quote,
}

-- The stored quote is the one that the token is of, column by column.
pub record Agrees (token : VerifiedQuoteToken) (r : StoredQuoteRecord) (hash : String)
    : Type 0 where
  pub signed_token : r.signed_token_hash ≡ hash
  pub audience : r.audience ≡ token.audience
  pub method : r.request_method ≡ token.quote.method
  pub url : r.canonical_url ≡ token.quote.url
  pub body : r.body_hash ≡ token.quote.body_sha256
  pub network : r.network ≡ token.quote.network
  pub asset : r.asset_id ≡ token.quote.asset
  pub amount : r.amount_atomic ≡ token.quote.amount
  pub payee : r.pay_to ≡ token.quote.pay_to
  pub issued : r.issued_at ≡ token.quote.issued_at * 1000
  pub expires : r.expires_at ≡ token.quote.expires_at * 1000

pub matches-Agrees :
    (token : VerifiedQuoteToken) (r : StoredQuoteRecord) (hash : String)
    → (quote_matches_stored token r hash ≡ true) ↔ Agrees token r hash
unfolding quote_matches_stored
matches-Agrees token r hash = (
  λ h. record {
    signed_token = ground (arith, eq_iff r.signed_token_hash hash);
    audience = ground (arith, eq_iff r.audience token.audience);
    method = ground (arith, eq_iff r.request_method token.quote.method);
    url = ground (arith, eq_iff r.canonical_url token.quote.url);
    body = ground (arith, eq_iff r.body_hash token.quote.body_sha256);
    network = ground (arith, eq_iff r.network token.quote.network);
    asset = ground (arith, eq_iff r.asset_id token.quote.asset);
    amount = ground (arith, eq_iff r.amount_atomic token.quote.amount);
    payee = ground (arith, eq_iff r.pay_to token.quote.pay_to);
    issued = ground arith;
    expires = ground arith;
  },
  λ a. ground (
    arith,
    a,
    eq_iff r.signed_token_hash hash,
    eq_iff r.audience token.audience,
    eq_iff r.request_method token.quote.method,
    eq_iff r.canonical_url token.quote.url,
    eq_iff r.body_hash token.quote.body_sha256,
    eq_iff r.network token.quote.network,
    eq_iff r.asset_id token.quote.asset,
    eq_iff r.amount_atomic token.quote.amount,
    eq_iff r.pay_to token.quote.pay_to,
  ),
)

-- The quote is issued and not expired, or reserved where the call allows that.
abbrev pub IsAvailable : Bool → ℕ → StoredQuoteRecord → Type 0
IsAvailable allow_reserved now r =
    ((r.status ≡ QuoteStatus.issued) × (now ≤ r.expires_at))
    ⊎ ((r.status ≡ QuoteStatus.reserved) × (allow_reserved ≡ true))

by_status :
    (allow_reserved : Bool) (now : ℕ) (status : QuoteStatus) (expires_at : ℕ)
    → (is_available allow_reserved now status expires_at ≡ true) ↔ (
        ((status ≡ QuoteStatus.issued) × (now ≤ expires_at))
        ⊎ ((status ≡ QuoteStatus.reserved) × (allow_reserved ≡ true)))
by_status allow_reserved now QuoteStatus.issued expires_at = (λ h. ground arith, λ h. ground arith)
by_status allow_reserved now QuoteStatus.reserved expires_at =
    (λ h. ground arith, λ h. ground arith)
by_status allow_reserved now QuoteStatus.consumed expires_at =
    (λ h. ground arith, λ h. ground arith)
by_status allow_reserved now QuoteStatus.expired expires_at = (λ h. ground arith, λ h. ground arith)
by_status allow_reserved now QuoteStatus.revoked expires_at = (λ h. ground arith, λ h. ground arith)

status-IsAvailable :
    (allow_reserved : Bool) (now : ℕ) (r : StoredQuoteRecord)
    → (is_available allow_reserved now r.status r.expires_at ≡ true)
      ↔ IsAvailable allow_reserved now r
status-IsAvailable allow_reserved now r = by_status allow_reserved now r.status r.expires_at

module _ (config : Config) (services : Services) where
  -- The token of a signed quote that is good for a merchant, with the row that it was issued as.
  pub record IsValidQuote (m : Moments) (merchant : MerchantRecord) (signed_quote : String)
      (allow_reserved : Bool) (db : Ledger) (token : VerifiedQuoteToken) : Type 0 where
    pub verified : services.verify_token signed_quote (m.verified_at / 1000) ≡ some token
    pub of_merchant : token.merchant_id ≡ merchant.merchant_id
    pub quoted_for : token.quote.merchant_id ≡ merchant.merchant_id
    pub audience : includes merchant.allowed_audiences token.audience ≡ true
    pub network : token.quote.network ≡ services.x402_network config.stacks_network
    pub stored : StoredQuoteRecord
    pub found : find_stored_quote token.quote_id merchant.merchant_id db ≡ some stored
    pub matching : Agrees token stored (services.sha256 signed_quote)
    pub available : IsAvailable allow_reserved m.checked_at stored

  abbrev pub as_quote : MerchantRecord → VerifiedQuoteToken → String → ValidatedQuote
  as_quote merchant token signed_quote = record {
    merchant = merchant;
    token = token;
    signed_token_hash = services.sha256 signed_quote;
  }

  validate_quote_sound :
      (m : Moments) (merchant : MerchantRecord) (signed_quote : String) (allow_reserved : Bool)
      (db : Ledger) (q : ValidatedQuote)
      → validate_quote config services m merchant signed_quote allow_reserved db ≡ ok q
      → (token : VerifiedQuoteToken) × IsValidQuote m merchant signed_quote allow_reserved db token
        × (q ≡ as_quote merchant token signed_quote)
  unfolding validate_quote check_stored
  validate_quote_sound m merchant signed_quote allow_reserved db q h =
      elim (Option-cases (services.verify_token signed_quote (m.verified_at / 1000))) [
        | inl refused ↦ ground arith
        | inr (token, verified) ↦
            elim (Option-cases (find_stored_quote token.quote_id merchant.merchant_id db)) [
              | inl absent ↦ ground arith
              | inr (stored, found) ↦ (
                token,
                record {
                  verified = verified;
                  of_merchant = ground (arith, eq_iff token.merchant_id merchant.merchant_id);
                  quoted_for = ground (arith, eq_iff token.quote.merchant_id merchant.merchant_id);
                  audience = ground arith;
                  network = ground (
                    arith,
                    eq_iff token.quote.network (services.x402_network config.stacks_network),
                  );
                  stored = stored;
                  found = found;
                  matching =
                      (matches-Agrees token stored (services.sha256 signed_quote)).0 (ground arith);
                  available =
                      (status-IsAvailable allow_reserved m.checked_at stored).0 (ground arith);
                },
                ground arith,
              )
            ]
      ]

  validate_quote_complete :
      (m : Moments) (merchant : MerchantRecord) (signed_quote : String) (allow_reserved : Bool)
      (db : Ledger) (token : VerifiedQuoteToken)
      → IsValidQuote m merchant signed_quote allow_reserved db token
      → validate_quote config services m merchant signed_quote allow_reserved db
        ≡ ok (as_quote merchant token signed_quote)
  unfolding validate_quote check_stored
  validate_quote_complete m merchant signed_quote allow_reserved db token valid =
      let matching =
        (matches-Agrees token valid.stored (services.sha256 signed_quote)).1 valid.matching in
      let available =
        (status-IsAvailable allow_reserved m.checked_at valid.stored).1 valid.available in
      let of_merchant : is_of_merchant config services merchant token ≡ true = ground (
        arith,
        valid.of_merchant,
        valid.quoted_for,
        valid.audience,
        valid.network,
        eq_iff token.merchant_id merchant.merchant_id,
        eq_iff token.quote.merchant_id merchant.merchant_id,
        eq_iff token.quote.network (services.x402_network config.stacks_network),
      ) in
      rw (valid.verified, valid.found) (ground (arith, matching, available, of_merchant))

  -- A signed quote is accepted exactly if the signer verifies it, its token is of the merchant, for
  -- one of its audiences and on the configured network, and the merchant has a stored quote that
  -- agrees with the token in every column, and is issued and not expired, or, for a settle call, reserved.
  pub validate_quote_iff :
      (m : Moments) (merchant : MerchantRecord) (signed_quote : String) (allow_reserved : Bool)
      (db : Ledger) (q : ValidatedQuote)
      → (validate_quote config services m merchant signed_quote allow_reserved db ≡ ok q) ↔ (
          (token : VerifiedQuoteToken) × IsValidQuote m merchant signed_quote allow_reserved db
            token
          × (q ≡ as_quote merchant token signed_quote))
  validate_quote_iff m merchant signed_quote allow_reserved db q = (
    validate_quote_sound m merchant signed_quote allow_reserved db q,
    λ (token, valid, e).
        validate_quote_complete m merchant signed_quote allow_reserved db token valid
        ∙ ap ok (sym e),
  )
