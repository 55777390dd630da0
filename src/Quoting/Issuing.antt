-- ===== src/Quoting/Issuing.antt =====
-- What an issued quote is good for (src/quotes.ts, src/settlement.ts).
use perk_os_nayori_platform.Prelude.{
  ℕ, ◌*◌, ◌/◌, ◌≤◌, String, ◌≡◌, refl, sym, ap, ◌∙◌, inl, Bool, true, Option, some, arith, eq_refl,
  ≡→eq, includes, ok,
}
use mathlib.Core.Path.{subst}
use perk_os_nayori_platform.Prelude.Json.{Value}
use perk_os_nayori_platform.Prelude.Table.{lookup}
use perk_os_nayori_platform.Merchant.{Network, MerchantRecord, QuoteRequest}
use perk_os_nayori_platform.Auth.{OauthScope}
use perk_os_nayori_platform.Ledger.{IssuedQuoteRecord, Ledger}
use perk_os_nayori_platform.Ledger.Quotes.{insert_issued_quote, find_stored_quote, issued_row}
use perk_os_nayori_platform.Signing.{NayoriX402Quote, VerifiedQuoteToken}
use perk_os_nayori_platform.Quoting.{
  Config, Services, Moments, World, QuoteInput, IssuedQuoteResult, quote_input, quote_record,
  prepare, issue,
}
use perk_os_nayori_platform.Settlement
use perk_os_nayori_platform.Settlement.{ValidatedQuote}
use perk_os_nayori_platform.Settlement.Validation.{validate_quote, quote_matches_stored}
use perk_os_nayori_platform.Settlement.Checks.{
  IsValidQuote, matches-Agrees, validate_quote_iff, as_quote,
}
use perk_os_nayori_platform.Quoting.Steps.{IsPrepared, prepare_sound, issue_sound}

inserted_found :
    (db_now : ℕ) (new : IssuedQuoteRecord) (db db' : Ledger)
    → insert_issued_quote db_now new db ≡ ok (tt, db')
    → find_stored_quote new.quote_id new.merchant_id db' ≡ some (issued_row db_now new).stored
unfolding insert_issued_quote find_stored_quote lookup
inserted_found db_now new db db' h = ground (arith, eq_refl new.quote_id, eq_refl new.merchant_id)

-- What the SDK's quote takes over from its input, with `x402_network` for the network's name.
pub record IsFaithful (create_quote : QuoteInput → Option NayoriX402Quote)
    (x402_network : Network → String) : Type 0 where
  pub merchant :
      (i : QuoteInput) (q : NayoriX402Quote)
      → create_quote i ≡ some q
      → q.merchant_id ≡ i.merchant_id
  pub network :
      (i : QuoteInput) (q : NayoriX402Quote)
      → create_quote i ≡ some q
      → q.network ≡ x402_network i.network
  pub issued :
      (i : QuoteInput) (q : NayoriX402Quote) → create_quote i ≡ some q → q.issued_at ≡ i.issued_at
  pub expires :
      (i : QuoteInput) (q : NayoriX402Quote) → create_quote i ≡ some q → q.expires_at ≡ i.expires_at

subst2 :
    {A B : Type 0} (P : A → B → Type 0) {a a' : A} {b b' : B} → a ≡ a' → b ≡ b' → P a b → P a' b'
subst2 P {a} {b' = b'} e f h = subst (λ x. P x b') e (subst (P a) f h)

module _ (config : Config) (services : Services) (settling : Settlement.Config)
    (settlers : Settlement.Services) where
  issued_matches :
      (db_now : ℕ) (merchant : MerchantRecord) (token : VerifiedQuoteToken) (signed : String)
      (sha256 : String → String)
      → sha256 ≡ services.sha256
      → token.quote.issued_at ≡ token.issued_at
      → token.quote.expires_at ≡ token.expires_at
      → quote_matches_stored token
          (issued_row db_now (quote_record config services merchant token signed)).stored
          (sha256 signed)
        ≡ true
  unfolding quote_matches_stored quote_record
  issued_matches db_now merchant token signed sha256 hash issued expires =
      let digest : services.sha256 signed ≡ sha256 signed = ap (λ f. f signed) (sym hash) in
      ground (
        arith,
        ≡→eq (services.sha256 signed) (sha256 signed) digest,
        eq_refl token.audience,
        eq_refl token.quote.method,
        eq_refl token.quote.url,
        eq_refl token.quote.body_sha256,
        eq_refl token.quote.network,
        eq_refl token.quote.asset,
        eq_refl token.quote.amount,
        eq_refl token.quote.pay_to,
      )

  prepared-IsValidQuote :
      (m : Moments) (merchant : MerchantRecord) (request : QuoteRequest)
      (token : VerifiedQuoteToken) (db db' : Ledger) (sm : Settlement.Moments)
      (allow_reserved : Bool)
      → IsFaithful services.create_quote settlers.x402_network
      → settling.stacks_network ≡ config.stacks_network
      → settlers.sha256 ≡ services.sha256
      → settlers.verify_token (services.sign token) (sm.verified_at / 1000) ≡ some token
      → sm.checked_at ≤ token.expires_at * 1000
      → IsPrepared config services m merchant request token
      → insert_issued_quote m.db_now
          (quote_record config services merchant token (services.sign token))
          db
        ≡ ok (tt, db')
      → IsValidQuote settling settlers sm merchant (services.sign token) allow_reserved db' token
  unfolding quote_matches_stored quote_record
  prepared-IsValidQuote m merchant request token db db' sm allow_reserved faithful network hash
        verified live p stored =
      let new = quote_record config services merchant token (services.sign token) in
      let input = quote_input config services m merchant request p.policy in
      let mine : token.merchant_id ≡ merchant.merchant_id = ap (λ t. t.merchant_id) p.result in
      let owner : token.quote.merchant_id ≡ merchant.merchant_id =
        ap (λ t. t.quote.merchant_id) p.result ∙ faithful.merchant input p.quote p.created in
      let named : token.quote.network ≡ settlers.x402_network settling.stacks_network =
        ap (λ t. t.quote.network) p.result
        ∙ faithful.network input p.quote p.created
        ∙ ap settlers.x402_network (p.served.network ∙ sym network) in
      let heard : includes merchant.allowed_audiences token.audience ≡ true =
        ap (includes merchant.allowed_audiences) (ap (λ t. t.audience) p.result)
        ∙ p.served.audience in
      let issued : token.quote.issued_at ≡ token.issued_at =
        ap (λ t. t.quote.issued_at) p.result
        ∙ faithful.issued input p.quote p.created
        ∙ sym (ap (λ t. t.issued_at) p.result) in
      let expires : token.quote.expires_at ≡ token.expires_at =
        ap (λ t. t.quote.expires_at) p.result
        ∙ faithful.expires input p.quote p.created
        ∙ sym (ap (λ t. t.expires_at) p.result) in
      record {
        verified = verified;
        of_merchant = mine;
        quoted_for = owner;
        audience = heard;
        network = named;
        stored = (issued_row m.db_now new).stored;
        found = inserted_found m.db_now new db db' stored;
        matching =
            (matches-Agrees token (issued_row m.db_now new).stored
                (settlers.sha256 (services.sign token))).0
              (issued_matches m.db_now merchant token (services.sign token) settlers.sha256 hash
                issued expires);
        available = inl (refl, live);
      }

  -- A quote that was issued is accepted by the settlement service for the merchant that it was
  -- issued to, on the tables as its issuing left them and until it expires. The hypotheses are that
  -- the SDK's quote names the merchant, network and lifetime it was made for, that the signed token
  -- is verified to what was signed, and that both services have the same network and hash.
  pub issue_valid :
      (m : Moments) (authorization : Option String) (input : Value) (w w' : World)
      (r : IssuedQuoteResult) (merchant : MerchantRecord) (request : QuoteRequest)
      (token : VerifiedQuoteToken) (sm : Settlement.Moments) (allow_reserved : Bool)
      → issue config services m authorization input w ≡ (ok r, w')
      → services.authenticate authorization OauthScope.quotes_create ≡ ok merchant
      → prepare config services m merchant input ≡ ok (request, token)
      → IsFaithful services.create_quote settlers.x402_network
      → settlers.verify_token (services.sign token) (sm.verified_at / 1000) ≡ some token
      → settling.stacks_network ≡ config.stacks_network
      → settlers.sha256 ≡ services.sha256
      → sm.checked_at ≤ token.expires_at * 1000
      → (r.signed_quote ≡ services.sign token)
        × (validate_quote settling settlers sm merchant r.signed_quote allow_reserved w'.ledger
            ≡ ok (as_quote settling settlers merchant token r.signed_quote))
  issue_valid m authorization input w w' r merchant request token sm allow_reserved h known prepared
        faithful verified network hash live =
      let (merchant', request', token', known', made, signed, stored) =
        issue_sound config services m authorization input w w' r h in
      let same : merchant' ≡ merchant = cc in
      let made' : prepare config services m merchant input ≡ ok (request', token') =
        ap (λ a. prepare config services m a input) (sym same) ∙ made in
      let e : token' ≡ token = cc in
      let signed' = signed ∙ ap services.sign e in
      let stored' =
        subst2
          (λ a t.
            insert_issued_quote m.db_now (quote_record config services a t (services.sign t))
              (m.before_insert w.ledger)
            ≡ ok (tt, w'.ledger))
          same e stored in
      let valid =
        prepared-IsValidQuote m merchant request token (m.before_insert w.ledger) w'.ledger sm
          allow_reserved faithful network hash verified live
          (prepare_sound config services m merchant input request token prepared) stored' in
      let accepted =
        (validate_quote_iff settling settlers sm merchant (services.sign token) allow_reserved
            w'.ledger (as_quote settling settlers merchant token (services.sign token))).1
          (token, valid, refl) in
      (
        signed',
        subst
            (λ t.
              validate_quote settling settlers sm merchant t allow_reserved w'.ledger
              ≡ ok (as_quote settling settlers merchant token t))
            (sym signed') accepted,
      )
