-- ===== src/Signing/Laws.antt =====
-- What a signed quote proves (src/quote-signing.ts).
use perk_os_nayori_platform.Prelude.{
  ℕ, String, ◌≡◌, ap, inl, inr, true, Option, none, some, arith, eq_iff, Bool-cases, Option-cases,
}
use perk_os_nayori_platform.Signing.{
  NayoriX402Quote, VerifiedQuoteToken, Claims, claims_of, sign, agrees, read_claims, verify,
  token_of, agreeing,
}

read_claims-claims_of :
    (t : VerifiedQuoteToken) → agrees t ≡ true → read_claims (claims_of t) ≡ some t
unfolding read_claims claims_of
read_claims-claims_of t h = ground (arith)

-- A token that the service signs for a quote, under that quote's own id, merchant and lifetime, is
-- verified to what was signed whenever the JOSE library reads its claims back from it.
pub verify-sign :
    (jwt_sign : Claims → String) (jwt_verify : String → ℕ → Option Claims) (t : VerifiedQuoteToken)
    (now_seconds : ℕ)
    → jwt_verify (jwt_sign (claims_of t)) now_seconds ≡ some (claims_of t)
    → agrees t ≡ true
    → verify jwt_verify (sign jwt_sign t) now_seconds ≡ some t
unfolding verify sign
verify-sign jwt_sign jwt_verify t now_seconds reads h = rw reads (read_claims-claims_of t h)

-- The claims of a quote's token: of its type, with the quote inside, and agreeing with it.
pub record IsQuoteToken (c : Claims) (t : VerifiedQuoteToken) : Type 0 where
  pub quote_type : c.typ ≡ "nayori-quote+jwt"
  pub quote : c.quote ≡ some t.quote
  pub merchant : c.sub ≡ some t.quote.merchant_id
  pub id : c.jti ≡ some t.quote.quote_id
  pub issued : c.iat ≡ some t.quote.issued_at
  pub expires : c.exp ≡ some t.quote.expires_at
  pub audience : c.aud ≡ some t.audience

token_of_sound :
    (sub jti : Option String) (iat exp : Option ℕ) (aud : Option String)
    (quote : Option NayoriX402Quote) (t : VerifiedQuoteToken)
    → token_of sub jti iat exp aud quote ≡ some t
    → (sub ≡ some t.merchant_id)
      × (jti ≡ some t.quote_id)
      × (iat ≡ some t.issued_at)
      × (exp ≡ some t.expires_at)
      × (aud ≡ some t.audience)
      × (quote ≡ some t.quote)
token_of_sound (some a) (some b) (some c) (some d) (some e) (some f) t h = (cc, cc, cc, cc, cc, cc)
token_of_sound none b c d e f t h = cc
token_of_sound (some a) none c d e f t h = cc
token_of_sound (some a) (some b) none d e f t h = cc
token_of_sound (some a) (some b) (some c) none e f t h = cc
token_of_sound (some a) (some b) (some c) (some d) none f t h = cc
token_of_sound (some a) (some b) (some c) (some d) (some e) none t h = cc

agreeing_sound :
    (o : Option VerifiedQuoteToken) (t : VerifiedQuoteToken)
    → agreeing o ≡ some t
    → (o ≡ some t) × (agrees t ≡ true)
agreeing_sound none t h = cc
agreeing_sound (some u) t h = elim (Bool-cases (agrees u)) [
  | inl good ↦ let e : u ≡ t = ground arith in (ap some e, rw (← e) good)
  | inr bad ↦ ground arith
]

read_claims-IsQuoteToken :
    (c : Claims) (t : VerifiedQuoteToken) → read_claims c ≡ some t → IsQuoteToken c t
unfolding read_claims
read_claims-IsQuoteToken c t h =
    let typed : c.typ ≡ "nayori-quote+jwt" = ground (arith, eq_iff c.typ "nayori-quote+jwt") in
    let (made, good) =
      agreeing_sound (token_of c.sub c.jti c.iat c.exp c.aud c.quote) t (ground arith) in
    let (sub, jti, iat, exp, aud, quote) =
      token_of_sound c.sub c.jti c.iat c.exp c.aud c.quote t made in
    record {
      quote_type = typed;
      quote = quote;
      merchant = ground (arith, good, eq_iff t.quote.merchant_id t.merchant_id);
      id = ground (arith, good, eq_iff t.quote.quote_id t.quote_id);
      issued = ground (arith, good);
      expires = ground (arith, good);
      audience = aud;
    }

-- A token is verified only if its claims agree with the quote inside and its type is that of
-- quotes, so a settlement receipt, which the same key signs, never passes for a quote.
pub verify_sound :
    (jwt_verify : String → ℕ → Option Claims) (token : String) (now_seconds : ℕ)
    (t : VerifiedQuoteToken)
    → verify jwt_verify token now_seconds ≡ some t
    → (c : Claims) × (jwt_verify token now_seconds ≡ some c) × IsQuoteToken c t
unfolding verify
verify_sound jwt_verify token now_seconds t h = elim (Option-cases (jwt_verify token now_seconds)) [
  | inl refused ↦ ground arith
  | inr (c, given) ↦ (c, given, read_claims-IsQuoteToken c t (ground arith))
]
