-- ===== src/Signing.antt =====
-- Signed quotes (src/quote-signing.ts). The JOSE library is a parameter: `jwt_verify` gives the
-- claims of a token whose EdDSA signature, issuer and lifetime are good at an instant, and
-- `jwt_sign` signs claims with the service's key. A `quote` claim that the schema accepts is a
-- record; the schema's own bounds are not modelled.
pub mod Laws
use perk_os_nayori_platform.Prelude.{
  ℕ, String, Bool, ◌&&◌, Option, none, some, ◌==◌, eqb, if◌then◌else◌,
}

-- The SDK's quote.
pub record NayoriX402Quote : Type 0 where
  pub quote_id : String
  pub merchant_id : String
  pub method : String
  pub url : String
  pub body_sha256 : String
  pub network : String
  pub payment_asset : String
  pub asset : String
  pub amount : String
  pub pay_to : String
  pub issued_at : ℕ
  pub expires_at : ℕ

pub record VerifiedQuoteToken : Type 0 where
  pub merchant_id : String
  pub audience : String
  pub quote_id : String
  pub issued_at : ℕ
  pub expires_at : ℕ
  pub quote : NayoriX402Quote

-- The header's type and the claims of a token, `none` where a claim is missing or of another type.
pub record Claims : Type 0 where
  pub typ : String
  pub sub : Option String
  pub jti : Option String
  pub iat : Option ℕ
  pub exp : Option ℕ
  pub aud : Option String
  pub quote : Option NayoriX402Quote

-- The claims that `sign` puts in a token.
unfoldable pub claims_of : VerifiedQuoteToken → Claims
claims_of input = record {
  typ = "nayori-quote+jwt";
  sub = some input.merchant_id;
  jti = some input.quote_id;
  iat = some input.issued_at;
  exp = some input.expires_at;
  aud = some input.audience;
  quote = some input.quote;
}

unfoldable pub sign : (Claims → String) → VerifiedQuoteToken → String
unfolding claims_of
sign jwt_sign input = jwt_sign (claims_of input)

-- The claims agree with the quote inside.
abbrev pub agrees : VerifiedQuoteToken → Bool
agrees t =
    t.quote.quote_id == t.quote_id
    && t.quote.merchant_id == t.merchant_id
    && eqb t.quote.issued_at t.issued_at
    && eqb t.quote.expires_at t.expires_at

abbrev token_of :
    Option String
    → Option String
    → Option ℕ
    → Option ℕ
    → Option String
    → Option NayoriX402Quote
    → Option VerifiedQuoteToken
token_of (some sub) (some jti) (some iat) (some exp) (some aud) (some quote) = some (record {
  merchant_id = sub;
  audience = aud;
  quote_id = jti;
  issued_at = iat;
  expires_at = exp;
  quote = quote;
})
token_of _ _ _ _ _ _ = none

abbrev agreeing : Option VerifiedQuoteToken → Option VerifiedQuoteToken
agreeing none = none
agreeing (some t) = if agrees t then some t else none

unfoldable pub read_claims : Claims → Option VerifiedQuoteToken
read_claims c =
    if c.typ == "nayori-quote+jwt"
    then agreeing (token_of c.sub c.jti c.iat c.exp c.aud c.quote)
    else none

abbrev bind_claims : Option Claims → Option VerifiedQuoteToken
bind_claims none = none
bind_claims (some c) = read_claims c

-- `verify`, with `none` for an error
unfoldable pub verify : (String → ℕ → Option Claims) → String → ℕ → Option VerifiedQuoteToken
verify jwt_verify token now_seconds = bind_claims (jwt_verify token now_seconds)
