-- ===== src/Oauth/Digests.antt =====
-- The comparison of two digests, `safeDigestEqual`, and `parseBasicAuthorization` (src/oauth.ts).
-- `Buffer.from(…, "base64").toString("utf8")` is a parameter.
use Prim.Native.Char.{Char, code}
use text.Mathlib.TextEquality.{Char-path}
use perk_os_nayori_platform.Prelude.{
  ℕ, zero, suc, ◌+◌, ◌-◌, ◌*◌, ◌<◌, String, ◌≡◌, refl, ◌↔◌, Bool, true, false, not, ◌&&◌, ◌||◌,
  Option, none, some, List, [], ◌∷◌, arith, leb, eqb, if◌then◌else◌, both,
}
use perk_os_nayori_platform.Prelude.Text.{is_hex, repeats, strip_prefix}
use perk_os_nayori_platform.Prelude.Words.{cut_at}
use perk_os_nayori_platform.Oauth.{is_client_id, is_client_secret}

-- The value of a digit of `[0-9a-f]`
abbrev hex_digit : ℕ → ℕ
hex_digit c = if leb c b'9' then c - 48 else c - 87

-- `Buffer.from(s, "hex")` of a text of whole pairs of digits
unfoldable pub hex_bytes : String → List ℕ
hex_bytes String.[] = []
hex_bytes (String.◌∷◌ a String.[]) = []
hex_bytes (String.◌∷◌ a (String.◌∷◌ b s)) =
    (hex_digit (code a) * 16 + hex_digit (code b)) ∷ hex_bytes s

-- `timingSafeEqual` on two buffers of one length
abbrev pub same_bytes : List ℕ → List ℕ → Bool
same_bytes [] [] = true
same_bytes (x ∷ xs) (y ∷ ys) = eqb x y && same_bytes xs ys
same_bytes _ _ = false

-- `/^[0-9a-f]{64}$/`
abbrev pub is_digest : String → Bool
is_digest = repeats 64 is_hex

unfoldable pub safe_digest_equal : String → String → Bool
safe_digest_equal actual expected =
    if not (is_digest actual) || not (is_digest expected)
    then false
    else same_bytes (hex_bytes actual) (hex_bytes expected)

eqb→≡ : {m n : ℕ} → eqb m n ≡ true → m ≡ n
eqb→≡ {m} {n} h = ground arith

digit_injective : (a b : ℕ) → is_hex a ≡ true → is_hex b ≡ true → hex_digit a ≡ hex_digit b → a ≡ b
digit_injective a b h k e = ground arith

digit_bound : (a : ℕ) → is_hex a ≡ true → hex_digit a < 16
digit_bound a h = ground arith

pair_injective :
    (a b c d : ℕ) → a < 16 → b < 16 → c < 16 → d < 16 → a * 16 + b ≡ c * 16 + d → (a ≡ c) × (b ≡ d)
pair_injective a b c d ha hb hc hd e = (omega arith, omega arith)

abbrev twice : ℕ → ℕ
twice zero = zero
twice (suc n) = suc (suc (twice n))

same_Char :
    (a b : Char)
    → is_hex (code a) ≡ true
    → is_hex (code b) ≡ true
    → hex_digit (code a) ≡ hex_digit (code b)
    → a ≡ b
same_Char a b h k e = Char-path a b (digit_injective (code a) (code b) h k e)

same_bytes-hex_bytes :
    (n : ℕ) (s t : String)
    → repeats (twice n) is_hex s ≡ true
    → repeats (twice n) is_hex t ≡ true
    → same_bytes (hex_bytes s) (hex_bytes t) ≡ true
    → s ≡ t
unfolding repeats hex_bytes
same_bytes-hex_bytes zero String.[] String.[] hs ht e = refl
same_bytes-hex_bytes zero String.[] (String.◌∷◌ c t) hs ht e = cc
same_bytes-hex_bytes zero (String.◌∷◌ c s) t hs ht e = cc
same_bytes-hex_bytes (suc n) String.[] t hs ht e = cc
same_bytes-hex_bytes (suc n) (String.◌∷◌ a String.[]) t hs ht e = ground arith
same_bytes-hex_bytes (suc n) (String.◌∷◌ a (String.◌∷◌ b s)) String.[] hs ht e = cc
same_bytes-hex_bytes (suc n) (String.◌∷◌ a (String.◌∷◌ b s)) (String.◌∷◌ c String.[]) hs ht e =
    ground arith
same_bytes-hex_bytes (suc n) (String.◌∷◌ a (String.◌∷◌ b s)) (String.◌∷◌ c (String.◌∷◌ d t)) hs ht
      e =
    let (ha, hs') = both (is_hex (code a)) _ hs in
    let (hb, rest_s) = both (is_hex (code b)) _ hs' in
    let (hc, ht') = both (is_hex (code c)) _ ht in
    let (hd, rest_t) = both (is_hex (code d)) _ ht' in
    let (first, others) = both _ _ e in
    let byte = eqb→≡ first in
    let (high, low) =
      pair_injective (hex_digit (code a)) (hex_digit (code b)) (hex_digit (code c))
        (hex_digit (code d)) (digit_bound (code a) ha) (digit_bound (code b) hb)
        (digit_bound (code c) hc) (digit_bound (code d) hd) byte in
    let rest = same_bytes-hex_bytes n s t rest_s rest_t others in
    cc (same_Char a c ha hc high, same_Char b d hb hd low, rest)

same_bytes_refl : (xs : List ℕ) → same_bytes xs xs ≡ true
same_bytes_refl [] = refl
same_bytes_refl (x ∷ xs) = ground (arith, same_bytes_refl xs)

-- Two digests pass the comparison exactly if they are one text of 64 lower-case hexadecimal digits.
pub safe_digest_equal_iff :
    (actual expected : String)
    → (safe_digest_equal actual expected ≡ true)
      ↔ ((actual ≡ expected) × (is_digest expected ≡ true))
unfolding safe_digest_equal
safe_digest_equal_iff actual expected = (
  λ h.
      let a : is_digest actual ≡ true = ground arith in
      let b : is_digest expected ≡ true = ground arith in
      (same_bytes-hex_bytes 32 actual expected a b (ground arith), b),
  λ (same, good).
      let a : is_digest actual ≡ true = rw same good in
      rw (same, good) (same_bytes_refl (hex_bytes expected)),
)

pub record Credentials : Type 0 where
  pub client_id : String
  pub secret : String

abbrev checked_credentials : Option (String × String) → Option Credentials
checked_credentials none = none
checked_credentials (some (client_id, secret)) =
    if not (is_client_id client_id) || not (is_client_secret secret)
    then none
    else some (record { client_id = client_id; secret = secret })

abbrev decoded_credentials : (String → String) → Option String → Option Credentials
decoded_credentials from_base64 none = none
decoded_credentials from_base64 (some encoded) =
    checked_credentials (cut_at b':' (from_base64 encoded))

-- `parseBasicAuthorization`, with `none` for the error `invalid_client`
unfoldable pub parse_basic_authorization : (String → String) → Option String → Option Credentials
parse_basic_authorization from_base64 none = none
parse_basic_authorization from_base64 (some value) =
    decoded_credentials from_base64 (strip_prefix "Basic " value)
