-- ===== src/Prelude/Text.antt =====
-- Prefixes of texts, and the fixed patterns that identifiers and digests are tested against.
use Prim.Native.Nat.{ℕ, zero, suc}
use Prim.Native.Char.{code}
use Prim.Native.String
use Prim.Native.String.{String}
use mathlib.Core.Path.{◌≡◌}
use mathlib.Core.Bool.{Bool, true, false, ◌&&◌, ◌||◌}
use mathlib.Core.Logic.{inl, inr}
use mathlib.Core.Option.{Option, none, some}
use native.Mathlib.Omega.{arith}
use text.Mathlib.TextEquality.{Char-path}
use text.Mathlib.TextLemmas.{nil-append, cons-append}
use perk_os_nayori_platform.Prelude.Tests.{leb, eqb, if◌then◌else◌, Bool-cases, Option-cases}

-- What follows a prefix: `s.startsWith(p)` and `s.slice(p.length)` in one.
unfoldable pub strip_prefix : String → String → Option String
strip_prefix String.[] s = some s
strip_prefix (String.◌∷◌ p ps) String.[] = none
strip_prefix (String.◌∷◌ p ps) (String.◌∷◌ c cs) =
    if eqb (code p) (code c) then strip_prefix ps cs else none

abbrev pub starts_with : String → String → Bool
starts_with s p = elim (strip_prefix p s) [ none ↦ false | some _ ↦ true ]

-- `s.endsWith(c)` for a text `c` of one character
unfoldable pub ends_with : String → ℕ → Bool
ends_with String.[] c = false
ends_with (String.◌∷◌ a String.[]) c = eqb (code a) c
ends_with (String.◌∷◌ a (String.◌∷◌ b s)) c = ends_with (String.◌∷◌ b s) c

-- `[0-9a-f]`
abbrev pub is_hex : ℕ → Bool
is_hex c = leb b'0' c && leb c b'9' || leb b'a' c && leb c b'f'

-- `[A-Za-z0-9_-]`
abbrev pub is_base64url : ℕ → Bool
is_base64url c =
    leb b'A' c && leb c b'Z'
    || leb b'a' c && leb c b'z'
    || leb b'0' c && leb c b'9'
    || eqb c b'_'
    || eqb c b'-'

-- `^[class]{n}$`
unfoldable pub repeats : ℕ → (ℕ → Bool) → String → Bool
repeats zero p String.[] = true
repeats zero p (String.◌∷◌ c cs) = false
repeats (suc n) p String.[] = false
repeats (suc n) p (String.◌∷◌ c cs) = p (code c) && repeats n p cs

abbrev pub tail_matches : ℕ → (ℕ → Bool) → Option String → Bool
tail_matches n p none = false
tail_matches n p (some cs) = repeats n p cs

-- Every character is of the class.
unfoldable pub all_chars : (ℕ → Bool) → String → Bool
all_chars p String.[] = true
all_chars p (String.◌∷◌ c s) = p (code c) && all_chars p s

-- PostgreSQL's `length`, in characters
unfoldable pub char_length : String → ℕ
char_length String.[] = 0
char_length (String.◌∷◌ c s) = suc (char_length s)

-- `length(s) BETWEEN 1 AND n`
abbrev pub is_short : ℕ → String → Bool
is_short n s = leb 1 (char_length s) && leb (char_length s) n

-- `^prefix[class]{n}$`
unfoldable pub matches : String → ℕ → (ℕ → Bool) → String → Bool
unfolding repeats strip_prefix
matches prefix n p s = tail_matches n p (strip_prefix prefix s)

-- A text is its prefix and what follows.
pub strip_prefix_sound : (p s r : String) → strip_prefix p s ≡ some r → s ≡ String.◌++◌ p r
unfolding strip_prefix
strip_prefix_sound String.[] s r h = let e : s ≡ r = cc in rw nil-append e
strip_prefix_sound (String.◌∷◌ c p) String.[] r h = cc
strip_prefix_sound (String.◌∷◌ c p) (String.◌∷◌ d s) r h =
    elim (Bool-cases (eqb (code c) (code d))) [
      | inr other ↦ ground arith
      | inl same ↦
          let e : d ≡ c = Char-path d c (ground arith) in
          let rest : s ≡ String.◌++◌ p r = strip_prefix_sound p s r (ground arith) in
          rw (cons-append, e, rest)
    ]

pub strip_prefix-append : (p r : String) → strip_prefix p (String.◌++◌ p r) ≡ some r
unfolding strip_prefix
strip_prefix-append String.[] r = rw nil-append
strip_prefix-append (String.◌∷◌ c p) r = rw cons-append (ground (arith, strip_prefix-append p r))

pub starts_with_cases :
    (s p : String) → starts_with s p ≡ true → (r : String) × (s ≡ String.◌++◌ p r)
starts_with_cases s p h = elim (Option-cases (strip_prefix p s)) [
  | inl absent ↦ ground arith
  | inr (r, found) ↦ (r, strip_prefix_sound p s r found)
]

pub starts_with-append : (p r : String) → starts_with (String.◌++◌ p r) p ≡ true
starts_with-append p r = rw (strip_prefix-append p r, starts_with)

-- A shared beginning can be left out.
pub strip_prefix-append_both :
    (p q s : String) → strip_prefix (String.◌++◌ p q) (String.◌++◌ p s) ≡ strip_prefix q s
unfolding strip_prefix
strip_prefix-append_both String.[] q s = simp nil-append
strip_prefix-append_both (String.◌∷◌ c p) q s =
    simp cons-append (ground (arith, strip_prefix-append_both p q s))
