-- ===== src/Prelude/Words.antt =====
-- Texts cut at a character and put together again: `split`, `split(" ").filter(Boolean)`, `join`.
use Prim.Native.Nat.{ℕ}
use Prim.Native.Char.{code}
use Prim.Native.String
use Prim.Native.String.{String}
use mathlib.Core.Path.{◌≡◌, refl}
use mathlib.Core.Bool.{Bool, true, not, ◌&&◌}
use mathlib.Core.Option.{Option, none, some}
use mathlib.Core.List.{List, [], ◌∷◌}
use native.Mathlib.Omega.{arith}
use text.Mathlib.Text.{◌==◌}
use text.Mathlib.TextLemmas.{nil-append, cons-append}
use perk_os_nayori_platform.Prelude.Tests.{eqb, if◌then◌else◌}
use perk_os_nayori_platform.Prelude.Lists.{All, select}

-- `s.split(c)`: the first part and the others
unfoldable pub split : ℕ → String → String × List String
split c String.[] = ("", [])
split c (String.◌∷◌ d s) =
    let r = split c s in if eqb (code d) c then ("", r.0 ∷ r.1) else (String.◌∷◌ d r.0, r.1)

-- The text before the first `c`, and the text behind it.
unfoldable pub cut_at : ℕ → String → Option (String × String)
cut_at c String.[] = none
cut_at c (String.◌∷◌ d s) =
    let r = cut_at c s in
    if eqb (code d) c
    then some ("", s)
    else elim r [ none ↦ none | some p ↦ some (String.◌∷◌ d p.0, p.1) ]

abbrev pub is_truthy : String → Bool
is_truthy s = not (s == "")

-- `s.split(" ").filter(Boolean)`
unfoldable pub words : String → List String
words s = let r = split b' ' s in select is_truthy (r.0 ∷ r.1)

-- `parts.join(separator)`
unfoldable pub join : String → List String → String
join separator [] = ""
join separator (x ∷ []) = x
join separator (x ∷ y ∷ ys) = String.◌++◌ x (String.◌++◌ separator (join separator (y ∷ ys)))

-- A text that does not hold the character.
unfoldable pub lacks : ℕ → String → Bool
lacks c String.[] = true
lacks c (String.◌∷◌ d s) = not (eqb (code d) c) && lacks c s

abbrev pub is_word : String → Bool
is_word s = is_truthy s && lacks b' ' s

split_lacking : (c : ℕ) (s : String) → lacks c s ≡ true → split c s ≡ (s, [])
unfolding split lacks
split_lacking c String.[] h = refl
split_lacking c (String.◌∷◌ d s) h = ground (arith, split_lacking c s)

split-append :
    (x s : String)
    → lacks b' ' x ≡ true
    → split b' ' (String.◌++◌ x (String.◌++◌ " " s)) ≡ (x, (split b' ' s).0 ∷ (split b' ' s).1)
unfolding split lacks
split-append String.[] s h = rw (nil-append, cons-append, nil-append) refl
split-append (String.◌∷◌ d x) s h = simp cons-append (ground (arith, split-append x s))

-- Words that are put together with spaces are read back one by one.
pub words-join : (xs : List String) → All (λ x. is_word x ≡ true) xs → words (join " " xs) ≡ xs
unfolding words join split
words-join [] h = refl
words-join (x ∷ []) (w, h) = ground (arith, split_lacking b' ' x)
words-join (x ∷ y ∷ ys) (w, h) =
    let ih = words-join (y ∷ ys) h in
    let cut = split-append x (join " " (y ∷ ys)) (ground arith) in ground (arith, cut, ih)

-- A text is cut at its first colon.
pub cut_at-append :
    (x s : String)
    → lacks b':' x ≡ true
    → cut_at b':' (String.◌++◌ x (String.◌++◌ ":" s)) ≡ some (x, s)
unfolding cut_at lacks
cut_at-append String.[] s h = rw (nil-append, cons-append, nil-append) refl
cut_at-append (String.◌∷◌ d x) s h = simp cons-append (ground (arith, cut_at-append x s))
