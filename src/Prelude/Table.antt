-- ===== src/Prelude/Table.antt =====
-- A database table as a list of rows: a look-up by a unique text column, an UPDATE of the
-- rows that a condition picks, and the laws of the two. An INSERT puts a row in front.
pub mod Keys
use Prim.Native.String.{String}
use mathlib.Core.Path.{◌≡◌, refl}
use mathlib.Core.Bool.{Bool, false}
use mathlib.Core.Logic.{inl, inr}
use mathlib.Core.Option
use mathlib.Core.Option.{Option, none, some}
use mathlib.Core.List.{List, [], ◌∷◌}
use native.Mathlib.Omega.{arith}
use text.Mathlib.Text.{◌==◌}
use text.Mathlib.TextEquality.{eq_iff}
use perk_os_nayori_platform.Prelude.Tests.{if◌then◌else◌, Bool-cases}
use perk_os_nayori_platform.Prelude.Lists.{any}

-- `UPDATE … WHERE p`
unfoldable pub update : {Row : Type 0} → (Row → Bool) → (Row → Row) → List Row → List Row
update p f [] = []
update p f (r ∷ t) = (if p r then f r else r) ∷ update p f t

module _ {Row : Type 0} (key : Row → String) where
  -- `SELECT … WHERE key = k LIMIT 1`
  unfoldable pub lookup : String → List Row → Option Row
  lookup k [] = none
  lookup k (r ∷ t) = if key r == k then some r else lookup k t

  -- An update that keeps the key rewrites what a key finds, if the update's condition picks it.
  pub lookup-update :
      (p : Row → Bool) (f : Row → Row) (j : String) (t : List Row)
      → ((r : Row) → key (f r) ≡ key r)
      → lookup j (update p f t) ≡ Option.map (λ r. if p r then f r else r) (lookup j t)
  unfolding lookup update
  lookup-update p f j [] keeps = refl
  lookup-update p f j (r ∷ t) keeps = elim (Bool-cases (p r)) [
    | inl picked ↦ ground (arith, keeps r, lookup-update p f j t keeps)
    | inr other ↦ ground (arith, lookup-update p f j t keeps)
  ]

  -- The row that a key finds has that key.
  pub lookup_key : (k : String) (t : List Row) (r : Row) → lookup k t ≡ some r → key r ≡ k
  unfolding lookup
  lookup_key k [] r h = cc
  lookup_key k (x ∷ t) r h = ground (arith, eq_iff (key x) k, lookup_key k t r)

  -- A row that is found fails every test that no row passes.
  pub lookup_of_any :
      (p : Row → Bool) (k : String) (t : List Row) (r : Row)
      → any p t ≡ false
      → lookup k t ≡ some r
      → p r ≡ false
  unfolding lookup
  lookup_of_any p k [] r none_passes h = cc
  lookup_of_any p k (x ∷ t) r none_passes h = ground (arith, lookup_of_any p k t r)
