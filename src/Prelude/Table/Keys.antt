-- ===== src/Prelude/Table/Keys.antt =====
-- Tables whose rows have different keys.
use Prim.Native.String.{String}
use mathlib.Core.Path.{◌≡◌, refl, ap, subst}
use mathlib.Core.Logic.{inl, inr}
use mathlib.Core.Bool.{Bool, true, false}
use mathlib.Core.Option.{some}
use mathlib.Core.List.{List, [], ◌∷◌, map}
use native.Mathlib.Omega.{arith}
use text.Mathlib.Text.{◌==◌}
use text.Mathlib.TextEquality.{eq_iff}
use text.Mathlib.TextPositions.{eq_refl}
use perk_os_nayori_platform.Prelude.Tests.{eq-cases}
use perk_os_nayori_platform.Prelude.Lists.{any, All, includes}
use perk_os_nayori_platform.Prelude.Table.{lookup, update}

module _ {Row : Type 0} (key : Row → String) where
  -- The constraint PRIMARY KEY, or UNIQUE.
  abbrev pub IsUnique : List Row → Type 0
  IsUnique [] = Unit
  IsUnique (r ∷ t) = (any (λ x. key x == key r) t ≡ false) × IsUnique t

  any-update :
      (k : String) (p : Row → Bool) (f : Row → Row) (t : List Row)
      → ((r : Row) → key (f r) ≡ key r)
      → any (λ x. key x == k) (update p f t) ≡ any (λ x. key x == k) t
  unfolding update
  any-update k p f [] keeps = refl
  any-update k p f (r ∷ t) keeps = ground (arith, keeps r, any-update k p f t keeps)

  pub update-IsUnique :
      (p : Row → Bool) (f : Row → Row) (t : List Row)
      → ((r : Row) → key (f r) ≡ key r)
      → IsUnique t
      → IsUnique (update p f t)
  unfolding update
  update-IsUnique p f [] keeps u = tt
  update-IsUnique p f (r ∷ t) keeps (fresh, u) = (
    ground
        (arith, keeps r, any-update (key r) p f t keeps, any-update (key (f r)) p f t keeps, fresh),
    update-IsUnique p f t keeps u,
  )

  others :
      (r : Row) (all t : List Row)
      → any (λ x. key x == key r) t ≡ false
      → All (λ x. lookup key (key x) all ≡ some x) t
      → All (λ x. lookup key (key x) (r ∷ all) ≡ some x) t
  unfolding lookup
  others r all [] fresh h = tt
  others r all (x ∷ t) fresh (here, h) = (
    ground (arith, eq_iff (key r) (key x), eq_iff (key x) (key r)),
    others r all t (ground arith) h,
  )

  -- Every row is found by its key.
  pub All-lookup : (t : List Row) → IsUnique t → All (λ x. lookup key (key x) t ≡ some x) t
  unfolding lookup
  All-lookup [] u = tt
  All-lookup (r ∷ t) (fresh, u) =
      (ground (arith, eq_refl (key r)), others r t t fresh (All-lookup t u))

  -- What holds of all rows of a list holds of the row that a key of the list finds.
  pub All-of_includes {κ} :
      (P : Row → Type κ) (t xs : List Row) (k : String) (r : Row)
      → All (λ x. (lookup key (key x) t ≡ some x) × P x) xs
      → includes (map key xs) k ≡ true
      → lookup key k t ≡ some r
      → P r
  All-of_includes P t [] k r h m e = cc
  All-of_includes P t (x ∷ xs) k r ((found, p), h) m e = elim (eq-cases (key x) k) [
    | inl same ↦ let eq : x ≡ r = cc (found, ap (λ j. lookup key j t) same, e) in subst P eq p
    | inr other ↦ All-of_includes P t xs k r h (ground arith) e
  ]
