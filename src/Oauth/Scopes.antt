-- ===== src/Oauth/Scopes.antt =====
-- The OAuth scopes (`oauthScopes` of src/auth.ts) and the scopes that a token request is given
-- (`normalizeScopes` of src/oauth.ts).
use perk_os_nayori_platform.Prelude.{
  ℕ, ◌+◌, ◌≤◌, String, ◌≡◌, refl, sym, ap, ◌≢◌, ◌↔◌, ◌⊎◌, inl, inr, Bool, true, false, not, ◌||◌,
  Option, none, some, List, [], ◌∷◌, arith, ◌==◌, eq_iff, eqb, if◌then◌else◌, eq-cases, length, any,
  All, includes,
}
use perk_os_nayori_platform.Prelude.Words.{words, is_word, lacks}
use perk_os_nayori_platform.Auth.{
  OauthScope, catalog_read, quotes_create, payments_verify, payments_settle, payments_read,
  mcp_invoke,
}

abbrev pub scope_text : OauthScope → String
scope_text catalog_read = "catalog:read"
scope_text quotes_create = "quotes:create"
scope_text payments_verify = "payments:verify"
scope_text payments_settle = "payments:settle"
scope_text payments_read = "payments:read"
scope_text mcp_invoke = "mcp:invoke"

abbrev pub oauth_scopes : List String
oauth_scopes =
    "catalog:read" ∷ "quotes:create" ∷ "payments:verify" ∷ "payments:settle" ∷ "payments:read"
    ∷ "mcp:invoke" ∷ []

-- `new Set(values).size`
abbrev pub set_size : List String → ℕ
set_size [] = 0
set_size (x ∷ xs) = (if includes xs x then 0 else 1) + set_size xs

abbrev pub has_repeats : List String → Bool
has_repeats xs = not (eqb (set_size xs) (length xs))

-- `value ? value.split(" ").filter(Boolean) : [...allowed]`
abbrev pub requested_scopes : Option String → List String → List String
requested_scopes none allowed = allowed
requested_scopes (some value) allowed = if value == "" then allowed else words value

-- `normalizeScopes`, with `none` for the error `invalid_scope`
unfoldable pub normalize_scopes : Option String → List String → Option (List String)
normalize_scopes value allowed =
    let requested = requested_scopes value allowed in
    if eqb (length requested) 0
      || has_repeats requested
      || any (λ scope. not (includes oauth_scopes scope) || not (includes allowed scope)) requested
    then none
    else some requested

-- No text stands twice.
abbrev pub IsDistinct : List String → Type 0
IsDistinct [] = Unit
IsDistinct (x ∷ xs) = (includes xs x ≡ false) × IsDistinct xs

set_size_le : (xs : List String) → set_size xs ≤ length xs
set_size_le [] = omega arith
set_size_le (x ∷ xs) = ground (arith, set_size_le xs)

pub set_size-IsDistinct : (xs : List String) → has_repeats xs ≡ false → IsDistinct xs
set_size-IsDistinct [] h = tt
set_size-IsDistinct (x ∷ xs) h =
    let le = set_size_le xs in (ground arith, set_size-IsDistinct xs (ground arith))

pub IsDistinct-set_size : (xs : List String) → IsDistinct xs → has_repeats xs ≡ false
IsDistinct-set_size [] d = refl
IsDistinct-set_size (x ∷ xs) (fresh, d) = ground (arith, IsDistinct-set_size xs d)

-- A scope that the service knows and the client has.
abbrev pub IsGranted : List String → String → Type 0
IsGranted allowed scope = (includes oauth_scopes scope ≡ true) × (includes allowed scope ≡ true)

abbrev pub is_refused : List String → String → Bool
is_refused allowed scope = not (includes oauth_scopes scope) || not (includes allowed scope)

any-IsGranted :
    (allowed xs : List String) → any (is_refused allowed) xs ≡ false → All (IsGranted allowed) xs
any-IsGranted allowed [] h = tt
any-IsGranted allowed (x ∷ xs) h =
    ((ground arith, ground arith), any-IsGranted allowed xs (ground arith))

IsGranted-any :
    (allowed xs : List String) → All (IsGranted allowed) xs → any (is_refused allowed) xs ≡ false
IsGranted-any allowed [] h = refl
IsGranted-any allowed (x ∷ xs) ((known, mine), h) = ground (arith, IsGranted-any allowed xs h)

-- What the `scope` of a request asks for: all the client's scopes if it is missing or empty, and
-- else its words.
abbrev pub IsAskedOf : Option String → List String → List String → Type 0
IsAskedOf value allowed scopes =
    (((value ≡ none) ⊎ (value ≡ some "")) × (scopes ≡ allowed))
    ⊎ ((text : String) × (value ≡ some text) × (text ≢ "") × (scopes ≡ words text))

requested-IsAskedOf :
    (value : Option String) (allowed scopes : List String)
    → scopes ≡ requested_scopes value allowed
    → IsAskedOf value allowed scopes
requested-IsAskedOf none allowed scopes h = inl (inl refl, h)
requested-IsAskedOf (some text) allowed scopes h = elim (eq-cases text "") [
  | inl empty ↦ inl (inr (ap some empty), ground (arith, eq_iff text ""))
  | inr full ↦ inr (text, refl, λ empty. ground (arith, eq_iff text ""), ground arith)
]

IsAskedOf-requested :
    (value : Option String) (allowed scopes : List String)
    → IsAskedOf value allowed scopes
    → scopes ≡ requested_scopes value allowed
IsAskedOf-requested value allowed scopes (inl (inl missing, h)) = rw missing h
IsAskedOf-requested value allowed scopes (inl (inr empty, h)) = rw empty h
IsAskedOf-requested value allowed scopes (inr (text, given, full, h)) =
    let no : (text == "") ≡ false = ground (arith, eq_iff text "") in rw (given, no) h

nonempty : (xs : List String) → xs ≢ [] → eqb (length xs) 0 ≡ false
nonempty [] h = elim (h refl) [ ]
nonempty (x ∷ xs) h = ground arith

-- A token request is given all the client's scopes if its `scope` is missing or empty, and else
-- exactly the words of its `scope`, in their order, and in both cases only if there is at least one,
-- none stands twice, and each is one that the service knows and the client has; otherwise the
-- request fails.
pub normalize_scopes_iff :
    (value : Option String) (allowed scopes : List String)
    → (normalize_scopes value allowed ≡ some scopes) ↔ (
        IsAskedOf value allowed scopes
        × (scopes ≢ [])
        × IsDistinct scopes
        × All (IsGranted allowed) scopes)
unfolding normalize_scopes
normalize_scopes_iff value allowed scopes = (
  λ h.
      let same : scopes ≡ requested_scopes value allowed = ground arith in
      (
        requested-IsAskedOf value allowed scopes same,
        λ nothing. ground arith,
        rw same (set_size-IsDistinct (requested_scopes value allowed) (ground arith)),
        rw same (any-IsGranted allowed (requested_scopes value allowed) (ground arith)),
      ),
  λ (asked, something, distinct, granted).
      let same = IsAskedOf-requested value allowed scopes asked in
      let d : has_repeats (requested_scopes value allowed) ≡ false =
        rw (sym same) (IsDistinct-set_size scopes distinct) in
      let g : any (is_refused allowed) (requested_scopes value allowed) ≡ false =
        rw (sym same) (IsGranted-any allowed scopes granted) in
      let n : eqb (length (requested_scopes value allowed)) 0 ≡ false =
        rw (sym same) (nonempty scopes something) in
      rw (n, d, g) (ap some (sym same)),
)

-- What holds of all members of a list holds of each.
All-includes :
    (P : String → Type 0) (xs : List String) (s : String) → All P xs → includes xs s ≡ true → P s
All-includes P [] s h m = cc
All-includes P (x ∷ xs) s (p, h) m = elim (eq-cases x s) [
  | inl same ↦ rw (sym same) p
  | inr other ↦ All-includes P xs s h (ground arith)
]

-- Each scope of the service is a word.
pub scope-word : (s : String) → includes oauth_scopes s ≡ true → is_word s ≡ true
unfolding lacks
scope-word s h =
    All-includes (λ x. is_word x ≡ true) oauth_scopes s
      (refl, (refl, (refl, (refl, (refl, (refl, tt)))))) h

pub All-scope-word :
    (allowed xs : List String) → All (IsGranted allowed) xs → All (λ x. is_word x ≡ true) xs
All-scope-word allowed [] h = tt
All-scope-word allowed (x ∷ xs) ((known, mine), h) =
    (scope-word x known, All-scope-word allowed xs h)
