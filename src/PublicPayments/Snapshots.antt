-- ===== src/PublicPayments/Snapshots.antt =====
-- The snapshot that the public payment service keeps (`snapshot` of src/public-payments.ts): a
-- running load is shared, its result is kept for a minute, and a failed one is not repeated for ten
-- seconds. Clock readings are in milliseconds.
use perk_os_nayori_platform.Prelude.{
  ℕ, ◌+◌, ◌≤◌, ◌<◌, ◌≡◌, refl, ◌⊎◌, inl, inr, Bool, true, false, ◌||◌, Option, none, some, List, [],
  ◌∷◌, arith, ltb, leb, if◌then◌else◌, Option-cases, All,
}
use perk_os_nayori_platform.PublicPayments.{PublicPaymentSnapshot}

-- `cached`, whether there is a `pending` load, and `failedUntil`
pub record Cache : Type 0 where
  pub cached : Option (ℕ × PublicPaymentSnapshot)
  pub pending : Bool
  pub failed_until : ℕ

-- What a call of `snapshot` does: answer with the kept snapshot, wait for the running load, fail,
-- or start a load.
pub data Decision : Type 0 where
  answered : PublicPaymentSnapshot → Decision
  joined cooling_down started : Decision

abbrev pub no_cache : Cache
no_cache = record { cached = none; pending = false; failed_until = 0 }

abbrev decide : ℕ → Cache → Decision × Cache
decide now c =
    if c.pending
    then (joined, c)
    else if ltb now c.failed_until
    then (cooling_down, c)
    else (started, record c { pending = true })

abbrev by_cached : ℕ → Cache → Option (ℕ × PublicPaymentSnapshot) → Decision × Cache
by_cached now c none = decide now c
by_cached now c (some (until, value)) = if ltb now until then (answered value, c) else decide now c

unfoldable pub snapshot : ℕ → Cache → Decision × Cache
snapshot now c = by_cached now c c.cached

-- The end of the running load: its snapshot, or an error.
abbrev loaded : ℕ → Option PublicPaymentSnapshot → Cache → Cache
loaded now none c = record c { pending = false; failed_until = now + 10000 }
loaded now (some value) c = record c { pending = false; cached = some (now + 60000, value) }

unfoldable pub finish : ℕ → Option PublicPaymentSnapshot → Cache → Cache
finish now result c = if c.pending then loaded now result c else c

-- Calls and ends of loads, in the order in which they happen.
pub data Event : Type 0 where
  called : ℕ → Event
  ended : ℕ → Option PublicPaymentSnapshot → Event

abbrev pub time_of : Event → ℕ
time_of (called now) = now
time_of (ended now result) = now

abbrev is_start : Decision → ℕ
is_start started = 1
is_start _ = 0

-- How many loads a sequence of events starts.
unfoldable pub loads : List Event → Cache → ℕ
unfolding snapshot finish
loads [] c = 0
loads (called now ∷ rest) c = is_start (snapshot now c).0 + loads rest (snapshot now c).1
loads (ended now result ∷ rest) c = loads rest (finish now result c)

abbrev kept_until : ℕ → Option (ℕ × PublicPaymentSnapshot) → Bool
kept_until limit none = false
kept_until limit (some (until, value)) = leb limit until

-- No load starts before `limit`.
abbrev blocked : ℕ → Cache → Bool
blocked limit c = c.pending || kept_until limit c.cached || leb limit c.failed_until

blocked-snapshot :
    (limit now : ℕ) (c : Cache)
    → blocked limit c ≡ true
    → now < limit
    → (is_start (snapshot now c).0 ≡ 0) × (blocked limit (snapshot now c).1 ≡ true)
unfolding snapshot
blocked-snapshot limit now c b before = elim (Option-cases c.cached) [
  | inl empty ↦ (ground arith, ground arith)
  | inr ((until, value), kept) ↦ (ground arith, ground arith)
]

blocked-finish :
    (limit now : ℕ) (result : Option PublicPaymentSnapshot) (c : Cache)
    → blocked limit c ≡ true
    → limit ≤ now + 10000
    → blocked limit (finish now result c) ≡ true
unfolding finish
blocked-finish limit now none c b late = ground arith
blocked-finish limit now (some value) c b late = ground arith

loads-blocked :
    (from : ℕ) (events : List Event) (c : Cache)
    → blocked (from + 10000) c ≡ true
    → All (λ e. (from ≤ time_of e) × (time_of e < from + 10000)) events
    → loads events c ≡ 0
unfolding loads
loads-blocked from [] c b h = refl
loads-blocked from (called now ∷ rest) c b ((late, early), h) =
    let (none_started, still) = blocked-snapshot (from + 10000) now c b early in
    let ih = loads-blocked from rest (snapshot now c).1 still h in omega (arith, none_started, ih)
loads-blocked from (ended now result ∷ rest) c b ((late, early), h) =
    loads-blocked from rest (finish now result c)
      (blocked-finish (from + 10000) now result c b (omega arith)) h

started-blocked :
    (limit now : ℕ) (c : Cache)
    → (is_start (snapshot now c).0 ≡ 0)
      ⊎ ((is_start (snapshot now c).0 ≡ 1) × (blocked limit (snapshot now c).1 ≡ true))
unfolding snapshot
started-blocked limit now c = elim (Option-cases c.cached) [
  | inl empty ↦ ground arith
  | inr ((until, value), kept) ↦ ground arith
]

-- However many callers there are and however the loads end, no more than one load, and so one read
-- of the store with its 25 chain requests, starts within ten seconds.
pub loads_bound :
    (from : ℕ) (events : List Event) (c : Cache)
    → All (λ e. (from ≤ time_of e) × (time_of e < from + 10000)) events
    → loads events c ≤ 1
unfolding loads
loads_bound from [] c h = omega arith
loads_bound from (ended now result ∷ rest) c (first, h) =
    loads_bound from rest (finish now result c) h
loads_bound from (called now ∷ rest) c (first, h) = elim (started-blocked (from + 10000) now c) [
  | inl idle ↦ omega (arith, idle, loads_bound from rest (snapshot now c).1 h)
  | inr (one, blocked_now) ↦
      omega (arith, one, loads-blocked from rest (snapshot now c).1 blocked_now h)
]
