-- ===== src/Limiter/Laws.antt =====
-- How much the rate limiter admits, and what a refusal promises (src/rate-limit.ts).
use perk_os_nayori_platform.Prelude.{
  ℕ, ◌+◌, ◌*◌, ◌≤◌, ◌<◌, max, String, ◌≡◌, refl, ◌∙◌, inl, inr, true, false, not, some, List, [],
  ◌∷◌, arith, ◌==◌, eq_refl, leb, if◌then◌else◌, Option-cases, eq-cases, All,
}
use perk_os_nayori_platform.Prelude.Map.{get, get-put}
use perk_os_nayori_platform.Limiter.{WindowState, Windows, consume, admitted}

-- What a call inside a window leaves of it.
abbrev next_window : ℕ → WindowState → WindowState
next_window maximum w = if leb maximum w.count then w else record w { count = w.count + 1 }

module _ (maximum : ℕ) (key : String) (now_ms : ℕ) (w : WindowState) (windows : Windows)
    (held : get key windows ≡ some w) (inside : now_ms < w.started_at_ms + 60000) where
  consume_allowed : (consume maximum key now_ms windows).0.allowed ≡ not (leb maximum w.count)
  unfolding consume
  consume_allowed = ground arith

  get-consume_self : get key (consume maximum key now_ms windows).1 ≡ some (next_window maximum w)
  unfolding consume
  get-consume_self =
      ground (arith, eq_refl key, get-put key key (record w { count = w.count + 1 }) windows)

-- A call for another key leaves this one's window alone.
get-consume_ne :
    (maximum : ℕ) (caller key : String) (now_ms : ℕ) (windows : Windows)
    → (caller == key) ≡ false
    → get key (consume maximum caller now_ms windows).1 ≡ get key windows
unfolding consume
get-consume_ne maximum caller key now_ms windows other = elim (Option-cases (get caller windows)) [
  | inl absent ↦
      ground (arith, get-put caller key (record { count = 1; started_at_ms = now_ms }) windows)
  | inr (w, held) ↦ ground (
    arith,
    get-put caller key (record { count = 1; started_at_ms = now_ms }) windows,
    get-put caller key (record w { count = w.count + 1 }) windows,
  )
]

admitted_from :
    (maximum : ℕ) (key : String) (started : ℕ) (calls : List (String × ℕ)) (w : WindowState)
    (windows : Windows)
    → get key windows ≡ some w
    → w.started_at_ms ≡ started
    → w.count ≤ max 1 maximum
    → All (λ c. c.1 < started + 60000) calls
    → admitted maximum key calls windows + w.count ≤ max 1 maximum
unfolding admitted
admitted_from maximum key started [] w windows held since few inside = omega arith
admitted_from maximum key started ((caller, now_ms) ∷ calls) w windows held since few
      (first, rest) =
    elim (eq-cases caller key) [
      | inl same ↦ rw same (
          ground (
            arith,
            eq_refl key,
            consume_allowed maximum key now_ms w windows held (omega arith),
            admitted_from maximum key started calls (next_window maximum w)
                (consume maximum key now_ms windows).1
                (get-consume_self maximum key now_ms w windows held (omega arith)) (ground arith)
                (ground arith) rest,
          ))
      | inr other ↦ ground (
        arith,
        admitted_from maximum key started calls w (consume maximum caller now_ms windows).1
            (get-consume_ne maximum caller key now_ms windows other ∙ held) since few rest,
      )
    ]

-- While a key's window lasts, calls of any keys in any order get the key no more admissions than
-- the maximum leaves; a maximum of zero still admits the call that opened the window.
pub admitted_bound :
    (maximum : ℕ) (key : String) (calls : List (String × ℕ)) (w : WindowState) (windows : Windows)
    → get key windows ≡ some w
    → w.count ≤ max 1 maximum
    → All (λ c. c.1 < w.started_at_ms + 60000) calls
    → admitted maximum key calls windows + w.count ≤ max 1 maximum
admitted_bound maximum key calls w windows held few inside =
    admitted_from maximum key w.started_at_ms calls w windows held refl few inside

-- A refused caller whose clock has not gone back since the window began is told to wait between
-- one second and a minute, nothing else changes, and a call after that wait is admitted.
pub refused_retry :
    (maximum : ℕ) (key : String) (now_ms : ℕ) (w : WindowState) (windows : Windows)
    → get key windows ≡ some w
    → w.started_at_ms ≤ now_ms
    → (consume maximum key now_ms windows).0.allowed ≡ false
    → let (refusal, windows') = consume maximum key now_ms windows in
      (1 ≤ refusal.retry_after_seconds)
      × (refusal.retry_after_seconds ≤ 60)
      × (windows' ≡ windows)
      × ((consume maximum key (now_ms + refusal.retry_after_seconds * 1000) windows').0.allowed
          ≡ true)
unfolding consume
refused_retry maximum key now_ms w windows held forward refused = ground arith
