-- ===== src/Limiter.antt =====
-- The fixed-window rate limiter (src/rate-limit.ts). The private `Map` is the state, and the clock
-- reading of a call is an argument, in milliseconds.
pub mod Laws
use perk_os_nayori_platform.Prelude.{
  ℕ, ◌+◌, ◌-◌, ◌/◌, max, String, Bool, true, false, Option, none, some, List, [], ◌∷◌, leb, ◌==◌,
  ◌&&◌, if◌then◌else◌,
}
use perk_os_nayori_platform.Prelude.Map.{get, put}

pub record RateLimitResult : Type 0 where
  pub allowed : Bool
  pub retry_after_seconds : ℕ

pub record WindowState : Type 0 where
  pub count : ℕ
  pub started_at_ms : ℕ

abbrev pub Windows : Type 0
Windows = List (String × WindowState)

-- `Math.ceil(ms / 1000)` of a whole number of milliseconds
abbrev pub ceil_seconds : ℕ → ℕ
ceil_seconds ms = (ms + 999) / 1000

abbrev granted : RateLimitResult
granted = record { allowed = true; retry_after_seconds = 0 }

open_window : String → ℕ → Windows → RateLimitResult × Windows
open_window key now_ms windows =
    (granted, put key (record { count = 1; started_at_ms = now_ms }) windows)

-- In the refusal the elapsed time is below a minute, so the difference is not negative; it is
-- written so that a clock that went back is read as the source reads it.
in_window : ℕ → String → ℕ → WindowState → Windows → RateLimitResult × Windows
in_window maximum key now_ms current windows =
    if leb maximum current.count
    then (
      record {
        allowed = false;
        retry_after_seconds = max 1 (ceil_seconds (60000 + current.started_at_ms - now_ms));
      },
      windows,
    )
    else (granted, put key (record current { count = current.count + 1 }) windows)

unfoldable pub consume : ℕ → String → ℕ → Windows → RateLimitResult × Windows
unfolding open_window in_window
consume maximum key now_ms windows = elim (get key windows) [
  | none ↦ open_window key now_ms windows
  | some current ↦
      if leb (current.started_at_ms + 60000) now_ms
      then open_window key now_ms windows
      else in_window maximum key now_ms current windows
]

-- How many of a sequence of calls, each with its key and its clock reading, are admitted for a key.
pub admitted : ℕ → String → List (String × ℕ) → Windows → ℕ
admitted maximum key [] windows = 0
admitted maximum key ((caller, now_ms) ∷ calls) windows =
    let (result, windows') = consume maximum caller now_ms windows in
    (if caller == key && result.allowed then 1 else 0) + admitted maximum key calls windows'
