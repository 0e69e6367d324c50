-- ===== src/RateLimit/Waiting.antt =====
-- Blocked callers: the retry time, the wait, and the reset.
use llm_evaluation_platform.Common.{
  ℕ, suc, ◌+◌, ◌*◌, ◌≤◌, String, ◌≡◌, refl, ◌≢◌, List, [], ◌∷◌, arith, eq_iff, length, filter,
  length-append, length-filter-le,
}
use llm_evaluation_platform.RateLimit.Memory.{
  MemoryAuthRateLimiter, HitResult, allowed, blocked, index_error, is_active, recorded, retry_after,
  hit, reset, ticks_per_second,
}
use llm_evaluation_platform.RateLimit.Hits.{
  recorded-reset, recorded-hit, hit_blocked, hit_allowed_iff, hit-settings,
}

-- All recorded attempts lie in the past, as those of a clock that never goes back do.
abbrev pub IsPast : ℕ → List ℕ → Type 0
IsPast now [] = Unit
IsPast now (x ∷ xs) = (x ≤ now) × IsPast now xs

-- The result is one of the first two kinds, and a retry time lies between 1 second and the window.
abbrev pub InRange : ℕ → HitResult → Type 0
InRange window allowed = Unit
InRange window (blocked s) = (1 ≤ s) × (s ≤ window)
InRange window index_error = ⊥

filter-IsPast : (w now : ℕ) (xs : List ℕ) → IsPast now xs → IsPast now (filter (is_active w now) xs)
filter-IsPast w now [] h = tt
filter-IsPast w now (x ∷ xs) h = ground (arith, filter-IsPast w now xs h.1)

retry_after-InRange :
    (window now : ℕ) (active : List ℕ)
    → 1 ≤ window
    → 1 ≤ length active
    → IsPast now active
    → InRange window (retry_after window now active)
unfolding retry_after
retry_after-InRange window now [] p q h = absurd (omega arith)
retry_after-InRange window now (x ∷ xs) p q h = (omega arith, omega arith)

-- With the limits that the settings allow, `hit` never indexes an empty list, and a blocked caller
-- is told to wait at least one second and at most the window.
pub hit-InRange :
    (l : MemoryAuthRateLimiter) (now : ℕ) (i : String)
    → 1 ≤ l.max_attempts
    → 1 ≤ l.window_seconds
    → IsPast now (recorded l i)
    → InRange l.window_seconds (hit l now i).1
unfolding hit
hit-InRange l now i p q h =
    let active = filter (is_active l.window_seconds now) (recorded l i) in
    ground (
      arith,
      filter-IsPast l.window_seconds now (recorded l i) h,
      retry_after-InRange l.window_seconds now active q,
    )

reset-settings :
    (l : MemoryAuthRateLimiter) (i : String)
    → ((reset l i).max_attempts ≡ l.max_attempts) × ((reset l i).window_seconds ≡ l.window_seconds)
unfolding reset
reset-settings l i = (refl, refl)

-- After `reset` the next attempt of the identifier is accepted, and no other identifier's record
-- has changed.
pub hit-reset :
    (l : MemoryAuthRateLimiter) (now : ℕ) (i j : String)
    → 1 ≤ l.max_attempts
    → j ≢ i
    → ((hit (reset l i) now i).1 ≡ allowed)
      × (recorded (reset l i) j ≡ recorded l j)
      × (recorded (hit (reset l i) now i).0 j ≡ recorded l j)
hit-reset l now i j p ne = ground (
  arith,
  reset-settings l i,
  hit_allowed_iff (reset l i) now i,
  recorded-reset l i i,
  recorded-reset l i j,
  recorded-hit (reset l i) now i j,
  eq_iff i i,
  eq_iff i j,
)

-- What is left of the head's window at `now` is less than the retry time and one second more.
head_leaves :
    (window now later s : ℕ) (active : List ℕ)
    → retry_after window now active ≡ blocked s
    → now + (s + 1) * ticks_per_second ≤ later
    → suc (length (filter (is_active window later) active)) ≤ length active
unfolding retry_after
head_leaves window now later s [] e le = cc
head_leaves window now later s (x ∷ xs) e le =
    ground (arith, length-filter-le (is_active window later) xs)

-- A blocked caller that waits one second longer than it is told, and that no other call of the same
-- identifier comes before, is accepted.
pub blocked_then_allowed :
    (l : MemoryAuthRateLimiter) (now later s : ℕ) (i : String)
    → length (recorded l i) ≤ l.max_attempts
    → (hit l now i).1 ≡ blocked s
    → now + (s + 1) * ticks_per_second ≤ later
    → (hit (hit l now i).0 later i).1 ≡ allowed
blocked_then_allowed l now later s i size e le =
    let w = l.window_seconds in
    let active = filter (is_active w now) (recorded l i) in
    ground (
      arith,
      hit_blocked l now i s e,
      hit-settings l now i,
      recorded-hit l now i i,
      eq_iff i i,
      hit_allowed_iff l now i,
      hit_allowed_iff (hit l now i).0 later i,
      length-filter-le (is_active w now) (recorded l i),
      head_leaves w now later s active,
    )

-- The record of an identifier never outgrows `max_attempts`, the bound that the theorem above asks.
pub length-recorded-hit :
    (l : MemoryAuthRateLimiter) (now : ℕ) (i j : String)
    → length (recorded l j) ≤ l.max_attempts
    → length (recorded (hit l now i).0 j) ≤ l.max_attempts
length-recorded-hit l now i j h =
    let active = filter (is_active l.window_seconds now) (recorded l i) in
    ground (
      arith,
      recorded-hit l now i j,
      eq_iff i j,
      length-append active (now ∷ []),
      length-filter-le (is_active l.window_seconds now) (recorded l i),
    )
