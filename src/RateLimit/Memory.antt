-- ===== src/RateLimit/Memory.antt =====
-- `MemoryAuthRateLimiter`: a sliding window of attempts for each identifier.
-- The clock's float seconds are whole ticks, `ticks_per_second` of them to a second. The lock
-- makes each method one step, so a method is a function on the state.
use llm_evaluation_platform.Common.{
  ℕ, ◌+◌, ◌-◌, ◌*◌, ◌/◌, max, String, List, [], ◌∷◌, ◌++◌, none, some, ltb, leb, if◌then◌else◌,
  length, filter, Bool,
}
use llm_evaluation_platform.Common.Dict.{Dict, lookup, insert, erase}

-- Precision of the clock's reading.
abbrev pub ticks_per_second : ℕ
ticks_per_second = 1000000

pub record MemoryAuthRateLimiter : Type 0 where
  pub max_attempts : ℕ
  pub window_seconds : ℕ
  pub attempts : Dict (List ℕ)

pub data HitResult : Type 0 where
  allowed : HitResult
  blocked : ℕ → HitResult
  -- `active[0]` on an empty list
  index_error : HitResult

unfoldable pub init : ℕ → ℕ → MemoryAuthRateLimiter
init max_attempts window_seconds = record {
  max_attempts = max_attempts;
  window_seconds = window_seconds;
  attempts = [];
}

-- `attempted_at > now - window_seconds`, where the difference may be negative.
abbrev pub is_active : ℕ → ℕ → ℕ → Bool
is_active window now attempted_at = ltb now (attempted_at + window * ticks_per_second)

-- `self._attempts.get(identifier, [])`
unfoldable pub recorded : MemoryAuthRateLimiter → String → List ℕ
recorded l identifier = elim (lookup identifier l.attempts) [ none ↦ [] | some ts ↦ ts ]

-- `int(window_seconds - (now - active[0]))`, at least 1; `active[0]` is later than the cutoff, so
-- the difference is positive.
unfoldable pub retry_after : ℕ → ℕ → List ℕ → HitResult
retry_after window now [] = index_error
retry_after window now (first ∷ _) =
    blocked (max 1 ((window * ticks_per_second + first - now) / ticks_per_second))

unfoldable pub hit : MemoryAuthRateLimiter → ℕ → String → MemoryAuthRateLimiter × HitResult
unfolding recorded retry_after
hit l now identifier =
    let active = filter (is_active l.window_seconds now) (recorded l identifier) in
    if leb l.max_attempts (length active)
    then (
      record l { attempts = insert identifier active l.attempts },
      retry_after l.window_seconds now active,
    )
    else (record l { attempts = insert identifier (active ++ now ∷ []) l.attempts }, allowed)

unfoldable pub reset : MemoryAuthRateLimiter → String → MemoryAuthRateLimiter
reset l identifier = record l { attempts = erase identifier l.attempts }
