-- ===== src/RateLimit/Hits.antt =====
-- One call of the in-memory limiter: when it accepts, and what it records.
use llm_evaluation_platform.Common.{
  ℕ, ◌≤◌, String, ◌≡◌, refl, Bool, true, false, List, [], ◌∷◌, ◌++◌, arith, ltb, leb, str_eq,
  if◌then◌else◌, length, filter,
}
use llm_evaluation_platform.Common.Dict.{insert, lookup-insert, lookup-erase}
use llm_evaluation_platform.RateLimit.Memory.{
  MemoryAuthRateLimiter, HitResult, allowed, blocked, is_active, recorded, retry_after, hit, reset,
}

-- A later filter sees of an earlier one only what it would keep anyway.
pub filter-filter :
    (w : ℕ) {t u : ℕ} (xs : List ℕ)
    → t ≤ u
    → filter (is_active w u) (filter (is_active w t) xs) ≡ filter (is_active w u) xs
filter-filter w [] h = refl
filter-filter w (x ∷ xs) h = ground (arith, filter-filter w xs h)

pub length-filter-later :
    (w : ℕ) {t u : ℕ} (xs : List ℕ)
    → t ≤ u
    → length (filter (is_active w u) xs) ≤ length (filter (is_active w t) xs)
length-filter-later w [] h = omega arith
length-filter-later w (x ∷ xs) h = ground (arith, length-filter-later w xs h)

-- What a write of one identifier's attempts leaves to be read under another.
pub recorded-write :
    (l : MemoryAuthRateLimiter) (i j : String) (ts : List ℕ)
    → recorded (record l { attempts = insert i ts l.attempts }) j
      ≡ (if str_eq i j then ts else recorded l j)
unfolding recorded
recorded-write l i j ts = ground (arith, lookup-insert i j ts l.attempts)

pub recorded-reset :
    (l : MemoryAuthRateLimiter) (i j : String)
    → recorded (reset l i) j ≡ (if str_eq i j then [] else recorded l j)
unfolding recorded reset
recorded-reset l i j = ground (arith, lookup-erase i j l.attempts)

-- The attempts that `hit` keeps for its identifier.
abbrev pub kept : MemoryAuthRateLimiter → ℕ → List ℕ → List ℕ
kept l now active = if leb l.max_attempts (length active) then active else active ++ now ∷ []

pub recorded-hit :
    (l : MemoryAuthRateLimiter) (now : ℕ) (i j : String)
    → recorded (hit l now i).0 j ≡ (
        if str_eq i j
        then kept l now (filter (is_active l.window_seconds now) (recorded l i))
        else recorded l j)
unfolding hit
recorded-hit l now i j =
    let active = filter (is_active l.window_seconds now) (recorded l i) in
    ground (arith, recorded-write l i j active, recorded-write l i j (active ++ now ∷ []))

abbrev pub is_allowed : HitResult → Bool
is_allowed allowed = true
is_allowed _ = false

pub hit_blocked :
    (l : MemoryAuthRateLimiter) (now : ℕ) (i : String) (s : ℕ)
    → (hit l now i).1 ≡ blocked s
    → retry_after l.window_seconds now (filter (is_active l.window_seconds now) (recorded l i))
      ≡ blocked s
unfolding hit
hit_blocked l now i s e = ground arith

-- An attempt is accepted exactly when fewer than `max_attempts` lie in the window.
pub hit_allowed_iff :
    (l : MemoryAuthRateLimiter) (now : ℕ) (i : String)
    → is_allowed (hit l now i).1
      ≡ ltb (length (filter (is_active l.window_seconds now) (recorded l i))) l.max_attempts
unfolding hit retry_after
hit_allowed_iff l now i =
    let active = filter (is_active l.window_seconds now) (recorded l i) in ground arith

pub hit-settings :
    (l : MemoryAuthRateLimiter) (now : ℕ) (i : String)
    → ((hit l now i).0.max_attempts ≡ l.max_attempts)
      × ((hit l now i).0.window_seconds ≡ l.window_seconds)
unfolding hit
hit-settings l now i = ground arith
