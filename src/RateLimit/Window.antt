-- ===== src/RateLimit/Window.antt =====
-- What the in-memory limiter promises over whole histories: never more than `max_attempts` accepted
-- attempts of one identifier in a window.
use llm_evaluation_platform.Common.{
  ℕ, ◌≤◌, String, ◌≡◌, refl, inl, inr, ◌&&◌, List, [], ◌∷◌, ◌++◌, arith, eq_iff, str_eq,
  if◌then◌else◌, Bool-cases, length, filter, length-append, filter-append,
}
use llm_evaluation_platform.Common.Dict.{lookup}
use llm_evaluation_platform.RateLimit.Memory.{init, MemoryAuthRateLimiter, is_active, recorded, hit}
use llm_evaluation_platform.RateLimit.Hits.{
  filter-filter, length-filter-later, recorded-hit, is_allowed, hit_allowed_iff, hit-settings,
}

-- The accepted attempts of identifier `i` while a list of calls `hit(now, identifier)` runs, oldest
-- first; `log` holds those accepted before.
unfoldable pub accepted : MemoryAuthRateLimiter → List (ℕ × String) → String → List ℕ → List ℕ
accepted l [] i log = log
accepted l ((now, j) ∷ es) i log =
    let (l', r) = hit l now j in
    accepted l' es i (if str_eq j i && is_allowed r then log ++ now ∷ [] else log)

-- The calls come at times that never go back.
abbrev pub InOrder : ℕ → List (ℕ × String) → Type 0
InOrder t [] = Unit
InOrder t ((now, _) ∷ es) = (t ≤ now) × InOrder now es

abbrev pub last_time : ℕ → List (ℕ × String) → ℕ
last_time t [] = t
last_time t ((now, _) ∷ es) = last_time now es

-- From time `t` on, the limiter's record of `i` shows the window of `log`, and it is within bounds.
record Tracks (l : MemoryAuthRateLimiter) (t : ℕ) (i : String) (log : List ℕ) : Type 0 where
  window :
      (u : ℕ)
      → t ≤ u
      → filter (is_active l.window_seconds u) (recorded l i)
        ≡ filter (is_active l.window_seconds u) log
  bounded : (u : ℕ) → t ≤ u → length (filter (is_active l.window_seconds u) log) ≤ l.max_attempts

module _ (l : MemoryAuthRateLimiter) (t now : ℕ) (i : String) (log : List ℕ) (le : t ≤ now)
    (h : Tracks l t i log) where
  abbrev log_after : List ℕ
  log_after = if is_allowed (hit l now i).1 then log ++ now ∷ [] else log

  hit-window :
      (u : ℕ)
      → now ≤ u
      → filter (is_active l.window_seconds u) (recorded (hit l now i).0 i)
        ≡ filter (is_active l.window_seconds u) log_after
  hit-window u p =
      let w = l.window_seconds in
      let active = filter (is_active w now) (recorded l i) in
      ground (
        arith,
        hit_allowed_iff l now i,
        recorded-hit l now i i,
        eq_iff i i,
        filter-filter w (recorded l i) p,
        filter-append (is_active w u) active (now ∷ []),
        filter-append (is_active w u) log (now ∷ []),
        h.window u (omega arith),
      )

  hit-bounded :
      (u : ℕ) → now ≤ u → length (filter (is_active l.window_seconds u) log_after) ≤ l.max_attempts
  hit-bounded u p =
      let w = l.window_seconds in
      let active = filter (is_active w now) (recorded l i) in
      ground (
        arith,
        hit_allowed_iff l now i,
        filter-append (is_active w u) log (now ∷ []),
        length-append (filter (is_active w u) log) (filter (is_active w u) (now ∷ [])),
        length-filter-later w log p,
        h.window now le,
        h.bounded u (omega arith),
      )

  hit-Tracks_self : Tracks (hit l now i).0 now i log_after
  hit-Tracks_self = record {
    window = rw (hit-settings l now i).1 hit-window;
    bounded = rw ((hit-settings l now i).0, (hit-settings l now i).1) hit-bounded;
  }

hit-Tracks :
    (l : MemoryAuthRateLimiter) (t now : ℕ) (i j : String) (log : List ℕ)
    → t ≤ now
    → Tracks l t i log
    → Tracks
        (hit l now j).0
        now
        i
        (if str_eq j i && is_allowed (hit l now j).1 then log ++ now ∷ [] else log)
hit-Tracks l t now i j log le h = elim (Bool-cases (str_eq j i)) [
  | inl same ↦ rw ((eq_iff j i).0 same, (eq_iff i i).1 refl) (hit-Tracks_self l t now i log le h)
  | inr other ↦ rw other (record {
    window = λ u p.
        rw ((hit-settings l now j).1, recorded-hit l now j i, other) (h.window u (omega arith));
    bounded =
        λ u p. rw ((hit-settings l now j).0, (hit-settings l now j).1) (h.bounded u (omega arith));
  })
]

accepted-bounded :
    (l : MemoryAuthRateLimiter) (t : ℕ) (es : List (ℕ × String)) (i : String) (log : List ℕ)
    → InOrder t es
    → Tracks l t i log
    → (now : ℕ) → last_time t es ≤ now
    → length (filter (is_active l.window_seconds now) (accepted l es i log)) ≤ l.max_attempts
unfolding accepted
accepted-bounded l t [] i log o h now p = h.bounded now p
accepted-bounded l t ((at, j) ∷ es) i log o h now p =
    let ih =
      accepted-bounded (hit l at j).0 at es i
        (if str_eq j i && is_allowed (hit l at j).1 then log ++ at ∷ [] else log) o.1
        (hit-Tracks l t at i j log o.0 h) now p in
    rw ((hit-settings l at j).0, (hit-settings l at j).1) at ih

-- For a new limiter and any calls of `hit` at times that never go back, of any identifiers, each
-- identifier has at most `max_attempts` accepted attempts in the window that ends at `now`, for
-- every `now` from the last call on.
pub accepted_in_window :
    (max_attempts window : ℕ) (es : List (ℕ × String)) (i : String)
    → InOrder 0 es
    → (now : ℕ) → last_time 0 es ≤ now
    → length (filter (is_active window now) (accepted (init max_attempts window) es i []))
      ≤ max_attempts
unfolding init recorded lookup
accepted_in_window m w es i o now p =
    accepted-bounded (init m w) 0 es i [] o
      (record { window = λ u q. refl; bounded = λ u q. omega arith }) now p
