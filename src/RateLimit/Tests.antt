-- ===== src/RateLimit/Tests.antt =====
-- Runs of the limiters on concrete calls, and the theorems at such calls.
use llm_evaluation_platform.Common.{
  ℕ, suc, ◌≤◌, String, ◌≡◌, refl, ◌≢◌, Option, none, some, List, [], ◌∷◌, arith, eq_iff, length,
  filter,
}
use llm_evaluation_platform.Common.Dict.{Dict, lookup, insert, erase, lookup-insert, lookup-erase}
use llm_evaluation_platform.RateLimit.Memory.{
  MemoryAuthRateLimiter, allowed, blocked, is_active, recorded, init, hit,
}
use llm_evaluation_platform.RateLimit.Window.{accepted, accepted_in_window}
use llm_evaluation_platform.RateLimit.Waiting.{blocked_then_allowed}
use llm_evaluation_platform.RateLimit.Redis.{Redis, count, redis_hit}

-- Two attempts in sixty seconds.
abbrev limiter : MemoryAuthRateLimiter
limiter = record {
  max_attempts = 2;
  window_seconds = 60;
  attempts = ("a", 1000000 ∷ 2000000 ∷ []) ∷ ("b", 5 ∷ []) ∷ [];
}

third_is_blocked : (hit limiter 3000000 "a").1 ≡ blocked 58
unfolding hit lookup insert
third_is_blocked = refl

late_is_allowed : (hit limiter 61000000 "a").1 ≡ allowed
unfolding hit lookup insert
late_is_allowed = refl

abbrev calls : List (ℕ × String)
calls = (1, "a") ∷ (2, "b") ∷ (3, "a") ∷ (4, "a") ∷ []

accepted_in_window_example :
    length (filter (is_active 60 9) (accepted (init 2 60) calls "a" [])) ≤ 2
accepted_in_window_example = accepted_in_window 2 60 calls "a" (omega arith) 9 (omega arith)

-- A server whose keys hold a count and an expiry, with no time passing.
abbrev value : Option (ℕ × Option ℕ) → Option ℕ
value none = none
value (some (n, _)) = some n

abbrev expiry : Option (ℕ × Option ℕ) → Option ℕ
expiry none = none
expiry (some (_, t)) = t

abbrev with_expiry : ℕ → Option (ℕ × Option ℕ) → Dict (ℕ × Option ℕ) → String → Dict (ℕ × Option ℕ)
with_expiry n none s k = s
with_expiry n (some (c, _)) s k = insert k (c, some n) s

abbrev one_more : Option (ℕ × Option ℕ) → ℕ × Option ℕ
one_more none = (1, none)
one_more (some (c, t)) = (suc c, t)

module _ (k : String) (s : Dict (ℕ × Option ℕ)) where
  incr_value :
      (o : Option (ℕ × Option ℕ))
      → lookup k s ≡ o
      → value (lookup k (insert k (one_more o) s)) ≡ some (suc (count (value (lookup k s))))
  incr_value none e = ground (arith, lookup-insert k k (one_more none) s, eq_iff k k)
  incr_value (some c) e = ground (arith, lookup-insert k k (one_more (some c)) s, eq_iff k k)

  incr_expiry :
      (o : Option (ℕ × Option ℕ))
      → lookup k s ≡ o
      → expiry (lookup k (insert k (one_more o) s)) ≡ expiry (lookup k s)
  incr_expiry none e = ground (arith, lookup-insert k k (one_more none) s, eq_iff k k)
  incr_expiry (some c) e = ground (arith, lookup-insert k k (one_more (some c)) s, eq_iff k k)

  incr_reply : (o : Option (ℕ × Option ℕ)) → (one_more o).0 ≡ suc (count (value o))
  incr_reply none = refl
  incr_reply (some c) = refl

  expire_value :
      (n : ℕ) (o : Option (ℕ × Option ℕ))
      → lookup k s ≡ o
      → value (lookup k (with_expiry n o s k)) ≡ value (lookup k s)
  expire_value n none e = refl
  expire_value n (some (c, t)) e = ground (arith, lookup-insert k k (c, some n) s, eq_iff k k)

  expire_expiry :
      (n : ℕ) (o : Option (ℕ × Option ℕ))
      → lookup k s ≡ o
      → value (lookup k s) ≢ none
      → expiry (lookup k (with_expiry n o s k)) ≡ some n
  expire_expiry n none e h = absurd (h (rw e))
  expire_expiry n (some (c, t)) e h = ground (arith, lookup-insert k k (c, some n) s, eq_iff k k)

  delete_value : value (lookup k (erase k s)) ≡ none
  delete_value = ground (arith, lookup-erase k k s, eq_iff k k)

abbrev server : Redis
server = record {
  Store = Dict (ℕ × Option ℕ);
  get = λ k s. value (lookup k s);
  ttl = λ k s. expiry (lookup k s);
  incr = λ k s. ((one_more (lookup k s)).0, insert k (one_more (lookup k s)) s);
  expire = λ k n s. with_expiry n (lookup k s) s k;
  delete = erase;
  incr_reply = λ k s. incr_reply k s (lookup k s);
  get-incr = λ k s. incr_value k s (lookup k s) refl;
  ttl-incr = λ k s. incr_expiry k s (lookup k s) refl;
  get-expire = λ k n s. expire_value k s n (lookup k s) refl;
  ttl-expire = λ k n s h _. expire_expiry k s n (lookup k s) refl h;
  get-delete = λ k s. delete_value k s;
}

abbrev digest : String → String
digest s = s

abbrev busy : Dict (ℕ × Option ℕ)
busy = ("evalflow:auth-rate:a", (2, none)) ∷ []

redis_third_is_blocked : (redis_hit server digest 2 60 "a" busy).0 ≡ some 60
unfolding redis_hit lookup insert
redis_third_is_blocked = refl

blocked_then_allowed_example : (hit (hit limiter 3000000 "a").0 62000000 "a").1 ≡ allowed
unfolding hit recorded lookup insert
blocked_then_allowed_example =
    blocked_then_allowed limiter 3000000 62000000 58 "a" (omega arith) refl (omega arith)
