-- ===== src/RateLimit/Redis.antt =====
-- `RedisAuthRateLimiter`: a counter with an expiry, kept by a Redis server. The server is not this
-- program's code: its commands are the operations of `Redis`, with the documented laws of
-- INCR, TTL, EXPIRE and DEL. A TTL of `none` is a negative reply (no key, or no expiry).
use Prim.Native.String.{◌++◌ as str_append}
use llm_evaluation_platform.Common.{
  ℕ, suc, ◌≤◌, max, String, ◌≡◌, ◌≢◌, Option, none, some, arith, ltb, ◌==◌, if◌then◌else◌, is_some,
}

-- A missing counter counts as 0.
abbrev pub count : Option ℕ → ℕ
count none = 0
count (some n) = n

pub record Redis : Type 1 where
  pub Store : Type 0
  pub get : String → Store → Option ℕ
  pub ttl : String → Store → Option ℕ
  pub incr : String → Store → ℕ × Store
  pub expire : String → ℕ → Store → Store
  pub delete : String → Store → Store
  pub incr_reply : (k : String) (s : Store) → (incr k s).0 ≡ suc (count (get k s))
  pub get-incr : (k : String) (s : Store) → get k (incr k s).1 ≡ some (suc (count (get k s)))
  pub ttl-incr : (k : String) (s : Store) → ttl k (incr k s).1 ≡ ttl k s
  pub get-expire : (k : String) (n : ℕ) (s : Store) → get k (expire k n s) ≡ get k s
  pub ttl-expire :
      (k : String) (n : ℕ) (s : Store) → get k s ≢ none → 1 ≤ n → ttl k (expire k n s) ≡ some n
  pub get-delete : (k : String) (s : Store) → get k (delete k s) ≡ none

-- `_safe_key`, with the hex digest of SHA-256 as a parameter.
unfoldable pub safe_key : (String → String) → String → String
safe_key sha256_hex identifier = str_append "evalflow:auth-rate:" (sha256_hex identifier)

module _ (r : Redis) (sha256_hex : String → String) (max_attempts window_seconds : ℕ) where
  open r use {Store, get, ttl, incr, expire, delete}

  -- The TTL after the counter was incremented; a first or unexpiring counter is given the window.
  unfoldable pub renew : String → ℕ → Option ℕ → Store → ℕ × Store
  renew key n none s = (window_seconds, expire key window_seconds s)
  renew key n (some t) s = if n == 1 then (window_seconds, expire key window_seconds s) else (t, s)

  -- The retry time when blocked. The pipeline runs INCR and TTL as one transaction.
  unfoldable pub redis_hit : String → Store → Option ℕ × Store
  unfolding safe_key renew
  redis_hit identifier s =
      let key = safe_key sha256_hex identifier in
      let (n, s1) = incr key s in
      let (t, s2) = renew key n (ttl key s1) s1 in
      (if ltb max_attempts n then some (max 1 t) else none, s2)

  unfoldable pub redis_reset : String → Store → Store
  unfolding safe_key
  redis_reset identifier s = delete (safe_key sha256_hex identifier) s

  -- One call counts one attempt, is blocked exactly beyond `max_attempts`, and leaves the counter
  -- with an expiry, also where an earlier call was cut off before it could set one.
  pub redis_hit_lem :
      (i : String) (s : Store)
      → 1 ≤ window_seconds
      → let (result, s') = redis_hit i s in
        (get (safe_key sha256_hex i) s' ≡ some (suc (count (get (safe_key sha256_hex i) s))))
        × (is_some result ≡ ltb max_attempts (suc (count (get (safe_key sha256_hex i) s))))
        × (ttl (safe_key sha256_hex i) s' ≢ none)
  unfolding redis_hit
  redis_hit_lem i s w =
      let k = safe_key sha256_hex i in
      let s1 = (incr k s).1 in
      ground (
        arith,
        r.incr_reply k s,
        r.get-incr k s,
        r.get-expire k window_seconds s1,
        r.ttl-expire k window_seconds s1,
      )

  -- After a reset an attempt is accepted and counted as the first of a full window.
  redis_hit-reset :
      (i : String) (s : Store)
      → 1 ≤ max_attempts
      → 1 ≤ window_seconds
      → let (result, s') = redis_hit i (redis_reset i s) in
        (result ≡ none)
        × (get (safe_key sha256_hex i) s' ≡ some 1)
        × (ttl (safe_key sha256_hex i) s' ≡ some window_seconds)
  unfolding redis_hit redis_reset
  redis_hit-reset i s p w =
      let k = safe_key sha256_hex i in
      let s0 = delete k s in
      let s1 = (incr k s0).1 in
      ground (
        arith,
        r.incr_reply k s0,
        r.get-delete k s,
        r.get-incr k s0,
        r.get-expire k window_seconds s1,
        r.ttl-expire k window_seconds s1,
      )
