-- ===== src/Auth/Http.antt =====
-- A request handler: it answers or ends in an HTTP error, and the state that it has written stays
-- written either way.
use llm_evaluation_platform.Common.{ℕ, String, Bool, true, false, List}
use llm_evaluation_platform.RateLimit.Memory.{HitResult}
use llm_evaluation_platform.Auth.Models.{AccountTokenPurpose, AuthDb}

pub data Response (A : Type 0) : Type 0 where
  reply : A → Response A
  -- `HTTPException` with its status
  http_error : ℕ → Response A
  -- 429 with the `Retry-After` header
  too_many_requests : ℕ → Response A
  -- 401 that also deletes the refresh cookie
  refuse_cookie : Response A
  -- an exception that no handler catches
  server_error : Response A

-- `AuthRateLimiterProtocol`, on the limiter's own state, at a time of its clock.
pub record RateLimiter : Type 1 where
  pub State : Type 0
  pub hit : ℕ → String → State → HitResult × State
  pub reset : String → State → State

-- An email that a background task delivers after the response.
pub record Email : Type 0 where
  pub purpose : AccountTokenPurpose
  pub recipient : String
  pub token : String

pub record App (S : Type 0) : Type 0 where
  pub db : AuthDb
  pub limiter : S
  pub outbox : List Email

abbrev pub Action : Type 0 → Type 0 → Type 0
Action S A = App S → Response A × App S

abbrev pub pure : {S A : Type 0} → A → Action S A
pure a app = (reply a, app)

abbrev pub raise : {S A : Type 0} → ℕ → Action S A
raise status app = (http_error status, app)

infixl 5 ◌>>=◌ ◌>>◌
abbrev pub ◌>>=◌ : {S A B : Type 0} → Action S A → (A → Action S B) → Action S B
◌>>=◌ m f app =
    let (r, app') = m app in
    elim r [
      | reply a ↦ f a app'
      | http_error status ↦ (http_error status, app')
      | too_many_requests n ↦ (too_many_requests n, app')
      | refuse_cookie ↦ (refuse_cookie, app')
      | server_error ↦ (server_error, app')
    ]

abbrev pub ◌>>◌ : {S B : Type 0} → Action S (Unit {0}) → Action S B → Action S B
m >> k = m >>= λ _. k

abbrev pub is_reply : {A : Type 0} → Response A → Bool
is_reply (reply a) = true
is_reply _ = false
