-- ===== src/Auth/Endpoints/Access.antt =====
-- Who gets in: what a login needs, what a refused one leaves, and what a limited caller can do.
use llm_evaluation_platform.Common.{String, ◌≡◌, refl, ◌⊎◌, true, false, ◌&&◌, arith, is_none}
use llm_evaluation_platform.RateLimit.Memory.{allowed}
use llm_evaluation_platform.Auth.Models.{User, Rows, no_row, one_row, many_rows, one_or_none}
use llm_evaluation_platform.Auth.Sessions.{create_refresh_session}
use llm_evaluation_platform.Auth.Http.{Response, reply, http_error, RateLimiter, App, is_reply}
use llm_evaluation_platform.Auth.Endpoints.{
  Env, Draw, Request, TokenResponse, rate_limit_identifier, users_by_email, login,
}

module _ (L : RateLimiter) (env : Env) (scope : String) (request : Request)
    (email password : String) (d : Draw) (app : App L.State) where
  -- The identifier under which the limiter counts this request.
  abbrev pub counted_as : String
  counted_as = rate_limit_identifier L env request scope email

  -- What holds of a request that is answered with the tokens of `user`.
  pub record LoggedIn (user : User) : Type 0 where
    pub passed : (L.hit d.now counted_as app.limiter).0 ≡ allowed
    pub found : one_or_none (users_by_email L env (env.strip_lower email) app.db) ≡ one_row user
    pub active : user.is_active ≡ true
    pub verified : env.verify_password password user.password_hash ≡ true
    pub confirmed :
        env.settings.require_email_verification && is_none user.email_verified_at ≡ false

  login_rows :
      (r : TokenResponse) (app' : App L.State) (rows : Rows User)
      → one_or_none (users_by_email L env (env.strip_lower email) app.db) ≡ rows
      → login L env scope request email password d app ≡ (reply r, app')
      → (user : User) × LoggedIn user × (r.access_token ≡ env.create_access_token user.id d.now)
  unfolding login
  login_rows r app' no_row f e = absurd (ground arith)
  login_rows r app' many_rows f e = absurd (ground arith)
  login_rows r app' (one_row user) f e = (
    user,
    record {
      passed = ground arith;
      found = f;
      active = ground arith;
      verified = ground arith;
      confirmed = ground arith;
    },
    ground arith,
  )

  -- A login answers with tokens only if the limiter let it pass and the password verifies against
  -- the hash of the one active user with this address, whose address is verified where the settings
  -- ask for that; the access token is that user's.
  pub login_sound :
      (r : TokenResponse) (app' : App L.State)
      → login L env scope request email password d app ≡ (reply r, app')
      → (user : User) × LoggedIn user × (r.access_token ≡ env.create_access_token user.id d.now)
  login_sound r app' e =
      login_rows r app' (one_or_none (users_by_email L env (env.strip_lower email) app.db)) refl e

  -- A login that does not answer with tokens leaves the database as it was.
  pub login_refused_unchanged :
      (r : Response TokenResponse) (app' : App L.State)
      → login L env scope request email password d app ≡ (r, app')
      → is_reply r ≡ false
      → app'.db ≡ app.db
  unfolding login create_refresh_session
  login_refused_unchanged r app' e ne = ground arith

  -- To a caller that the limiter lets pass, an unknown address, a deactivated account and a wrong
  -- password are answered alike, and change nothing but the limiter's count.
  pub login_failures_alike :
      (user : User)
      → (L.hit d.now counted_as app.limiter).0 ≡ allowed
      → (one_or_none (users_by_email L env (env.strip_lower email) app.db) ≡ no_row)
        ⊎ ((one_or_none (users_by_email L env (env.strip_lower email) app.db) ≡ one_row user)
            × ((user.is_active ≡ false)
                ⊎ (env.verify_password password user.password_hash ≡ false)))
      → login L env scope request email password d app
        ≡ (http_error 401, record app { limiter = (L.hit d.now counted_as app.limiter).1 })
  unfolding login
  login_failures_alike user pass fails = ground arith
