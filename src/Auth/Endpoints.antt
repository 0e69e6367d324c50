-- ===== src/Auth/Endpoints.antt =====
-- The endpoints of backend/api/auth.py, each the whole handler: the rate limit, the checks, the
-- writes and the cookie. What the handlers take from libraries (Argon2 hashes, SHA-256, JWT,
-- `str.strip().lower()`) are the functions of `Env`; the clock and the random values of one request
-- are a `Draw`. Log lines are left out.
pub mod Access
use llm_evaluation_platform.Common.{
  ℕ, zero, suc, ◌+◌, ◌-◌, ◌*◌, ◌/◌, ◌%◌, ◌^◌, ◌≤◌, ◌<◌, min, max, String, ◌≡◌, refl, sym, ap, ◌∙◌,
  ◌≢◌, ◌↔◌, ◌⊎◌, inl, inr, Bool, true, false, ◌&&◌, ◌||◌, not, Option, none, some, List, [], ◌∷◌,
  ◌++◌, map, arith, eq_iff, ltb, leb, ◌==◌, str_eq, if◌then◌else◌, is_none, is_some, Bool-cases,
  Option-cases, &&-eq-true, ==_iff, length, filter, any, all, get_elem?, take, drop, All,
  length-append, filter-append, length-filter-le, length-take-le,
}
use Prim.Native.String.{◌++◌ as str_append}
use llm_evaluation_platform.RateLimit.Memory.{HitResult, allowed, blocked, index_error}
use llm_evaluation_platform.Auth.Models.{
  User, AccountTokenPurpose, verify_email, reset_password, AccountActionToken, AuthDb, Rows, no_row,
  one_row, many_rows, one_or_none, find_user, update_user, insert_user, ticks_per_hour,
  ticks_per_minute,
}
use llm_evaluation_platform.Auth.Sessions
use llm_evaluation_platform.Auth.Sessions.{
  SessionResult, SessionError, create_refresh_session, rotate_refresh_session,
  revoke_refresh_session, revoke_all_user_sessions,
}
use llm_evaluation_platform.Auth.Tokens
use llm_evaluation_platform.Auth.Tokens.{
  TokenResult, TokenError, issue_account_token, get_valid_account_token, consume_user_tokens,
  consume_row, with_tokens,
}
use llm_evaluation_platform.Auth.Http.{
  Response, reply, http_error, too_many_requests, refuse_cookie, server_error, RateLimiter, Email,
  App, Action, pure, raise, ◌>>=◌, ◌>>◌,
}

pub record Settings : Type 0 where
  pub refresh_token_expire_days : ℕ
  pub access_token_expire_minutes : ℕ
  pub require_email_verification : Bool
  pub email_verification_expire_hours : ℕ
  pub password_reset_expire_minutes : ℕ

pub record Env : Type 0 where
  pub settings : Settings
  pub sha256_hex : String → String
  -- `str.strip().lower()`
  pub strip_lower : String → String
  -- the salt is the library's random choice
  pub hash_password : String → String → String
  pub verify_password : String → String → Bool
  pub dummy_password_hash : String
  -- `create_access_token` at a time
  pub create_access_token : ℕ → ℕ → String

-- What one request draws from outside: the clock, two random tokens, UUIDs and a salt.
pub record Draw : Type 0 where
  pub now : ℕ
  pub token : String
  pub row_id : ℕ
  pub family_id : ℕ
  pub user_id : ℕ
  pub salt : String

-- The parts of a request that the handlers read.
pub record Request : Type 0 where
  pub client_host : Option String
  pub refresh_cookie : Option String

pub record TokenResponse : Type 0 where
  pub access_token : String
  pub expires_in : ℕ
  -- the `Set-Cookie` of the response
  pub refresh_cookie : String

abbrev pub session_draw : Draw → Sessions.Draw
session_draw d = record { now = d.now; token = d.token; row_id = d.row_id; family_id = d.family_id }

module _ (L : RateLimiter) (env : Env) where
  open L use {State, hit, reset}

  unfoldable pub rate_limit_identifier : Request → String → String → String
  rate_limit_identifier request scope account =
      let host : String = elim request.client_host [ none ↦ "unknown" | some h ↦ h ] in
      env.sha256_hex (
        str_append scope
          (str_append "|" (str_append host (str_append "|" (env.strip_lower account)))))

  unfoldable pub enforce_rate_limit : ℕ → String → Action State (Unit {0})
  enforce_rate_limit now identifier app =
      let (r, s) = hit now identifier app.limiter in
      (
        elim r [
          | allowed ↦ reply tt
          | blocked n ↦ too_many_requests n
          | index_error ↦ server_error
        ],
        record app { limiter = s },
      )

  -- `limiter.reset(identifier)`
  abbrev pub reset_limit : String → Action State (Unit {0})
  reset_limit identifier app = (reply tt, record app { limiter = reset identifier app.limiter })

  -- `scalars(select(User).where(User.email == email)).one_or_none()`
  abbrev pub users_by_email : String → AuthDb → List User
  users_by_email email db = filter (λ u. str_eq u.email email) db.users

  -- The hash that `_authenticate_user` verifies against, a dummy where there is no active user.
  abbrev pub encoded_hash : Option User → String
  encoded_hash none = env.dummy_password_hash
  encoded_hash (some user) = if user.is_active then user.password_hash else env.dummy_password_hash

  abbrev pub check_user : Option User → Bool → Response User
  check_user none valid_password = http_error 401
  check_user (some user) valid_password =
      if not user.is_active || not valid_password
      then http_error 401
      else if env.settings.require_email_verification && is_none user.email_verified_at
      then http_error 403
      else reply user

  unfoldable pub authenticate_user : String → String → Action State User
  authenticate_user email password app =
      let verified =
        λ (o : Option User). check_user o (env.verify_password password (encoded_hash o)) in
      (
        elim (one_or_none (users_by_email (env.strip_lower email) app.db)) [
          | no_row ↦ verified none
          | one_row user ↦ verified (some user)
          | many_rows ↦ server_error
        ],
        app,
      )

  -- `_token_response`, with the cookie that `set_refresh_cookie` adds
  abbrev pub token_response : ℕ → String → User → TokenResponse
  token_response now refresh_token user = record {
    access_token = env.create_access_token user.id now;
    expires_in = env.settings.access_token_expire_minutes * 60;
    refresh_cookie = refresh_token;
  }

  abbrev pub create_session : ℕ → Draw → Action State String
  create_session user_id d app =
      let (r, db) =
        create_refresh_session env.sha256_hex env.settings.refresh_token_expire_days app.db user_id
          (session_draw d) in
      (
        elim r [ Sessions.ok token ↦ reply token | Sessions.err _ ↦ server_error ],
        record app { db = db },
      )

  -- `login` and `oauth2_token`, which differ in the scope of the rate limit.
  unfoldable pub login : String → Request → String → String → Draw → Action State TokenResponse
  unfolding rate_limit_identifier enforce_rate_limit authenticate_user
  login scope request email password d = do
    enforce_rate_limit d.now (rate_limit_identifier request scope email)
    user ← authenticate_user email password
    reset_limit (rate_limit_identifier request scope email)
    refresh_token ← create_session user.id d
    pure (token_response d.now refresh_token user)

  -- `issue_account_token` and the background task that delivers the email.
  abbrev pub send_token : User → AccountTokenPurpose → ℕ → Draw → Action State (Unit {0})
  send_token user purpose expires_delta d app =
      let (r, db) =
        issue_account_token env.sha256_hex app.db user.id purpose expires_delta d.now d.token
          d.row_id in
      elim r [
        | Tokens.ok token ↦ (
          reply tt,
          record app {
            db = db;
            outbox =
                record { purpose = purpose; recipient = user.email; token = token } ∷ app.outbox;
          },
        )
        | Tokens.err _ ↦ (server_error, record app { db = db })
      ]

  -- The row of the new account, committed under the unique index on `email`.
  abbrev pub add_user : User → Action State (Unit {0})
  add_user user app = elim (insert_user user app.db.users) [
    | none ↦ (http_error 409, app)
    | some us ↦ let db = app.db in (reply tt, record app { db = record db { users = us } })
  ]

  unfoldable pub register_user : Request → String → String → Draw → Action State User
  unfolding rate_limit_identifier enforce_rate_limit
  register_user request email password d = do
    enforce_rate_limit d.now (rate_limit_identifier request "register" email)
    let user : User = record {
      id = d.user_id;
      email = email;
      password_hash = env.hash_password d.salt password;
      is_active = true;
      email_verified_at = none;
    }
    add_user user
    send_token user verify_email (env.settings.email_verification_expire_hours * ticks_per_hour) d
    pure user

  abbrev pub rotate : String → Draw → Action State (String × User)
  rotate token d app =
      let (r, db) =
        rotate_refresh_session env.sha256_hex env.settings.refresh_token_expire_days app.db token
          (session_draw d) in
      (
        elim r [
          | Sessions.ok x ↦ reply x
          | Sessions.err e ↦ elim e [
            | Sessions.multiple_results ↦ server_error
            | Sessions.integrity_error ↦ server_error
            | _ ↦ refuse_cookie
          ]
        ],
        record app { db = db },
      )

  -- A missing or empty cookie is refused before the database is asked.
  abbrev pub cookie_token : Option String → Action State String
  cookie_token none app = (refuse_cookie, app)
  cookie_token (some token) app = (if str_eq token "" then refuse_cookie else reply token, app)

  unfoldable pub refresh_access_token : Request → Draw → Action State TokenResponse
  unfolding rate_limit_identifier enforce_rate_limit
  refresh_access_token request d = do
    enforce_rate_limit d.now (rate_limit_identifier request "refresh" "")
    token ← cookie_token request.refresh_cookie
    (replacement, user) ← rotate token d
    reset_limit (rate_limit_identifier request "refresh" "")
    pure (token_response d.now replacement user)

  unfoldable pub logout : Request → ℕ → Action State (Unit {0})
  logout request now app =
      let (r, db) =
        revoke_refresh_session env.sha256_hex env.settings.refresh_token_expire_days app.db
          request.refresh_cookie now in
      (elim r [ Sessions.ok _ ↦ reply tt | Sessions.err _ ↦ server_error ], record app { db = db })

  -- The user is the one of the access token.
  unfoldable pub logout_all : User → ℕ → Action State (Unit {0})
  logout_all user now app =
      (reply tt, record app { db = revoke_all_user_sessions app.db user.id now })
