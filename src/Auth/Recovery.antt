-- ===== src/Auth/Recovery.antt =====
-- The account recovery endpoints of backend/api/auth.py: requesting and confirming an email
-- verification or a password reset. The parameters are those of `Auth.Endpoints`.
pub mod Reset
pub mod Requested
use llm_evaluation_platform.Common.{
  ℕ, zero, suc, ◌+◌, ◌-◌, ◌*◌, ◌/◌, ◌%◌, ◌^◌, ◌≤◌, ◌<◌, min, max, String, ◌≡◌, refl, sym, ap, ◌∙◌,
  ◌≢◌, ◌↔◌, ◌⊎◌, inl, inr, Bool, true, false, ◌&&◌, ◌||◌, not, Option, none, some, List, [], ◌∷◌,
  ◌++◌, map, arith, eq_iff, ltb, leb, ◌==◌, str_eq, if◌then◌else◌, is_none, is_some, Bool-cases,
  Option-cases, &&-eq-true, ==_iff, length, filter, any, all, get_elem?, take, drop, All,
  length-append, filter-append, length-filter-le, length-take-le,
}
use Prim.Native.String.{◌++◌ as str_append}
use llm_evaluation_platform.RateLimit.Memory.{HitResult, allowed, blocked, index_error}
use llm_evaluation_platform.Auth.Models.{
  User, AccountTokenPurpose, verify_email, reset_password, AccountActionToken, AuthDb, Rows, no_row,
  one_row, many_rows, one_or_none, find_user, update_user, insert_user, ticks_per_hour,
  ticks_per_minute,
}
use llm_evaluation_platform.Auth.Sessions
use llm_evaluation_platform.Auth.Sessions.{
  SessionResult, SessionError, create_refresh_session, rotate_refresh_session,
  revoke_refresh_session, revoke_all_user_sessions,
}
use llm_evaluation_platform.Auth.Tokens
use llm_evaluation_platform.Auth.Tokens.{
  TokenResult, TokenError, issue_account_token, get_valid_account_token, consume_user_tokens,
  consume_row, with_tokens,
}
use llm_evaluation_platform.Auth.Http.{
  Response, reply, http_error, too_many_requests, refuse_cookie, server_error, RateLimiter, Email,
  App, Action, pure, raise, ◌>>=◌, ◌>>◌,
}
use llm_evaluation_platform.Auth.Endpoints.{
  Env, Settings, Draw, Request, rate_limit_identifier, enforce_rate_limit, users_by_email,
  send_token,
}

abbrev pub email_verification_requested : String
email_verification_requested =
    "If the account exists and needs verification, an email has been sent."

abbrev pub password_reset_requested : String
password_reset_requested = "If the account exists, password reset instructions have been sent."

module _ (L : RateLimiter) (env : Env) where
  open L use {State}

  -- Sends a token to the user found, if `wanted` holds of it.
  abbrev pub send_if_wanted :
      (User → Bool) → AccountTokenPurpose → ℕ → String → Draw → Action State (Unit {0})
  send_if_wanted wanted purpose expires_delta email d app =
      elim (one_or_none (users_by_email L env email app.db)) [
        | no_row ↦ (reply tt, app)
        | one_row user ↦
            if wanted user
            then send_token L env user purpose expires_delta d app
            else (reply tt, app)
        | many_rows ↦ (server_error, app)
      ]

  unfoldable pub request_email_verification : Request → String → Draw → Action State String
  unfolding rate_limit_identifier enforce_rate_limit
  request_email_verification request email d = do
    enforce_rate_limit L env d.now
        (rate_limit_identifier L env request "email-verification-request" email)
    send_if_wanted (λ u. u.is_active && is_none u.email_verified_at) verify_email
        (env.settings.email_verification_expire_hours * ticks_per_hour) email d
    pure email_verification_requested

  unfoldable pub request_password_reset : Request → String → Draw → Action State String
  unfolding rate_limit_identifier enforce_rate_limit
  request_password_reset request email d = do
    enforce_rate_limit L env d.now
        (rate_limit_identifier L env request "password-reset-request" email)
    send_if_wanted (λ u. u.is_active) reset_password
        (env.settings.password_reset_expire_minutes * ticks_per_minute) email d
    pure password_reset_requested

  abbrev pub valid_token :
      String → AccountTokenPurpose → ℕ → Action State (AccountActionToken × User)
  valid_token token purpose now app = (
    elim (get_valid_account_token env.sha256_hex app.db token purpose now) [
      | Tokens.ok x ↦ reply x
      | Tokens.err e ↦ elim e [
        | Tokens.multiple_results ↦ server_error
        | Tokens.integrity_error ↦ server_error
        | _ ↦ http_error 400
      ]
    ],
    app,
  )

  -- The writes of a confirmation: the token's row, the user, and the user's other tokens.
  abbrev pub confirm :
      AccountActionToken → User → AccountTokenPurpose → (User → User) → ℕ → AuthDb → AuthDb
  confirm stored user purpose change now db =
      consume_user_tokens
        (record db {
          users = update_user user.id change db.users;
          account_action_tokens = consume_row stored.id now db.account_action_tokens;
        })
        user.id purpose now

  unfoldable pub confirm_email_verification : Request → String → Draw → Action State (Unit {0})
  unfolding rate_limit_identifier enforce_rate_limit
  confirm_email_verification request token d = do
    enforce_rate_limit L env d.now
        (rate_limit_identifier L env request "email-verification-confirm" "")
    (stored, user) ← valid_token token verify_email d.now
    λ app. (
      reply tt,
      record app {
        db =
            confirm stored user verify_email (λ u. record u { email_verified_at = some d.now })
              d.now app.db;
      },
    )

  -- `user.email_verified_at or now`
  abbrev pub or_now : Option ℕ → ℕ → Option ℕ
  or_now none now = some now
  or_now (some t) now = some t

  unfoldable pub confirm_password_reset : Request → String → String → Draw → Action State (Unit {0})
  unfolding rate_limit_identifier enforce_rate_limit
  confirm_password_reset request token new_password d = do
    enforce_rate_limit L env d.now (rate_limit_identifier L env request "password-reset-confirm" "")
    (stored, user) ← valid_token token reset_password d.now
    λ app. (
      reply tt,
      record app {
        db =
            revoke_all_user_sessions
              (confirm stored user reset_password
                (λ u. record u {
                  password_hash = env.hash_password d.salt new_password;
                  email_verified_at = or_now u.email_verified_at d.now;
                })
                d.now app.db)
              user.id d.now;
      },
    )
