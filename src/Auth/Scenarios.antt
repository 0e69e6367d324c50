-- ===== src/Auth/Scenarios.antt =====
-- The theorems about the endpoints at concrete requests, with the in-memory limiter.
use llm_evaluation_platform.Common.{◌≡◌, refl, ◌≢◌, inr, true, none, some, [], ◌∷◌, str_eq}
use Prim.Native.String.{◌++◌ as str_append}
use llm_evaluation_platform.Common.Dict.{lookup, insert, erase}
use llm_evaluation_platform.RateLimit.Memory
use llm_evaluation_platform.RateLimit.Memory.{MemoryAuthRateLimiter, HitResult, allowed, recorded}
use llm_evaluation_platform.Auth.Models.{User, RefreshSession, reset_password, AccountActionToken}
use llm_evaluation_platform.Auth.Sessions.{
  revoke_all_user_sessions, create_refresh_session, insert_session,
}
use llm_evaluation_platform.Auth.Tokens
use llm_evaluation_platform.Auth.Tokens.{
  issue_account_token, get_valid_account_token, consume_user_tokens, insert_token,
}
use llm_evaluation_platform.Auth.Http.{Response, reply, http_error, RateLimiter, App}
use llm_evaluation_platform.Auth.Endpoints.{
  Env, Draw, Request, TokenResponse, rate_limit_identifier, enforce_rate_limit, authenticate_user,
  login,
}
use llm_evaluation_platform.Auth.Endpoints.Access.{
  login_sound, login_failures_alike, LoggedIn, counted_as,
}
use llm_evaluation_platform.Auth.Recovery.{request_password_reset, confirm_password_reset}
use llm_evaluation_platform.Common.{arith}
use llm_evaluation_platform.Auth.Recovery.Requested.{reset_request_reveals_nothing}
use llm_evaluation_platform.Auth.Recovery.Reset.{
  reset_ends_sessions, reset_token_works_once, WasReset,
}

abbrev limiter : RateLimiter
limiter = record {
  State = MemoryAuthRateLimiter;
  hit = λ now identifier s. ((Memory.hit s now identifier).1, (Memory.hit s now identifier).0);
  reset = λ identifier s. Memory.reset s identifier;
}

abbrev env : Env
env = record {
  settings = record {
    refresh_token_expire_days = 30;
    access_token_expire_minutes = 15;
    require_email_verification = true;
    email_verification_expire_hours = 24;
    password_reset_expire_minutes = 30;
  };
  sha256_hex = λ s. str_append "#" s;
  strip_lower = λ s. s;
  hash_password = λ salt password. str_append "h:" password;
  verify_password = λ password hash. str_eq hash (str_append "h:" password);
  dummy_password_hash = "dummy";
  create_access_token = λ user now. "jwt";
}

abbrev ann : User
ann = record {
  id = 1;
  email = "ann@x.org";
  password_hash = "h:pw";
  is_active = true;
  email_verified_at = some 5;
}

abbrev session : RefreshSession
session = record {
  id = 10;
  user_id = 1;
  family_id = 7;
  token_hash = "#t0";
  expires_at = 1000;
  revoked_at = none;
  replaced_by_id = none;
}

abbrev reset_row : AccountActionToken
reset_row = record {
  id = 20;
  user_id = 1;
  purpose = reset_password;
  token_hash = "#r0";
  expires_at = 1000;
  consumed_at = none;
}

abbrev app : App MemoryAuthRateLimiter
app = record {
  db = record {
    users = ann ∷ [];
    refresh_sessions = session ∷ [];
    account_action_tokens = reset_row ∷ [];
  };
  limiter = record { max_attempts = 10; window_seconds = 60; attempts = [] };
  outbox = [];
}

-- The same service without accounts.
abbrev empty_app : App MemoryAuthRateLimiter
empty_app = record app {
  db = record { users = []; refresh_sessions = []; account_action_tokens = [] };
}

abbrev request : Request
request = record { client_host = some "10.0.0.1"; refresh_cookie = none }

abbrev draw : Draw
draw = record { now = 100; token = "t1"; row_id = 30; family_id = 31; user_id = 32; salt = "s" }

abbrev after_login : Response TokenResponse × App MemoryAuthRateLimiter
after_login = login limiter env "login" request "ann@x.org" "pw" draw app

abbrev tokens : TokenResponse
tokens = record { access_token = "jwt"; expires_in = 900; refresh_cookie = "t1" }

logs_in :
    login limiter env "login" request "ann@x.org" "pw" draw app ≡ (reply tokens, after_login.1)
unfolding login rate_limit_identifier enforce_rate_limit authenticate_user create_refresh_session
    insert_session Memory.hit Memory.reset recorded lookup insert erase
logs_in = refl

login_sound_example :
    (user : User) × LoggedIn limiter env "login" request "ann@x.org" "pw" draw app user
    × (tokens.access_token ≡ env.create_access_token user.id 100)
login_sound_example =
    login_sound limiter env "login" request "ann@x.org" "pw" draw app tokens after_login.1 logs_in

abbrev after_refusal : Response TokenResponse × App MemoryAuthRateLimiter
after_refusal = login limiter env "login" request "ann@x.org" "wrong" draw app

is_refused :
    login limiter env "login" request "ann@x.org" "wrong" draw app
    ≡ (http_error 401, after_refusal.1)
unfolding login rate_limit_identifier enforce_rate_limit authenticate_user Memory.hit recorded
    lookup insert
is_refused = refl

is_allowed :
    (limiter.hit 100
      (counted_as limiter env "login" request "ann@x.org" "wrong" draw app)
      app.limiter).0
    ≡ allowed
unfolding rate_limit_identifier Memory.hit recorded lookup insert
is_allowed = refl

login_failures_alike_example : login limiter env "login" request "ann@x.org" "wrong" draw app ≡ (
  http_error 401,
  record app {
    limiter =
        (limiter.hit 100
          (counted_as limiter env "login" request "ann@x.org" "wrong" draw app)
          app.limiter).1;
  },
)
login_failures_alike_example =
    login_failures_alike limiter env "login" request "ann@x.org" "wrong" draw app ann is_allowed
      (inr (refl, inr refl))

reset_request_reveals_nothing_example :
    ((request_password_reset limiter env request "ann@x.org" draw app).0
      ≡ (request_password_reset limiter env request "ann@x.org" draw empty_app).0)
    × ((request_password_reset limiter env request "ann@x.org" draw app).1.limiter
        ≡ (request_password_reset limiter env request "ann@x.org" draw empty_app).1.limiter)
reset_request_reveals_nothing_example =
    reset_request_reveals_nothing limiter env request "ann@x.org" draw app empty_app refl
      (omega arith, refl) (omega arith, refl)

abbrev after_reset : Response (Unit {0}) × App MemoryAuthRateLimiter
after_reset = confirm_password_reset limiter env request "r0" "new" draw app

resets : confirm_password_reset limiter env request "r0" "new" draw app ≡ (reply tt, after_reset.1)
unfolding confirm_password_reset rate_limit_identifier enforce_rate_limit get_valid_account_token
    consume_user_tokens revoke_all_user_sessions Memory.hit recorded lookup insert
resets = refl

reset_ends_sessions_example :
    (stored : AccountActionToken) × (user : User) × WasReset limiter env request "r0" "new" draw app
      after_reset.1 stored user
reset_ends_sessions_example =
    reset_ends_sessions limiter env request "r0" "new" draw app after_reset.1 resets

reset_token_works_once_example :
    get_valid_account_token env.sha256_hex after_reset.1.db "r0" reset_password 101
    ≢ Tokens.ok (reset_row, ann)
reset_token_works_once_example =
    reset_token_works_once limiter env request "r0" "new" draw app after_reset.1 101 reset_row ann
      resets
