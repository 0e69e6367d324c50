-- ===== src/Auth/Tests.antt =====
-- The theorems about accounts and sessions at concrete databases.
use llm_evaluation_platform.Common.{
  ℕ, String, ◌≡◌, refl, ◌≢◌, true, none, some, List, [], ◌∷◌, arith,
}
use Prim.Native.String.{◌++◌ as str_append}
use llm_evaluation_platform.Auth.Models.{
  User, RefreshSession, AuthDb, reset_password, AccountActionToken,
}
use llm_evaluation_platform.Auth.Sessions
use llm_evaluation_platform.Auth.Sessions.{
  revoke_where, of_user, sessions_of_token, rotate_refresh_session, revoke_refresh_session,
  revoke_all_user_sessions, create_refresh_session, fresh_row, insert_session,
}
use llm_evaluation_platform.Auth.Sessions.Families.{live_in, OneLive, rotate_hands_over}
use llm_evaluation_platform.Auth.Sessions.Replay.{
  Request, refresh, login, logout, run, apply, run-OneLive,
}
use llm_evaluation_platform.Auth.Sessions.SingleUse.{
  token_works_once, logout_ends_family, replay_ends_family,
}
use llm_evaluation_platform.Auth.Tokens
use llm_evaluation_platform.Auth.Tokens.{
  issue_account_token, get_valid_account_token, issued_row, insert_token,
}

-- A stand-in for SHA-256.
abbrev sha : String → String
sha s = str_append "#" s

abbrev ann : User
ann = record {
  id = 1;
  email = "ann@x.org";
  password_hash = "h:pw";
  is_active = true;
  email_verified_at = some 5;
}

abbrev session : RefreshSession
session = record {
  id = 10;
  user_id = 1;
  family_id = 7;
  token_hash = "#t0";
  expires_at = 1000;
  revoked_at = none;
  replaced_by_id = none;
}

abbrev reset_token : AccountActionToken
reset_token = record {
  id = 20;
  user_id = 1;
  purpose = reset_password;
  token_hash = "#r0";
  expires_at = 1000;
  consumed_at = none;
}

abbrev db : AuthDb
db = record {
  users = ann ∷ [];
  refresh_sessions = session ∷ [];
  account_action_tokens = reset_token ∷ [];
}

abbrev draw : ℕ → String → Sessions.Draw
draw row token = record { now = 100; token = token; row_id = row; family_id = row }

abbrev after_rotation : AuthDb
after_rotation = record db {
  refresh_sessions =
      fresh_row sha 30 1 7 (draw 11 "t1")
      ∷ record session { revoked_at = some 100; replaced_by_id = some 11 }
      ∷ [];
}

rotates :
    rotate_refresh_session sha 30 db "t0" (draw 11 "t1") ≡ (Sessions.ok ("t1", ann), after_rotation)
unfolding rotate_refresh_session insert_session
rotates = refl

db-OneLive : OneLive db.refresh_sessions
db-OneLive family = ground arith

rotate_hands_over_example :
    live_in 7 after_rotation.refresh_sessions ≡ fresh_row sha 30 1 7 (draw 11 "t1") ∷ []
rotate_hands_over_example =
    rotate_hands_over sha 30 db after_rotation "t0" (draw 11 "t1") "t1" ann session db-OneLive refl
      rotates

abbrev requests : List Request
requests = refresh "t1" (draw 12 "t2") ∷ login 1 (draw 13 "u0") ∷ logout (some "t2") 101 ∷ []

run-OneLive_example : OneLive (run sha 30 db requests).refresh_sessions
unfolding apply create_refresh_session rotate_refresh_session revoke_refresh_session insert_session
run-OneLive_example = run-OneLive sha 30 db requests db-OneLive (tt, (refl, (tt, tt)))

token_works_once_example :
    rotate_refresh_session sha 30 (run sha 30 after_rotation requests) "t0" (draw 15 "t3")
    ≢ (Sessions.ok ("t3", ann), db)
token_works_once_example =
    token_works_once sha 30 db after_rotation db "t0" (draw 11 "t1") (draw 15 "t3") "t1" "t3" ann
      ann requests rotates

logout_ends_family_example :
    rotate_refresh_session sha 30
      (run sha 30 (revoke_refresh_session sha 30 after_rotation (some "t0") 102).1 requests)
      "t1"
      (draw 15 "t3")
    ≢ (Sessions.ok ("t3", ann), db)
logout_ends_family_example =
    logout_ends_family sha 30 after_rotation db "t0" "t1"
      (record session { revoked_at = some 100; replaced_by_id = some 11 })
      (fresh_row sha 30 1 7 (draw 11 "t1")) 102 (draw 15 "t3") "t3" ann requests refl refl refl refl

replay_ends_family_example :
    ((rotate_refresh_session sha 30 after_rotation "t0" (draw 14 "x")).0
      ≡ Sessions.err Sessions.reuse_detected)
    × (rotate_refresh_session sha 30
          (run sha 30 (rotate_refresh_session sha 30 after_rotation "t0" (draw 14 "x")).1 requests)
          "t1"
          (draw 15 "t3")
        ≢ (Sessions.ok ("t3", ann), db))
replay_ends_family_example =
    replay_ends_family sha 30 after_rotation db "t0" "t1"
      (record session { revoked_at = some 100; replaced_by_id = some 11 })
      (fresh_row sha 30 1 7 (draw 11 "t1")) 100 11 (draw 14 "x") (draw 15 "t3") "t3" ann requests
      refl refl refl refl refl

abbrev after_issue : AuthDb
after_issue = record db {
  account_action_tokens =
      issued_row sha 1 reset_password 60 100 "r1" 21
      ∷ record reset_token { consumed_at = some 100 }
      ∷ [];
}

issues : issue_account_token sha db 1 reset_password 60 100 "r1" 21 ≡ (Tokens.ok "r1", after_issue)
unfolding issue_account_token insert_token
issues = refl
