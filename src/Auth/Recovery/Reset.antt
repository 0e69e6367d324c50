-- ===== src/Auth/Recovery/Reset.antt =====
-- What a password reset promises: its confirmation changes the one account, ends that account's
-- sessions and uses the token up.
use llm_evaluation_platform.Common.{
  ℕ, String, ◌≡◌, refl, Bool, ◌&&◌, not, ◌≢◌, none, List, [], ◌∷◌, arith, str_eq, filter,
}
use llm_evaluation_platform.Auth.Models.{
  User, RefreshSession, AccountTokenPurpose, reset_password, AccountActionToken, AuthDb, one_row,
  one_or_none, one_or_none-eq, update_user,
}
use llm_evaluation_platform.Auth.Sessions.{revoke_where, of_user, revoke_all_user_sessions}
use llm_evaluation_platform.Auth.Sessions.Families.{is_live}
use llm_evaluation_platform.Auth.Tokens
use llm_evaluation_platform.Auth.Tokens.{
  TokenResult, get_valid_account_token, consume_user_tokens, consume_row, consume_where, belongs_to,
  same_purpose, tokens_of, is_open, issue_account_token, insert_token,
}
use llm_evaluation_platform.Auth.Tokens.SingleUse.{
  open-consume_where, valid_account_token, open_tokens,
}
use llm_evaluation_platform.Auth.Http.{reply, RateLimiter, App}
use llm_evaluation_platform.Auth.Endpoints.{Env, Draw, Request}
use llm_evaluation_platform.Auth.Recovery.{confirm_password_reset, or_now}

-- Live sessions of one user.
abbrev pub live_of : ℕ → List RefreshSession → List RefreshSession
live_of user = filter (λ s. is_live s && of_user user s)

live_of-revoke :
    (user now : ℕ) (xs : List RefreshSession)
    → live_of user (revoke_where (of_user user) now xs) ≡ []
live_of-revoke user now [] = refl
live_of-revoke user now (s ∷ xs) = ground (arith, live_of-revoke user now xs)

others-revoke :
    (user now : ℕ) (xs : List RefreshSession)
    → filter (λ s. not (of_user user s)) (revoke_where (of_user user) now xs)
      ≡ filter (λ s. not (of_user user s)) xs
others-revoke user now [] = refl
others-revoke user now (s ∷ xs) = ground (arith, others-revoke user now xs)

-- Logging out everywhere leaves the user no live session and changes no other user's row.
logout_everywhere :
    (db : AuthDb) (user now : ℕ)
    → (live_of user (revoke_all_user_sessions db user now).refresh_sessions ≡ [])
      × (filter (λ s. not (of_user user s)) (revoke_all_user_sessions db user now).refresh_sessions
          ≡ filter (λ s. not (of_user user s)) db.refresh_sessions)
unfolding revoke_all_user_sessions
logout_everywhere db user now =
    (live_of-revoke user now db.refresh_sessions, others-revoke user now db.refresh_sessions)

-- A token whose row is consumed is not accepted.
abbrev pub IsUsed : (String → String) → AuthDb → String → AccountTokenPurpose → Type 0
IsUsed hash db token p = filter is_open (tokens_of hash db token p) ≡ []

abbrev matches : (String → String) → String → AccountTokenPurpose → AccountActionToken → Bool
matches hash token p t = str_eq t.token_hash (hash token) && same_purpose t.purpose p

used-consume_where :
    (hash : String → String) (token : String) (p : AccountTokenPurpose)
    (q : AccountActionToken → Bool) (now : ℕ) (ts : List AccountActionToken)
    → filter is_open (filter (matches hash token p) ts) ≡ []
    → filter is_open (filter (matches hash token p) (consume_where q now ts)) ≡ []
used-consume_where hash token p q now [] e = refl
used-consume_where hash token p q now (t ∷ ts) e =
    ground (arith, used-consume_where hash token p q now ts)

none-consume_row :
    (hash : String → String) (token : String) (p : AccountTokenPurpose) (row now : ℕ)
    (ts : List AccountActionToken)
    → filter (matches hash token p) ts ≡ []
    → filter (matches hash token p) (consume_row row now ts) ≡ []
none-consume_row hash token p row now [] e = refl
none-consume_row hash token p row now (t ∷ ts) e =
    ground (arith, none-consume_row hash token p row now ts)

used-consume_row :
    (hash : String → String) (token : String) (p : AccountTokenPurpose) (s : AccountActionToken)
    (now : ℕ) (ts : List AccountActionToken)
    → filter (matches hash token p) ts ≡ s ∷ []
    → filter is_open (filter (matches hash token p) (consume_row s.id now ts)) ≡ []
used-consume_row hash token p s now [] e = cc
used-consume_row hash token p s now (t ∷ ts) e =
    ground
      (arith, used-consume_row hash token p s now ts, none-consume_row hash token p s.id now ts)

used-refuses :
    (hash : String → String) (db : AuthDb) (token : String) (p : AccountTokenPurpose) (now : ℕ)
    (s : AccountActionToken) (user : User)
    → IsUsed hash db token p
    → get_valid_account_token hash db token p now ≢ Tokens.ok (s, user)
used-refuses hash db token p now s user used e =
    let v = valid_account_token hash db token p now s user e in
    used_row (tokens_of hash db token p) v.0 v.1 used
  where
    used_row :
        (rows : List AccountActionToken)
        → one_or_none rows ≡ one_row s
        → s.consumed_at ≡ none
        → filter is_open rows ≡ []
        → ⊥
    used_row [] f g h = cc
    used_row (x ∷ []) f g h = ground arith
    used_row (x ∷ y ∷ r) f g h = cc

module _ (L : RateLimiter) (env : Env) (request : Request) (token new_password : String)
    (d : Draw) where
  -- What a confirmed reset of the password of `user`, by the token's row `stored`, has done.
  pub record WasReset (app app' : App L.State) (stored : AccountActionToken) (user : User)
      : Type 0 where
    pub accepted :
        get_valid_account_token env.sha256_hex app.db token reset_password d.now
        ≡ Tokens.ok (stored, user)
    pub users :
        app'.db.users
        ≡ update_user user.id
            (λ u. record u {
              password_hash = env.hash_password d.salt new_password;
              email_verified_at = or_now L env u.email_verified_at d.now;
            })
            app.db.users
    pub logged_out : live_of user.id app'.db.refresh_sessions ≡ []
    pub used : IsUsed env.sha256_hex app'.db token reset_password
    pub no_open : open_tokens user.id reset_password app'.db.account_action_tokens ≡ []

  reset_result :
      (app app' : App L.State) (r : TokenResult (AccountActionToken × User))
      → get_valid_account_token env.sha256_hex app.db token reset_password d.now ≡ r
      → confirm_password_reset L env request token new_password d app ≡ (reply tt, app')
      → (stored : AccountActionToken) × (user : User) × WasReset app app' stored user
  unfolding confirm_password_reset consume_user_tokens revoke_all_user_sessions
  reset_result app app' (Tokens.err e) f g = absurd (ground arith)
  reset_result app app' (Tokens.ok (stored, user)) f g =
      let ts = app.db.account_action_tokens in
      let rows =
        λ (h : get_valid_account_token env.sha256_hex app.db token reset_password d.now
            ≡ Tokens.ok (stored, user)).
          one_or_none-eq (tokens_of env.sha256_hex app.db token reset_password) stored
            (valid_account_token env.sha256_hex app.db token reset_password d.now stored user
              h).0 in
      (
        stored,
        user,
        record {
          accepted = f;
          users = ground arith;
          logged_out = ground (arith, live_of-revoke user.id d.now app.db.refresh_sessions);
          used = ground (
            arith,
            used-consume_row env.sha256_hex token reset_password stored d.now ts (rows f),
            used-consume_where env.sha256_hex token reset_password
                (belongs_to user.id reset_password) d.now (consume_row stored.id d.now ts),
          );
          no_open = ground (
            arith,
            open-consume_where user.id reset_password d.now (consume_row stored.id d.now ts),
          );
        },
      )

  -- A confirmed reset was asked for with a valid token of an active user. It sets that user's new
  -- password hash and verification time and changes no other account, leaves the user no live
  -- session and no open reset token, and uses the token up.
  pub reset_ends_sessions :
      (app app' : App L.State)
      → confirm_password_reset L env request token new_password d app ≡ (reply tt, app')
      → (stored : AccountActionToken) × (user : User) × WasReset app app' stored user
  reset_ends_sessions app app' e =
      reset_result app app'
        (get_valid_account_token env.sha256_hex app.db token reset_password d.now) refl e

  -- A token that confirmed a password reset is refused when it is presented again.
  pub reset_token_works_once :
      (app app' : App L.State) (now : ℕ) (s : AccountActionToken) (u : User)
      → confirm_password_reset L env request token new_password d app ≡ (reply tt, app')
      → get_valid_account_token env.sha256_hex app'.db token reset_password now ≢ Tokens.ok (s, u)
  reset_token_works_once app app' now s u e =
      let (stored, user, was) = reset_ends_sessions app app' e in
      used-refuses env.sha256_hex app'.db token reset_password now s u was.used
