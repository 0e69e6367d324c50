-- ===== src/Auth/Recovery/Requested.antt =====
-- What the answer to a request for a password reset shows of the accounts.
use llm_evaluation_platform.Common.{
  ℕ, ◌≤◌, ◌*◌, String, ◌≡◌, refl, Bool, false, ◌||◌, some, List, [], ◌∷◌, arith, str_eq, any,
  length, ◌==◌, sym, ◌∙◌, ap,
}
use llm_evaluation_platform.RateLimit.Memory.{HitResult, allowed, blocked, index_error}
use llm_evaluation_platform.Auth.Models.{
  ticks_per_minute, User, reset_password, AccountActionToken, AuthDb,
}
use llm_evaluation_platform.Auth.Tokens.{
  consume_where, belongs_to, issue_account_token, insert_token,
}
use llm_evaluation_platform.Auth.Http.{
  Response, reply, too_many_requests, server_error, RateLimiter, App,
}
use llm_evaluation_platform.Auth.Endpoints.{
  Env, Draw, Request, users_by_email, enforce_rate_limit, rate_limit_identifier,
}
use llm_evaluation_platform.Auth.Recovery.{
  request_password_reset, send_if_wanted, password_reset_requested,
}

any-consume_where :
    (q p : AccountActionToken → Bool)
    → ((t : AccountActionToken) (now : ℕ) → q (record t { consumed_at = some now }) ≡ q t)
    → (now : ℕ) (ts : List AccountActionToken) → any q (consume_where p now ts) ≡ any q ts
any-consume_where q p k now [] = refl
any-consume_where q p k now (t ∷ ts) = ground (arith, any-consume_where q p k now ts, k t now)

module _ (L : RateLimiter) (env : Env) (request : Request) (email : String) (d : Draw) where
  abbrev clash : AccountActionToken → Bool
  clash t = t.id == d.row_id || str_eq t.token_hash (env.sha256_hex d.token)

  -- One account at most has the address, as the unique index has it, and no token has the row id or the
  -- hash of the one that is drawn.
  abbrev pub IsFresh : AuthDb → Type 0
  IsFresh db =
      (length (users_by_email L env email db) ≤ 1)
      × (any
            (λ (t : AccountActionToken).
              t.id == d.row_id || str_eq t.token_hash (env.sha256_hex d.token))
            db.account_action_tokens
          ≡ false)

  -- A new token is sent or not without an error, and the limiter is left alone.
  sends :
      (app : App L.State) (wanted : User → Bool) (delta : ℕ)
      → IsFresh app.db
      → ((send_if_wanted L env wanted reset_password delta email d app).0 ≡ reply tt)
        × ((send_if_wanted L env wanted reset_password delta email d app).1.limiter ≡ app.limiter)
  unfolding issue_account_token insert_token
  sends app wanted delta (one, fresh) = of_rows (users_by_email L env email app.db) refl one
    where
      of_rows :
          (us : List User)
          → users_by_email L env email app.db ≡ us
          → length us ≤ 1
          → ((send_if_wanted L env wanted reset_password delta email d app).0 ≡ reply tt)
            × ((send_if_wanted L env wanted reset_password delta email d app).1.limiter
                ≡ app.limiter)
      of_rows [] e n = ground (arith, e)
      of_rows (u ∷ []) e n = ground (
        arith,
        e,
        any-consume_where clash (belongs_to u.id reset_password) (λ t now. refl) d.now
            app.db.account_action_tokens,
        fresh,
      )
      of_rows (u ∷ v ∷ us) e n = absurd (omega arith)

  abbrev told : HitResult → Response String
  told allowed = reply password_reset_requested
  told (blocked n) = too_many_requests n
  told index_error = server_error

  -- The answer and the limiter's state are those of the limiter.
  answers_as :
      (app : App L.State) (r : HitResult) (s : L.State)
      → L.hit d.now (rate_limit_identifier L env request "password-reset-request" email) app.limiter
        ≡ (r, s)
      → IsFresh app.db
      → ((request_password_reset L env request email d app).0 ≡ told r)
        × ((request_password_reset L env request email d app).1.limiter ≡ s)
  unfolding request_password_reset enforce_rate_limit
  answers_as app allowed s e n =
      let (a, b) =
        sends (record app { limiter = s }) (λ u. u.is_active)
          (env.settings.password_reset_expire_minutes * ticks_per_minute) n in
      ground (arith, e, a, b)
  answers_as app (blocked k) s e n = ground (arith, e)
  answers_as app index_error s e n = ground (arith, e)

  -- Two databases that may differ in every account get the same answer to a request for a password
  -- reset from the same limiter's state, the text of the message included, and leave the limiter in the
  -- same state, where at most one account has the address and no token has the row id or the hash of
  -- the token that is drawn: the answer does not tell whether the address has an account.
  pub reset_request_reveals_nothing :
      (app app' : App L.State)
      → app.limiter ≡ app'.limiter
      → IsFresh app.db
      → IsFresh app'.db
      → ((request_password_reset L env request email d app).0
          ≡ (request_password_reset L env request email d app').0)
        × ((request_password_reset L env request email d app).1.limiter
            ≡ (request_password_reset L env request email d app').1.limiter)
  unfolding request_password_reset enforce_rate_limit
  reset_request_reveals_nothing app app' e n n' =
      let counted = rate_limit_identifier L env request "password-reset-request" email in
      let x = L.hit d.now counted app'.limiter in
      let same : L.hit d.now counted app.limiter ≡ x = ap (L.hit d.now counted) e in
      let (a, b) = answers_as app x.0 x.1 same n in
      let (a', b') = answers_as app' x.0 x.1 refl n' in (a ∙ sym a', b ∙ sym b')
