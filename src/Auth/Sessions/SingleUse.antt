-- ===== src/Auth/Sessions/SingleUse.antt =====
-- A refresh token works once: a token that was rotated or revoked never rotates again, and a replay
-- of it ends its family.
use llm_evaluation_platform.Common.{
  ℕ, String, ◌≡◌, refl, ◌≢◌, Bool, true, false, ◌&&◌, ◌||◌, Option, none, some, List, [], ◌∷◌,
  arith, eq_iff, ◌==◌, str_eq, filter, any,
}
use llm_evaluation_platform.Auth.Models.{User, RefreshSession, AuthDb}
use llm_evaluation_platform.Auth.Sessions.{
  reuse_detected, ok, err, revoke_where, revoke_row, in_family, of_user, has_hash, insert_session,
  Draw, fresh_row, create_refresh_session, rotate_refresh_session, revoke_refresh_session,
  revoke_all_user_sessions, sessions_of_token, rotate_stored,
}
use llm_evaluation_platform.Auth.Sessions.Families.{
  is_live, insert_session-some, insert_session-ne, Rotated, rotate-Rotated,
}
use llm_evaluation_platform.Auth.Sessions.Replay.{
  Request, login, refresh, logout, logout_all, apply, run,
}

-- Every row with this hash is revoked, and there is one, so that no new row can take the hash.
abbrev pub IsDead : String → List RefreshSession → Type 0
IsDead h xs = (filter (λ s. has_hash h s && is_live s) xs ≡ []) × (any (has_hash h) xs ≡ true)

dead-revoke_where :
    (p : RefreshSession → Bool) (now : ℕ) (h : String) (xs : List RefreshSession)
    → (filter (λ s. has_hash h s && is_live s) xs ≡ []
        → filter (λ s. has_hash h s && is_live s) (revoke_where p now xs) ≡ [])
      × (any (has_hash h) (revoke_where p now xs) ≡ any (has_hash h) xs)
dead-revoke_where p now h [] = (λ e. refl, refl)
dead-revoke_where p now h (s ∷ xs) = (
  λ e. ground (arith, (dead-revoke_where p now h xs).0),
  ground (arith, (dead-revoke_where p now h xs).1),
)

dead-revoke_row :
    (row now : ℕ) (r : Option ℕ) (h : String) (xs : List RefreshSession)
    → (filter (λ s. has_hash h s && is_live s) xs ≡ []
        → filter (λ s. has_hash h s && is_live s) (revoke_row row now r xs) ≡ [])
      × (any (has_hash h) (revoke_row row now r xs) ≡ any (has_hash h) xs)
dead-revoke_row row now r h [] = (λ e. refl, refl)
dead-revoke_row row now r h (s ∷ xs) = (
  λ e. ground (arith, (dead-revoke_row row now r h xs).0),
  ground (arith, (dead-revoke_row row now r h xs).1),
)

-- The unique index on `token_hash` keeps a row with a taken hash out.
dead-insert :
    (row : RefreshSession) (h : String) (xs : List RefreshSession)
    → any (has_hash h) xs ≡ true
    → any (λ x. x.id == row.id || str_eq x.token_hash row.token_hash) xs ≡ false
    → str_eq row.token_hash h ≡ false
dead-insert row h [] a b = cc
dead-insert row h (s ∷ xs) a b = ground (
  arith,
  dead-insert row h xs,
  eq_iff s.token_hash h,
  eq_iff row.token_hash h,
  eq_iff s.token_hash row.token_hash,
)

module _ (hash : String → String) (days : ℕ) (db : AuthDb) (h : String)
    (dead : IsDead h db.refresh_sessions) where
  IsDead-login :
      (user : ℕ) (d : Draw)
      → IsDead h (create_refresh_session hash days db user d).1.refresh_sessions
  unfolding create_refresh_session insert_session
  IsDead-login user d =
      ground
        (arith, dead-insert (fresh_row hash days user d.family_id d) h db.refresh_sessions dead.1)

  IsDead-rotate_stored :
      (s : RefreshSession) (d : Draw) → IsDead h (rotate_stored hash days db s d).1.refresh_sessions
  unfolding rotate_stored insert_session
  IsDead-rotate_stored s d =
      let xs = db.refresh_sessions in
      ground (
        arith,
        dead-insert (fresh_row hash days s.user_id s.family_id d) h xs dead.1,
        dead-revoke_where (in_family s.family_id) d.now h xs,
        dead-revoke_row s.id d.now s.replaced_by_id h xs,
        dead-revoke_row s.id d.now (some d.row_id) h xs,
      )

  IsDead-refresh :
      (token : String) (d : Draw) (rows : List RefreshSession)
      → sessions_of_token hash days db token ≡ rows
      → IsDead h (rotate_refresh_session hash days db token d).1.refresh_sessions
  unfolding rotate_refresh_session
  IsDead-refresh token d [] f = ground arith
  IsDead-refresh token d (s ∷ []) f = ground (arith, IsDead-rotate_stored s d)
  IsDead-refresh token d (s ∷ x ∷ xs) f = ground arith

  IsDead-logout :
      (token : String) (now : ℕ) (rows : List RefreshSession)
      → sessions_of_token hash days db token ≡ rows
      → IsDead h (revoke_refresh_session hash days db (some token) now).1.refresh_sessions
  unfolding revoke_refresh_session
  IsDead-logout token now [] f = ground arith
  IsDead-logout token now (s ∷ []) f =
      ground (arith, dead-revoke_where (in_family s.family_id) now h db.refresh_sessions)
  IsDead-logout token now (s ∷ x ∷ xs) f = ground arith

  IsDead-apply : (q : Request) → IsDead h (apply hash days db q).refresh_sessions
  unfolding apply revoke_all_user_sessions revoke_refresh_session
  IsDead-apply (login user d) = IsDead-login user d
  IsDead-apply (refresh token d) =
      IsDead-refresh token d (sessions_of_token hash days db token) refl
  IsDead-apply (logout none now) = dead
  IsDead-apply (logout (some token) now) =
      IsDead-logout token now (sessions_of_token hash days db token) refl
  IsDead-apply (logout_all user now) =
      ground (arith, dead-revoke_where (of_user user) now h db.refresh_sessions)

no_live_of_dead :
    (h : String) (s : RefreshSession) (xs : List RefreshSession)
    → filter (has_hash h) xs ≡ s ∷ []
    → filter (λ x. has_hash h x && is_live x) xs ≡ []
    → s.revoked_at ≢ none
no_live_of_dead h s [] f e = cc
no_live_of_dead h s (x ∷ xs) f e = λ r. ground (arith, no_live_of_dead h s xs)

none-revoke_row :
    (row : ℕ) (h : String) (now : ℕ) (r : Option ℕ) (xs : List RefreshSession)
    → filter (has_hash h) xs ≡ []
    → filter (λ x. has_hash h x && is_live x) (revoke_row row now r xs) ≡ []
none-revoke_row row h now r [] f = refl
none-revoke_row row h now r (x ∷ xs) f = ground (arith, none-revoke_row row h now r xs)

found-has_hash :
    (h : String) (s : RefreshSession) (rest xs : List RefreshSession)
    → filter (has_hash h) xs ≡ s ∷ rest
    → s.token_hash ≡ h
found-has_hash h s rest [] f = cc
found-has_hash h s rest (x ∷ xs) f =
    ground (arith, eq_iff x.token_hash h, found-has_hash h s rest xs)

-- The row of a token that has just been rotated.
IsDead-rotated :
    (h : String) (s : RefreshSession) (now : ℕ) (r : Option ℕ) (xs : List RefreshSession)
    → filter (has_hash h) xs ≡ s ∷ []
    → IsDead h (revoke_row s.id now r xs)
IsDead-rotated h s now r [] f = cc
IsDead-rotated h s now r (x ∷ xs) f =
    ground (arith, IsDead-rotated h s now r xs, none-revoke_row s.id h now r xs)

none-revoke_where :
    (p : RefreshSession → Bool) (h : String) (now : ℕ) (xs : List RefreshSession)
    → filter (has_hash h) xs ≡ []
    → filter (λ x. has_hash h x && is_live x) (revoke_where p now xs) ≡ []
none-revoke_where p h now [] f = refl
none-revoke_where p h now (x ∷ xs) f = ground (arith, none-revoke_where p h now xs)

-- Revoking rows that include the one of a token.
IsDead-revoked :
    (p : RefreshSession → Bool) (h : String) (s : RefreshSession) (now : ℕ)
    (xs : List RefreshSession)
    → filter (has_hash h) xs ≡ s ∷ []
    → p s ≡ true
    → IsDead h (revoke_where p now xs)
IsDead-revoked p h s now [] f e = cc
IsDead-revoked p h s now (x ∷ xs) f e =
    ground (arith, IsDead-revoked p h s now xs, none-revoke_where p h now xs)

module _ (hash : String → String) (days : ℕ) where
  IsDead-run :
      (db : AuthDb) (qs : List Request) (h : String)
      → IsDead h db.refresh_sessions
      → IsDead h (run hash days db qs).refresh_sessions
  unfolding run
  IsDead-run db [] h dead = dead
  IsDead-run db (q ∷ qs) h dead =
      IsDead-run (apply hash days db q) qs h (IsDead-apply hash days db h dead q)

  dead-refuses :
      (db db' : AuthDb) (token : String) (d : Draw) (t : String) (user : User)
      → IsDead (hash token) db.refresh_sessions
      → rotate_refresh_session hash days db token d ≢ (ok (t, user), db')
  dead-refuses db db' token d t user dead e =
      let r = rotate-Rotated hash days db db' token d t user e in
      no_live_of_dead (hash token) r.stored db.refresh_sessions r.found dead.0 r.was_live

  Rotated-IsDead :
      (db db' : AuthDb) (token : String) (d : Draw) (t : String) (user : User)
      → Rotated hash days db token d t user db'
      → IsDead (hash token) db'.refresh_sessions
  Rotated-IsDead db db' token d t user r =
      let s = r.stored in
      let xs = db.refresh_sessions in
      let ne =
        insert_session-ne (fresh_row hash days s.user_id s.family_id d) (has_hash (hash token)) s []
          xs (insert_session-some _ xs _ r.inserted) r.found in
      let same = found-has_hash (hash token) s [] xs r.found in
      rw r.written (
        ground (
          arith,
          IsDead-rotated (hash token) s d.now (some d.row_id) xs r.found,
          eq_iff s.token_hash (hash d.token),
          eq_iff (hash d.token) (hash token),
        ))

  -- A token that was rotated once is refused by every later rotation, whatever requests came in
  -- between.
  pub token_works_once :
      (db db' db'' : AuthDb) (token : String) (d d' : Draw) (t t' : String) (user user' : User)
      (qs : List Request)
      → rotate_refresh_session hash days db token d ≡ (ok (t, user), db')
      → rotate_refresh_session hash days (run hash days db' qs) token d' ≢ (ok (t', user'), db'')
  token_works_once db db' db'' token d d' t t' user user' qs e =
      dead-refuses (run hash days db' qs) db'' token d' t' user' (
        IsDead-run db' qs (hash token)
          (Rotated-IsDead db db' token d t user (rotate-Rotated hash days db db' token d t user e)))

  -- After a logout with a session's token, no token that the session's family then had is ever
  -- rotated again, whatever requests come in between.
  pub logout_ends_family :
      (db db' : AuthDb) (token other : String) (s s' : RefreshSession) (now : ℕ) (d : Draw)
      (t : String) (user : User) (qs : List Request)
      → str_eq token "" ≡ false
      → sessions_of_token hash days db token ≡ s ∷ []
      → sessions_of_token hash days db other ≡ s' ∷ []
      → s'.family_id ≡ s.family_id
      → rotate_refresh_session hash days
          (run hash days (revoke_refresh_session hash days db (some token) now).1 qs)
          other
          d
        ≢ (ok (t, user), db')
  unfolding revoke_refresh_session
  logout_ends_family db db' token other s s' now d t user qs ne f f' same =
      dead-refuses (run hash days (revoke_refresh_session hash days db (some token) now).1 qs) db'
        other d t user
        (IsDead-run (revoke_refresh_session hash days db (some token) now).1 qs (hash other) (
          ground (
            arith,
            IsDead-revoked (in_family s.family_id) (hash other) s' now db.refresh_sessions f',
          )))

  -- Presenting a token that was already exchanged is answered by an error, and from then on no
  -- token that its family then had is ever rotated again, the one that replaced it included,
  -- whatever requests come in between.
  pub replay_ends_family :
      (db db' : AuthDb) (token other : String) (s s' : RefreshSession) (at next : ℕ) (d d' : Draw)
      (t : String) (user : User) (qs : List Request)
      → sessions_of_token hash days db token ≡ s ∷ []
      → s.revoked_at ≡ some at
      → s.replaced_by_id ≡ some next
      → sessions_of_token hash days db other ≡ s' ∷ []
      → s'.family_id ≡ s.family_id
      → ((rotate_refresh_session hash days db token d).0 ≡ err reuse_detected)
        × (rotate_refresh_session hash days
              (run hash days (rotate_refresh_session hash days db token d).1 qs)
              other
              d'
            ≢ (ok (t, user), db'))
  unfolding rotate_refresh_session
  replay_ends_family db db' token other s s' at next d d' t user qs f gone replaced f' same = (
    ground arith,
    dead-refuses (run hash days (rotate_refresh_session hash days db token d).1 qs) db' other d' t
        user
        (IsDead-run (rotate_refresh_session hash days db token d).1 qs (hash other) (
          ground (
            arith,
            IsDead-revoked (in_family s.family_id) (hash other) s' d.now db.refresh_sessions f',
          ))),
  )
