-- ===== src/Auth/Sessions/Replay.antt =====
-- Requests on the table of refresh sessions, one after another, and what they keep.
use llm_evaluation_platform.Common.{
  ℕ, String, ◌≡◌, refl, Option, none, some, List, [], ◌∷◌, arith, filter,
}
use llm_evaluation_platform.Auth.Models.{RefreshSession, AuthDb}
use llm_evaluation_platform.Auth.Sessions.{
  in_family, of_user, has_hash, insert_session, Draw, create_refresh_session,
  rotate_refresh_session, revoke_refresh_session, revoke_all_user_sessions, sessions_of_token,
  rotate_stored,
}
use llm_evaluation_platform.Auth.Sessions.Families.{
  live_in, OneLive, live-revoke_where, live-revoke_row, live-revoke_row_found,
}

-- A call of the service, with what it draws from outside.
pub data Request : Type 0 where
  login : ℕ → Draw → Request
  refresh : String → Draw → Request
  logout : Option String → ℕ → Request
  logout_all : ℕ → ℕ → Request

-- The UUID drawn for a new family is not in use.
abbrev pub IsFresh : AuthDb → Request → Type 0
IsFresh db (login user d) = filter (in_family d.family_id) db.refresh_sessions ≡ []
IsFresh db _ = Unit

module _ (hash : String → String) (days : ℕ) where
  unfoldable pub apply : AuthDb → Request → AuthDb
  apply db (login user d) = (create_refresh_session hash days db user d).1
  apply db (refresh token d) = (rotate_refresh_session hash days db token d).1
  apply db (logout token now) = (revoke_refresh_session hash days db token now).1
  apply db (logout_all user now) = revoke_all_user_sessions db user now

  unfoldable pub run : AuthDb → List Request → AuthDb
  run db [] = db
  run db (q ∷ qs) = run (apply db q) qs

live_in-fresh :
    (family : ℕ) (xs : List RefreshSession)
    → filter (in_family family) xs ≡ []
    → live_in family xs ≡ []
live_in-fresh family [] e = refl
live_in-fresh family (s ∷ xs) e = ground (arith, live_in-fresh family xs)

module _ (hash : String → String) (days : ℕ) (db : AuthDb) (one : OneLive db.refresh_sessions) where
  login-OneLive :
      (user : ℕ) (d : Draw)
      → IsFresh db (login user d)
      → OneLive (create_refresh_session hash days db user d).1.refresh_sessions
  unfolding create_refresh_session insert_session
  login-OneLive user d fresh family =
      ground (arith, one family, live_in-fresh d.family_id db.refresh_sessions)

  rotate_stored-OneLive :
      (token : String) (s : RefreshSession) (d : Draw)
      → sessions_of_token hash days db token ≡ s ∷ []
      → OneLive (rotate_stored hash days db s d).1.refresh_sessions
  unfolding rotate_stored insert_session
  rotate_stored-OneLive token s d f family =
      let p = has_hash (hash token) in
      let xs = db.refresh_sessions in
      let kept = s.replaced_by_id in
      ground (
        arith,
        one family,
        live-revoke_where (in_family s.family_id) d.now family xs,
        live-revoke_row s.id d.now kept family xs,
        live-revoke_row s.id d.now (some d.row_id) family xs,
        live-revoke_row_found p d.now (some d.row_id) s [] xs f,
      )

  refresh-OneLive :
      (token : String) (d : Draw)
      → (rows : List RefreshSession) → sessions_of_token hash days db token ≡ rows
      → OneLive (rotate_refresh_session hash days db token d).1.refresh_sessions
  unfolding rotate_refresh_session
  refresh-OneLive token d [] f family = ground (arith, one family)
  refresh-OneLive token d (s ∷ []) f family =
      ground (arith, rotate_stored-OneLive token s d f family)
  refresh-OneLive token d (s ∷ x ∷ xs) f family = ground (arith, one family)

  logout_rows :
      (now : ℕ) (token : String) (rows : List RefreshSession)
      → sessions_of_token hash days db token ≡ rows
      → OneLive (revoke_refresh_session hash days db (some token) now).1.refresh_sessions
  unfolding revoke_refresh_session
  logout_rows now token [] f family = ground (arith, one family)
  logout_rows now token (s ∷ []) f family =
      ground (
        arith,
        one family,
        live-revoke_where (in_family s.family_id) now family db.refresh_sessions,
      )
  logout_rows now token (s ∷ x ∷ xs) f family = ground (arith, one family)

  logout-OneLive :
      (token : Option String) (now : ℕ)
      → OneLive (revoke_refresh_session hash days db token now).1.refresh_sessions
  unfolding revoke_refresh_session
  logout-OneLive none now family = one family
  logout-OneLive (some token) now family =
      logout_rows now token (sessions_of_token hash days db token) refl family

  logout_all-OneLive :
      (user now : ℕ) → OneLive (revoke_all_user_sessions db user now).refresh_sessions
  unfolding revoke_all_user_sessions
  logout_all-OneLive user now family =
      omega (arith, one family, live-revoke_where (of_user user) now family db.refresh_sessions)

-- Requests whose draws are fresh, one after another.
abbrev pub AllFresh : (String → String) → ℕ → AuthDb → List Request → Type 0
AllFresh hash days db [] = Unit
AllFresh hash days db (q ∷ qs) = IsFresh db q × AllFresh hash days (apply hash days db q) qs

module _ (hash : String → String) (days : ℕ) where
  apply-OneLive :
      (db : AuthDb) (q : Request)
      → OneLive db.refresh_sessions
      → IsFresh db q
      → OneLive (apply hash days db q).refresh_sessions
  unfolding apply
  apply-OneLive db (login user d) one fresh = login-OneLive hash days db one user d fresh
  apply-OneLive db (refresh token d) one fresh =
      refresh-OneLive hash days db one token d (sessions_of_token hash days db token) refl
  apply-OneLive db (logout token now) one fresh = logout-OneLive hash days db one token now
  apply-OneLive db (logout_all user now) one fresh = logout_all-OneLive hash days db one user now

  -- Any sequence of logins, refreshes and logouts, each with a new UUID for a new family, keeps at
  -- most one live session in every family, also where requests fail.
  pub run-OneLive :
      (db : AuthDb) (qs : List Request)
      → OneLive db.refresh_sessions
      → AllFresh hash days db qs
      → OneLive (run hash days db qs).refresh_sessions
  unfolding run
  run-OneLive db [] one fresh = one
  run-OneLive db (q ∷ qs) one fresh =
      run-OneLive (apply hash days db q) qs (apply-OneLive db q one fresh.0) fresh.1
