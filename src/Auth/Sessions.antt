-- ===== src/Auth/Sessions.antt =====
-- backend/services/auth_sessions.py: refresh sessions in families, rotated at each use.
-- A method takes the time, and the random token and UUIDs that the code draws, as arguments. A
-- commit that breaks a unique index (the primary key or `token_hash`) raises and is rolled back.
-- The stored row stays locked from `with_for_update` to the commit of a rotation, which is one step.
-- `revoke_refresh_session` takes no lock; it is taken as one step all the same, so that a rotation
-- between its query and its commit is not modelled.
pub mod Families
pub mod Replay
pub mod SingleUse
use llm_evaluation_platform.Common.{
  ℕ, ◌+◌, ◌*◌, String, Bool, ◌&&◌, ◌||◌, Option, none, some, List, [], ◌∷◌, leb, ◌==◌, str_eq,
  if◌then◌else◌, is_none, is_some, filter, any,
}
use llm_evaluation_platform.Auth.Models.{
  User, RefreshSession, AuthDb, no_row, one_row, many_rows, one_or_none, find_user, ticks_per_day,
}

pub data SessionError : Type 0 where
  -- `RefreshSessionError`, with the message
  unknown_session reuse_detected session_expired user_inactive : SessionError
  -- `MultipleResultsFound` and `IntegrityError`, which no caller catches
  multiple_results integrity_error : SessionError

pub data SessionResult (A : Type 0) : Type 0 where
  ok : A → SessionResult A
  err : SessionError → SessionResult A

-- UPDATE refresh_sessions SET revoked_at = now WHERE p AND revoked_at IS NULL
abbrev pub revoke_where : (RefreshSession → Bool) → ℕ → List RefreshSession → List RefreshSession
revoke_where p now [] = []
revoke_where p now (s ∷ xs) =
    (if p s && is_none s.revoked_at then record s { revoked_at = some now } else s)
    ∷ revoke_where p now xs

-- The two assignments to the stored row, written by its primary key at the commit.
abbrev pub revoke_row : ℕ → ℕ → Option ℕ → List RefreshSession → List RefreshSession
revoke_row row now replaced_by [] = []
revoke_row row now replaced_by (s ∷ xs) =
    (if s.id == row then record s { revoked_at = some now; replaced_by_id = replaced_by } else s)
    ∷ revoke_row row now replaced_by xs

abbrev pub in_family : ℕ → RefreshSession → Bool
in_family family s = s.family_id == family

abbrev pub of_user : ℕ → RefreshSession → Bool
of_user user s = s.user_id == user

abbrev pub has_hash : String → RefreshSession → Bool
has_hash h s = str_eq s.token_hash h

-- A new row, unless it breaks a unique index.
unfoldable pub insert_session : RefreshSession → List RefreshSession → Option (List RefreshSession)
insert_session row xs =
    if any (λ s. s.id == row.id || str_eq s.token_hash row.token_hash) xs
    then none
    else some (row ∷ xs)

abbrev pub with_sessions : AuthDb → List RefreshSession → AuthDb
with_sessions db xs = record db { refresh_sessions = xs }

-- What a request to rotate draws from outside: the clock, the replacement's token and its id.
pub record Draw : Type 0 where
  pub now : ℕ
  pub token : String
  pub row_id : ℕ
  pub family_id : ℕ

module _ (hash_refresh_token : String → String) (refresh_token_expire_days : ℕ) where
  -- The row that `create_refresh_session` and `rotate_refresh_session` add.
  abbrev pub fresh_row : ℕ → ℕ → Draw → RefreshSession
  fresh_row user_id family_id d = record {
    id = d.row_id;
    user_id = user_id;
    family_id = family_id;
    token_hash = hash_refresh_token d.token;
    expires_at = d.now + refresh_token_expire_days * ticks_per_day;
    revoked_at = none;
    replaced_by_id = none;
  }

  unfoldable pub create_refresh_session : AuthDb → ℕ → Draw → SessionResult String × AuthDb
  create_refresh_session db user_id d =
      elim (insert_session (fresh_row user_id d.family_id d) db.refresh_sessions) [
        | none ↦ (err integrity_error, db)
        | some xs ↦ (ok d.token, with_sessions db xs)
      ]

  -- The last part of `rotate_refresh_session`: the replacement and the stored row in one commit.
  unfoldable pub replace_session :
      AuthDb → RefreshSession → User → Draw → SessionResult (String × User) × AuthDb
  replace_session db stored user d =
      elim (insert_session (fresh_row stored.user_id stored.family_id d) db.refresh_sessions) [
        | none ↦ (err integrity_error, db)
        | some xs ↦
            ((ok (d.token, user)), with_sessions db (revoke_row stored.id d.now (some d.row_id) xs))
      ]

  -- A live, unexpired session whose user was looked up.
  unfoldable pub rotate_for_user :
      AuthDb → RefreshSession → Option User → Draw → SessionResult (String × User) × AuthDb
  unfolding replace_session
  rotate_for_user db stored none d = (
    err user_inactive,
    with_sessions db (revoke_row stored.id d.now stored.replaced_by_id db.refresh_sessions),
  )
  rotate_for_user db stored (some user) d =
      if user.is_active then replace_session db stored user d else (
        err user_inactive,
        with_sessions db (revoke_row stored.id d.now stored.replaced_by_id db.refresh_sessions),
      )

  unfoldable pub rotate_stored :
      AuthDb → RefreshSession → Draw → SessionResult (String × User) × AuthDb
  unfolding rotate_for_user
  rotate_stored db stored d =
      if is_some stored.revoked_at
      then (
        err reuse_detected,
        if is_some stored.replaced_by_id
            then with_sessions db
                (revoke_where (in_family stored.family_id) d.now db.refresh_sessions)
            else db,
      )
      else if leb stored.expires_at d.now
      then (
        err session_expired,
        with_sessions db (revoke_row stored.id d.now stored.replaced_by_id db.refresh_sessions),
      )
      else rotate_for_user db stored (find_user stored.user_id db.users) d

  abbrev pub sessions_of_token : AuthDb → String → List RefreshSession
  sessions_of_token db token = filter (has_hash (hash_refresh_token token)) db.refresh_sessions

  unfoldable pub rotate_refresh_session :
      AuthDb → String → Draw → SessionResult (String × User) × AuthDb
  unfolding rotate_stored
  rotate_refresh_session db token d = elim (one_or_none (sessions_of_token db token)) [
    | no_row ↦ (err unknown_session, db)
    | one_row stored ↦ rotate_stored db stored d
    | many_rows ↦ (err multiple_results, db)
  ]

  -- A missing or empty cookie is no token.
  unfoldable pub revoke_refresh_session :
      AuthDb → Option String → ℕ → SessionResult (Unit {0}) × AuthDb
  revoke_refresh_session db none now = (ok tt, db)
  revoke_refresh_session db (some token) now =
      if str_eq token "" then (ok tt, db) else elim (one_or_none (sessions_of_token db token)) [
        | no_row ↦ (ok tt, db)
        | one_row stored ↦ (
          ok tt,
          with_sessions db (revoke_where (in_family stored.family_id) now db.refresh_sessions),
        )
        | many_rows ↦ (err multiple_results, db)
      ]

unfoldable pub revoke_all_user_sessions : AuthDb → ℕ → ℕ → AuthDb
revoke_all_user_sessions db user_id now =
    with_sessions db (revoke_where (of_user user_id) now db.refresh_sessions)
