-- ===== src/Auth/Sessions/Families.antt =====
-- Families of refresh sessions: at most one session of a family is live, and a rotation hands the
-- family over to its replacement.
use llm_evaluation_platform.Common.{
  ℕ, suc, ◌≤◌, ◌<◌, String, ◌≡◌, refl, Bool, true, false, ◌&&◌, ◌||◌, Option, none, some, List, [],
  ◌∷◌, arith, ◌==◌, str_eq, is_none, length, filter, any,
}
use llm_evaluation_platform.Auth.Models.{User, RefreshSession, AuthDb, find_user}
use llm_evaluation_platform.Auth.Sessions.{
  ok, revoke_where, revoke_row, in_family, has_hash, insert_session, Draw, fresh_row,
  rotate_refresh_session, sessions_of_token, rotate_stored,
}

-- A session that a request could still use, and those of one family.
abbrev pub is_live : RefreshSession → Bool
is_live s = is_none s.revoked_at

abbrev pub live_in : ℕ → List RefreshSession → List RefreshSession
live_in family = filter (λ s. is_live s && in_family family s)

-- At most one session of each family is live.
abbrev pub OneLive : List RefreshSession → Type 0
OneLive xs = (family : ℕ) → length (live_in family xs) ≤ 1

-- Revoking only takes away from the live sessions.
pub live-revoke_where :
    (p : RefreshSession → Bool) (now family : ℕ) (xs : List RefreshSession)
    → length (live_in family (revoke_where p now xs)) ≤ length (live_in family xs)
live-revoke_where p now family [] = omega arith
live-revoke_where p now family (s ∷ xs) = ground (arith, live-revoke_where p now family xs)

pub live-revoke_row :
    (row now : ℕ) (r : Option ℕ) (family : ℕ) (xs : List RefreshSession)
    → length (live_in family (revoke_row row now r xs)) ≤ length (live_in family xs)
live-revoke_row row now r family [] = omega arith
live-revoke_row row now r family (s ∷ xs) = ground (arith, live-revoke_row row now r family xs)

-- A live row that a query returned is one of the live sessions, so revoking it leaves one fewer.
pub live-revoke_row_found :
    (p : RefreshSession → Bool) (now : ℕ) (r : Option ℕ) (s : RefreshSession)
    (rest xs : List RefreshSession)
    → filter p xs ≡ s ∷ rest
    → is_live s ≡ true
    → suc (length (live_in s.family_id (revoke_row s.id now r xs)))
      ≤ length (live_in s.family_id xs)
live-revoke_row_found p now r s rest [] e l = cc
live-revoke_row_found p now r s rest (x ∷ xs) e l =
    ground
      (arith, live-revoke_row s.id now r s.family_id xs, live-revoke_row_found p now r s rest xs)

length-zero : {A : Type 0} (xs : List A) → length xs ≤ 0 → xs ≡ []
length-zero [] h = refl
length-zero (x ∷ xs) h = absurd (omega arith)

-- A new row is added in front.
pub insert_session-eq :
    (row : RefreshSession) (xs ys : List RefreshSession)
    → insert_session row xs ≡ some ys
    → ys ≡ row ∷ xs
unfolding insert_session
insert_session-eq row xs ys e = ground arith

module _ (hash : String → String) (days : ℕ) where
  -- What a rotation that succeeds has found, and what it leaves.
  pub record Rotated (db : AuthDb) (token : String) (d : Draw) (t : String) (user : User)
      (db' : AuthDb) : Type 0 where
    pub stored : RefreshSession
    pub found : sessions_of_token hash days db token ≡ stored ∷ []
    pub was_live : stored.revoked_at ≡ none
    pub unexpired : d.now < stored.expires_at
    pub owner : find_user stored.user_id db.users ≡ some user
    pub active : user.is_active ≡ true
    pub handed_out : t ≡ d.token
    pub inserted :
        insert_session (fresh_row hash days stored.user_id stored.family_id d) db.refresh_sessions
        ≡ some (fresh_row hash days stored.user_id stored.family_id d ∷ db.refresh_sessions)
    pub written :
        db'.refresh_sessions
        ≡ revoke_row stored.id d.now
            (some d.row_id)
            (fresh_row hash days stored.user_id stored.family_id d ∷ db.refresh_sessions)
    pub users : db'.users ≡ db.users

  rotate_stored-Rotated :
      (db db' : AuthDb) (token : String) (d : Draw) (t : String) (user : User) (s : RefreshSession)
      → sessions_of_token hash days db token ≡ s ∷ []
      → rotate_stored hash days db s d ≡ (ok (t, user), db')
      → Rotated db token d t user db'
  unfolding rotate_stored
  rotate_stored-Rotated db db' token d t user s f e = record {
    stored = s;
    found = f;
    was_live = ground arith;
    unexpired = ground arith;
    owner = ground arith;
    active = ground arith;
    handed_out = ground arith;
    inserted = grind (arith, insert_session-eq);
    written = grind (arith, insert_session-eq);
    users = ground arith;
  }

-- The row added differs from every row found, in both unique columns.
pub insert_session-ne :
    (row : RefreshSession) (p : RefreshSession → Bool) (s : RefreshSession)
    (rest xs : List RefreshSession)
    → any (λ x. x.id == row.id || str_eq x.token_hash row.token_hash) xs ≡ false
    → filter p xs ≡ s ∷ rest
    → ((s.id == row.id) ≡ false) × (str_eq s.token_hash row.token_hash ≡ false)
insert_session-ne row p s rest [] a f = cc
insert_session-ne row p s rest (x ∷ xs) a f = ground (arith, insert_session-ne row p s rest xs)

pub insert_session-some :
    (row : RefreshSession) (xs ys : List RefreshSession)
    → insert_session row xs ≡ some ys
    → any (λ x. x.id == row.id || str_eq x.token_hash row.token_hash) xs ≡ false
unfolding insert_session
insert_session-some row xs ys e = ground arith

module _ (hash : String → String) (days : ℕ) where
  rotate_rows-Rotated :
      (db db' : AuthDb) (token : String) (d : Draw) (t : String) (user : User)
      (rows : List RefreshSession)
      → sessions_of_token hash days db token ≡ rows
      → rotate_refresh_session hash days db token d ≡ (ok (t, user), db')
      → Rotated hash days db token d t user db'
  unfolding rotate_refresh_session
  rotate_rows-Rotated db db' token d t user [] f e = absurd (ground arith)
  rotate_rows-Rotated db db' token d t user (x ∷ []) f e =
      rotate_stored-Rotated hash days db db' token d t user x f (ground arith)
  rotate_rows-Rotated db db' token d t user (x ∷ y ∷ xs) f e = absurd (ground arith)

  -- A rotation succeeds only with a token that names one live, unexpired session of an active user.
  pub rotate-Rotated :
      (db db' : AuthDb) (token : String) (d : Draw) (t : String) (user : User)
      → rotate_refresh_session hash days db token d ≡ (ok (t, user), db')
      → Rotated hash days db token d t user db'
  rotate-Rotated db db' token d t user e =
      rotate_rows-Rotated db db' token d t user (sessions_of_token hash days db token) refl e

  hands_over :
      (db db' : AuthDb) (token : String) (d : Draw) (t : String) (user : User)
      → OneLive db.refresh_sessions
      → (r : Rotated hash days db token d t user db')
      → live_in r.stored.family_id db'.refresh_sessions
        ≡ fresh_row hash days r.stored.user_id r.stored.family_id d ∷ []
  hands_over db db' token d t user one r =
      let s = r.stored in
      let xs = db.refresh_sessions in
      let ne =
        insert_session-ne (fresh_row hash days s.user_id s.family_id d) (has_hash (hash token)) s []
          xs (insert_session-some _ xs _ r.inserted) r.found in
      let gone = length-zero (live_in s.family_id (revoke_row s.id d.now (some d.row_id) xs)) (
        omega (
          arith,
          one s.family_id,
          live-revoke_row_found (has_hash (hash token)) d.now (some d.row_id) s [] xs r.found
              (rw r.was_live),
        )) in
      rw r.written (ground arith)

  -- Where no family had two live sessions, a rotation that succeeds leaves the replacement as the
  -- only live session of the family of the session that was presented.
  pub rotate_hands_over :
      (db db' : AuthDb) (token : String) (d : Draw) (t : String) (user : User)
      (stored : RefreshSession)
      → OneLive db.refresh_sessions
      → sessions_of_token hash days db token ≡ stored ∷ []
      → rotate_refresh_session hash days db token d ≡ (ok (t, user), db')
      → live_in stored.family_id db'.refresh_sessions
        ≡ fresh_row hash days stored.user_id stored.family_id d ∷ []
  rotate_hands_over db db' token d t user stored one f e =
      let r = rotate-Rotated db db' token d t user e in
      let same : r.stored ≡ stored = cc (r.found) in
      rw same at (hands_over db db' token d t user one r)
