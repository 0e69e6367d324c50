-- ===== src/Auth/Models.antt =====
-- The tables of backend/db/models.py that authentication reads and writes. A UUID is a number, of
-- which the code only tests equality; a timestamp is a number of ticks in UTC. A table lists its
-- rows, the newest first.
use llm_evaluation_platform.Common.{
  ℕ, String, ◌≡◌, Bool, ◌||◌, Option, none, some, List, [], ◌∷◌, arith, ◌==◌, str_eq, if◌then◌else◌,
  any,
}

pub record User : Type 0 where
  pub id : ℕ
  pub email : String
  pub password_hash : String
  pub is_active : Bool
  pub email_verified_at : Option ℕ

pub record RefreshSession : Type 0 where
  pub id : ℕ
  pub user_id : ℕ
  pub family_id : ℕ
  pub token_hash : String
  pub expires_at : ℕ
  pub revoked_at : Option ℕ
  pub replaced_by_id : Option ℕ

pub data AccountTokenPurpose : Type 0 where
  verify_email reset_password : AccountTokenPurpose

pub record AccountActionToken : Type 0 where
  pub id : ℕ
  pub user_id : ℕ
  pub purpose : AccountTokenPurpose
  pub token_hash : String
  pub expires_at : ℕ
  pub consumed_at : Option ℕ

pub record AuthDb : Type 0 where
  pub users : List User
  pub refresh_sessions : List RefreshSession
  pub account_action_tokens : List AccountActionToken

-- `one_or_none()` of a query's rows: more than one row raises `MultipleResultsFound`.
pub data Rows {ℓ} (A : Type ℓ) : Type ℓ where
  no_row : Rows A
  one_row : A → Rows A
  many_rows : Rows A

abbrev pub one_or_none {ℓ} : {A : Type ℓ} → List A → Rows A
one_or_none [] = no_row
one_or_none (x ∷ []) = one_row x
one_or_none (x ∷ y ∷ xs) = many_rows

-- `session.get(User, user_id)`
abbrev pub find_user : ℕ → List User → Option User
find_user i [] = none
find_user i (u ∷ us) = if u.id == i then some u else find_user i us

-- One day, hour or minute of ticks.
abbrev pub ticks_per_minute : ℕ
ticks_per_minute = 60000000

abbrev pub ticks_per_hour : ℕ
ticks_per_hour = 3600000000

abbrev pub ticks_per_day : ℕ
ticks_per_day = 86400000000

-- Writes to one row of `users`, by its primary key.
abbrev pub update_user : ℕ → (User → User) → List User → List User
update_user i f [] = []
update_user i f (u ∷ us) = (if u.id == i then f u else u) ∷ update_user i f us

-- A new row, unless it breaks the primary key or the unique index on `email`.
unfoldable pub insert_user : User → List User → Option (List User)
insert_user row us =
    if any (λ u. u.id == row.id || str_eq u.email row.email) us then none else some (row ∷ us)

pub one_or_none-eq {ℓ} :
    {A : Type ℓ} (xs : List A) (a : A) → one_or_none xs ≡ one_row a → xs ≡ a ∷ []
one_or_none-eq [] a e = cc
one_or_none-eq (x ∷ []) a e = ground arith
one_or_none-eq (x ∷ y ∷ xs) a e = cc
