-- ===== src/Auth/Tokens.antt =====
-- backend/services/account_tokens.py: single-use tokens for email verification and password resets.
-- The clock, the random token and the row's UUID are arguments. A row stays locked from
-- `with_for_update` to the caller's commit.
pub mod SingleUse
use llm_evaluation_platform.Common.{
  ℕ, ◌+◌, String, Bool, true, false, ◌&&◌, ◌||◌, Option, none, some, List, [], ◌∷◌, leb, ◌==◌,
  str_eq, if◌then◌else◌, is_none, is_some, filter, any,
}
use llm_evaluation_platform.Auth.Models.{
  User, AccountTokenPurpose, verify_email, reset_password, AccountActionToken, AuthDb, no_row,
  one_row, many_rows, one_or_none, find_user,
}

pub data TokenError : Type 0 where
  -- `AccountTokenError`, with the message
  invalid_or_expired user_inactive : TokenError
  -- `MultipleResultsFound` and `IntegrityError`
  multiple_results integrity_error : TokenError

pub data TokenResult (A : Type 0) : Type 0 where
  ok : A → TokenResult A
  err : TokenError → TokenResult A

-- The two purposes are strings that the code compares.
abbrev pub same_purpose : AccountTokenPurpose → AccountTokenPurpose → Bool
same_purpose verify_email verify_email = true
same_purpose reset_password reset_password = true
same_purpose verify_email reset_password = false
same_purpose reset_password verify_email = false

abbrev pub belongs_to : ℕ → AccountTokenPurpose → AccountActionToken → Bool
belongs_to user_id purpose t = t.user_id == user_id && same_purpose t.purpose purpose

abbrev pub is_open : AccountActionToken → Bool
is_open t = is_none t.consumed_at

-- UPDATE account_action_tokens SET consumed_at = now WHERE p AND consumed_at IS NULL
abbrev pub consume_where :
    (AccountActionToken → Bool) → ℕ → List AccountActionToken → List AccountActionToken
consume_where p now [] = []
consume_where p now (t ∷ ts) =
    (if p t && is_open t then record t { consumed_at = some now } else t) ∷ consume_where p now ts

-- `stored.consumed_at = now`, written by its primary key at the commit.
abbrev pub consume_row : ℕ → ℕ → List AccountActionToken → List AccountActionToken
consume_row row now [] = []
consume_row row now (t ∷ ts) =
    (if t.id == row then record t { consumed_at = some now } else t) ∷ consume_row row now ts

abbrev pub with_tokens : AuthDb → List AccountActionToken → AuthDb
with_tokens db ts = record db { account_action_tokens = ts }

-- A new row, unless it breaks a unique index.
unfoldable pub insert_token :
    AccountActionToken → List AccountActionToken → Option (List AccountActionToken)
insert_token row ts =
    if any (λ t. t.id == row.id || str_eq t.token_hash row.token_hash) ts
    then none
    else some (row ∷ ts)

unfoldable pub consume_user_tokens : AuthDb → ℕ → AccountTokenPurpose → ℕ → AuthDb
consume_user_tokens db user_id purpose now =
    with_tokens db (consume_where (belongs_to user_id purpose) now db.account_action_tokens)

module _ (hash_account_action_token : String → String) where
  abbrev pub issued_row : ℕ → AccountTokenPurpose → ℕ → ℕ → String → ℕ → AccountActionToken
  issued_row user_id purpose expires_delta now token row_id = record {
    id = row_id;
    user_id = user_id;
    purpose = purpose;
    token_hash = hash_account_action_token token;
    expires_at = now + expires_delta;
    consumed_at = none;
  }

  unfoldable pub issue_account_token :
      AuthDb → ℕ → AccountTokenPurpose → ℕ → ℕ → String → ℕ → TokenResult String × AuthDb
  issue_account_token db user_id purpose expires_delta now token row_id =
      let older = consume_where (belongs_to user_id purpose) now db.account_action_tokens in
      elim (insert_token (issued_row user_id purpose expires_delta now token row_id) older) [
        | none ↦ (err integrity_error, db)
        | some ts ↦ (ok token, with_tokens db ts)
      ]

  abbrev pub tokens_of : AuthDb → String → AccountTokenPurpose → List AccountActionToken
  tokens_of db token purpose =
      filter
        (λ t.
          str_eq t.token_hash (hash_account_action_token token) && same_purpose t.purpose purpose)
        db.account_action_tokens

  -- `session.get(User, …)` and the check of the user.
  abbrev pub active_user :
      AccountActionToken → Option User → TokenResult (AccountActionToken × User)
  active_user stored none = err user_inactive
  active_user stored (some user) = if user.is_active then ok (stored, user) else err user_inactive

  unfoldable pub get_valid_account_token :
      AuthDb → String → AccountTokenPurpose → ℕ → TokenResult (AccountActionToken × User)
  get_valid_account_token db token purpose now = elim (one_or_none (tokens_of db token purpose)) [
    | no_row ↦ err invalid_or_expired
    | one_row stored ↦
        if is_some stored.consumed_at || leb stored.expires_at now
        then err invalid_or_expired
        else active_user stored (find_user stored.user_id db.users)
    | many_rows ↦ err multiple_results
  ]
