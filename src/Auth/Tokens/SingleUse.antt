-- ===== src/Auth/Tokens/SingleUse.antt =====
-- One open token for a user and a purpose, and no second use of a token.
use llm_evaluation_platform.Common.{
  ℕ, ◌<◌, String, ◌≡◌, refl, true, ◌&&◌, none, some, List, [], ◌∷◌, arith, filter,
}
use llm_evaluation_platform.Auth.Models.{
  User, AccountTokenPurpose, verify_email, reset_password, AccountActionToken, AuthDb, one_row,
  one_or_none, find_user,
}
use llm_evaluation_platform.Auth.Tokens.{
  ok, same_purpose, belongs_to, is_open, consume_where, insert_token, issued_row,
  issue_account_token, tokens_of, get_valid_account_token,
}

-- The tokens of a user and a purpose that can still be used.
abbrev pub open_tokens : ℕ → AccountTokenPurpose → List AccountActionToken → List AccountActionToken
open_tokens user_id purpose = filter (λ t. belongs_to user_id purpose t && is_open t)

pub open-consume_where :
    (u : ℕ) (p : AccountTokenPurpose) (now : ℕ) (ts : List AccountActionToken)
    → open_tokens u p (consume_where (belongs_to u p) now ts) ≡ []
open-consume_where u p now [] = refl
open-consume_where u p now (t ∷ ts) = ground (arith, open-consume_where u p now ts)

same_purpose_refl : (p : AccountTokenPurpose) → same_purpose p p ≡ true
same_purpose_refl verify_email = refl
same_purpose_refl reset_password = refl

-- A token that was issued is the only one that is open for its user and purpose.
pub issue_replaces_older :
    (hash : String → String) (db db' : AuthDb) (u : ℕ) (p : AccountTokenPurpose) (delta now : ℕ)
    (token t : String) (row : ℕ)
    → issue_account_token hash db u p delta now token row ≡ (ok t, db')
    → (t ≡ token)
      × (open_tokens u p db'.account_action_tokens ≡ issued_row hash u p delta now token row ∷ [])
unfolding issue_account_token insert_token
issue_replaces_older hash db db' u p delta now token t row e =
    let ts = db.account_action_tokens in
    ground (arith, open-consume_where u p now ts, same_purpose_refl p)

-- What `get_valid_account_token` accepts.
pub valid_account_token :
    (hash : String → String) (db : AuthDb) (token : String) (p : AccountTokenPurpose) (now : ℕ)
    (stored : AccountActionToken) (user : User)
    → get_valid_account_token hash db token p now ≡ ok (stored, user)
    → (one_or_none (tokens_of hash db token p) ≡ one_row stored)
      × (stored.consumed_at ≡ none)
      × (now < stored.expires_at)
      × (find_user stored.user_id db.users ≡ some user)
      × (user.is_active ≡ true)
unfolding get_valid_account_token
valid_account_token hash db token p now stored user e = ground arith
