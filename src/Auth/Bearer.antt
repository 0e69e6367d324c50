-- ===== src/Auth/Bearer.antt =====
-- Access tokens with the simplest library: a token is the key and the claims.
use Prim.Native.String.{String}
use llm_evaluation_platform.Common.{
  ℕ, zero, suc, ◌≤◌, ◌<◌, ◌≡◌, refl, ap, true, ◌&&◌, Option, none, some, [], ◌∷◌, arith, eq_iff,
  ltb, leb, str_eq, if◌then◌else◌,
}
use llm_evaluation_platform.Auth.Models.{User, find_user}
use llm_evaluation_platform.Auth.AccessTokens.{
  Claims, whole, Jwt, Settings, lifetime, create_access_token, get_current_user,
  access_token_window,
}

abbrev unary : ℕ → String
unary zero = ""
unary (suc n) = String.◌∷◌ "1" (unary n)

abbrev read_unary : String → ℕ
read_unary String.[] = 0
read_unary (String.◌∷◌ c s) = suc (read_unary s)

read_unary-unary : (n : ℕ) → read_unary (unary n) ≡ n
read_unary-unary zero = refl
read_unary-unary (suc n) = ap suc (read_unary-unary n)

abbrev opened : String → ℕ → String × Claims → Option Claims
opened key now (k, c) =
    if str_eq k key && (leb (whole c.iat) now && ltb now (whole c.exp))
    then some (record c { iat = whole c.iat; exp = whole c.exp })
    else none

opened_in_time :
    (key : String) (now : ℕ) (c : Claims)
    → whole c.iat ≤ now
    → now < whole c.exp
    → opened key now (key, c) ≡ some (record c { iat = whole c.iat; exp = whole c.exp })
opened_in_time key now c h k = ground (arith, h, k, eq_iff key key)

opened_late :
    (key : String) (now : ℕ) (c : Claims) → whole c.exp ≤ now → opened key now (key, c) ≡ none
opened_late key now c h = ground (arith, h)

abbrev bare : Jwt
bare = record {
  Token = String × Claims;
  encode = λ key c. (key, c);
  decode = opened;
  str = unary;
  uuid = λ t. some (read_unary t);
  decode-encode = opened_in_time;
  decode_expired = opened_late;
  uuid-str = λ k. ap some (read_unary-unary k);
}

abbrev settings : Settings
settings = record { auth_secret_key = "secret"; access_token_expire_minutes = 15 }

abbrev user : User
user = record {
  id = 3;
  email = "a@b";
  password_hash = "h";
  is_active = true;
  email_verified_at = none;
}

found_user : find_user 3 (user ∷ []) ≡ some user
found_user = refl

access_token_window_example :
    get_current_user bare settings (create_access_token bare settings 3 none 0) 5 (user ∷ [])
    ≡ (if ltb 5 (whole (lifetime bare settings none)) then some user else none)
access_token_window_example =
    access_token_window bare settings 3 0 5 none (user ∷ []) user found_user (omega arith)
