-- ===== src/Auth/AccessTokens.antt =====
-- `create_access_token` and `decode_access_token` of backend/security.py, and `get_current_user` of
-- backend/api/auth.py. PyJWT and the texts of UUIDs are an interface, with the documented laws: a time is
-- kept in whole seconds, a token decodes under its key from its `iat` until its `exp`, and not after.
use llm_evaluation_platform.Common.{
  ℕ, ◌+◌, ◌*◌, ◌/◌, ◌≤◌, ◌<◌, String, ◌≡◌, refl, inl, inr, Bool, false, Option, none, some, List,
  arith, ltb, str_eq, if◌then◌else◌, Bool-cases,
}
use llm_evaluation_platform.Auth.Models.{User, find_user, ticks_per_minute}

abbrev pub ticks_per_second : ℕ
ticks_per_second = 1000000

pub record Claims : Type 0 where
  pub sub : String
  pub kind : Option String
  pub iat : ℕ
  pub exp : ℕ

abbrev pub whole : ℕ → ℕ
whole t = t / ticks_per_second * ticks_per_second

pub record Jwt : Type 1 where
  -- The texts of tokens.
  pub Token : Type 0
  pub encode : String → Claims → Token
  -- Under a key and at a time, with `sub`, `iat` and `exp` required; `none` is an InvalidTokenError.
  pub decode : String → ℕ → Token → Option Claims
  pub str : ℕ → String
  pub uuid : String → Option ℕ
  pub decode-encode :
      (key : String) (now : ℕ) (c : Claims)
      → whole c.iat ≤ now
      → now < whole c.exp
      → decode key now (encode key c) ≡ some (record c { iat = whole c.iat; exp = whole c.exp })
  pub decode_expired :
      (key : String) (now : ℕ) (c : Claims)
      → whole c.exp ≤ now
      → decode key now (encode key c) ≡ none
  pub uuid-str : (k : ℕ) → uuid (str k) ≡ some k

pub record Settings : Type 0 where
  pub auth_secret_key : String
  pub access_token_expire_minutes : ℕ

whole_past : (t now : ℕ) → t ≤ now → whole t ≤ now
whole_past t now h = omega arith

module _ (j : Jwt) (settings : Settings) where
  abbrev pub lifetime : Option ℕ → ℕ
  lifetime none = settings.access_token_expire_minutes * ticks_per_minute
  lifetime (some delta) = delta

  abbrev claims_of : ℕ → Option ℕ → ℕ → Claims
  claims_of user_id expires_delta now = record {
    sub = j.str user_id;
    kind = some "access";
    iat = now;
    exp = now + lifetime expires_delta;
  }

  unfoldable pub create_access_token : ℕ → Option ℕ → ℕ → j.Token
  create_access_token user_id expires_delta now =
      j.encode settings.auth_secret_key (claims_of user_id expires_delta now)

  abbrev is_access : Option String → Bool
  is_access none = false
  is_access (some kind) = str_eq kind "access"

  -- `none` is an InvalidTokenError.
  unfoldable pub decode_access_token : j.Token → ℕ → Option ℕ
  decode_access_token token now = elim (j.decode settings.auth_secret_key now token) [
    | none ↦ none
    | some c ↦ if is_access c.kind then j.uuid c.sub else none
  ]

  -- `none` is the answer 401.
  unfoldable pub get_current_user : j.Token → ℕ → List User → Option User
  unfolding decode_access_token
  get_current_user token now users = elim (decode_access_token token now) [
    | none ↦ none
    | some user_id ↦ elim (find_user user_id users) [
      | none ↦ none
      | some u ↦ if u.is_active then some u else none
    ]
  ]

  -- A token that was created for a user lets in just this user, as long as the user is active, from its
  -- creation until its lifetime is over in whole seconds, and nobody from then on.
  pub access_token_window :
      (user_id created now : ℕ) (expires_delta : Option ℕ) (users : List User) (u : User)
      → find_user user_id users ≡ some u
      → created ≤ now
      → get_current_user (create_access_token user_id expires_delta created) now users ≡ (
          if ltb now (whole (created + lifetime expires_delta))
          then (if u.is_active then some u else none)
          else none)
  unfolding get_current_user decode_access_token create_access_token
  access_token_window user_id created now expires_delta users u found past =
      elim (Bool-cases (ltb now (whole (created + lifetime expires_delta)))) [
        | inl q ↦
            let valid : j.decode settings.auth_secret_key now
                  (create_access_token user_id expires_delta created)
                ≡ some (record (claims_of user_id expires_delta created) {
                  iat = whole created;
                  exp = whole (created + lifetime expires_delta);
                }) =
              j.decode-encode settings.auth_secret_key now (claims_of user_id expires_delta created)
                (whole_past created now past) (ground (arith, q)) in
            rw (q, valid, j.uuid-str user_id, found, get_current_user, decode_access_token) refl
        | inr q ↦
            let expired : j.decode settings.auth_secret_key now
                  (create_access_token user_id expires_delta created)
                ≡ none =
              j.decode_expired settings.auth_secret_key now
                (claims_of user_id expires_delta created) (ground (arith, q)) in
            rw (q, expired, get_current_user, decode_access_token) refl
      ]
