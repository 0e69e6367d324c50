-- ===== src/Workspace/Credentials.antt =====
-- backend/api/provider_credentials.py: the endpoints on a user's credentials, with the tester of
-- backend/services/provider_credentials.py as a parameter. `random` stands for what an encryption draws.
pub mod Cipher
pub mod Outcomes
pub mod Checked
pub mod Overtaken
pub mod Isolation
pub mod Preserved
use llm_evaluation_platform.Common.{
  ℕ, String, Bool, true, false, ◌&&◌, ◌||◌, Option, none, some, [], ◌∷◌, ◌++◌, ◌==◌, str_eq,
  if◌then◌else◌, is_none, any,
}
use llm_evaluation_platform.Workspace.Models.{
  Variant, CredentialStatus, untested, connected, invalid, ProviderCredential, Database,
}
use llm_evaluation_platform.Workspace.Tables.{change, remove}
use llm_evaluation_platform.Workspace.Database.{constraints}
use llm_evaluation_platform.Workspace.Schemas.{Field, unset, value, set, set_optional}
use llm_evaluation_platform.Workspace.Ownership.{
  Answer, ok, conflict, unprocessable, bad_request, server_error, get_owned_provider_credential,
}
use llm_evaluation_platform.Workspace.Schemas.{is_null}
use llm_evaluation_platform.Workspace.Crud.{commit, found}
use llm_evaluation_platform.Workspace.Credentials.Cipher.{
  Decrypted, CredentialPayload, CipherLibrary, payload, decryption_error, type_error, encrypt,
  decrypt, key_hint,
}

pub record ProviderCredentialCreate : Type 0 where
  pub provider : String
  pub name : String
  pub api_key : String
  pub api_base : Option String

pub record ProviderCredentialUpdate : Type 0 where
  pub name : Field String
  pub api_key : Field String
  pub api_base : Field String

pub record ProviderCredentialRead : Type 0 where
  pub id : ℕ
  pub provider : String
  pub name : String
  pub key_hint : String
  pub api_base : Option String
  pub status : CredentialStatus
  pub last_checked_at : Option ℕ
  pub last_used_at : Option ℕ
  pub updated_at : ℕ

pub record ProviderCredentialTestRead : Type 0 where
  pub status : CredentialStatus
  pub checked_at : ℕ

abbrev pub status_eq : CredentialStatus → CredentialStatus → Bool
status_eq untested untested = true
status_eq connected connected = true
status_eq invalid invalid = true
status_eq _ _ = false

abbrev time_eq : Option ℕ → Option ℕ → Bool
time_eq none none = true
time_eq (some a) (some b) = a == b
time_eq _ _ = false

-- `onupdate=func.now()`: an UPDATE is sent when a column has changed.
abbrev pub stamped : ℕ → ProviderCredential → ProviderCredential → ProviderCredential
stamped now old new =
    if str_eq new.name old.name
      && str_eq new.key_hint old.key_hint
      && str_eq new.encrypted_payload old.encrypted_payload
      && status_eq new.status old.status
      && time_eq new.last_checked_at old.last_checked_at
    then new
    else record new { updated_at = now }

abbrev pub is_sent : {A : Type 0} → Field A → Bool
is_sent unset = false
is_sent _ = true

abbrev pub change_credential : ℕ → (ProviderCredential → ProviderCredential) → Database → Database
change_credential k f db = record db {
  credentials = change (λ (c : ProviderCredential). c.id == k) f db.credentials;
}

-- A commit, after which the row is read again for the answer.
abbrev pub commit_answer : {A : Type 0} → Database → Database → Answer A → Answer A × Database
commit_answer db changed a = if constraints changed then (a, changed) else (conflict, db)

-- A payload that cannot be decrypted ends a handler with an error of the server.
abbrev pub decrypted :
    {A : Type 0}
    → Decrypted
    → Database
    → (CredentialPayload → Answer A × Database)
    → Answer A × Database
decrypted (payload p) db k = k p
decrypted decryption_error db k = (server_error, db)
decrypted type_error db k = (server_error, db)

abbrev pub uses : ℕ → Variant → Bool
uses k v = elim v.credential_id [ none ↦ false | some c ↦ c == k ]

unfoldable pub nulls_in_credential : ProviderCredentialUpdate → Bool
nulls_in_credential u = is_null u.name || is_null u.api_key

-- The current payload with the fields that were sent.
unfoldable pub patch_payload : ProviderCredentialUpdate → CredentialPayload → CredentialPayload
patch_payload u p = record {
  api_key = set u.api_key p.api_key;
  api_base = set_optional u.api_base p.api_base;
}

abbrev hint_of : Field String → String → String
hint_of (value api_key) old = key_hint api_key
hint_of _ old = old

-- A column is written only if it differs from the copy that the handler has read.
abbrev pub write_status : CredentialStatus → CredentialStatus → CredentialStatus → CredentialStatus
write_status copy new row = if status_eq new copy then row else new

-- The end of a test, on the row as it is by then: `checked_at` is later than every earlier check. The
-- time that `onupdate` stamps is not told apart from it.
unfoldable pub finish_test : ProviderCredential → Bool → ℕ → ProviderCredential → ProviderCredential
finish_test copy accepted checked_at row = record row {
  status = write_status copy.status (if accepted then connected else invalid) row.status;
  last_checked_at = some checked_at;
  updated_at = checked_at;
}

module _ (l : CipherLibrary) where
  unfoldable pub read_credential : ProviderCredential → Answer ProviderCredentialRead
  read_credential c = elim (decrypt l c.encrypted_payload) [
    | payload p ↦ ok (record {
      id = c.id;
      provider = c.provider;
      name = c.name;
      key_hint = c.key_hint;
      api_base = p.api_base;
      status = c.status;
      last_checked_at = c.last_checked_at;
      last_used_at = c.last_used_at;
      updated_at = c.updated_at;
    })
    | decryption_error ↦ server_error
    | type_error ↦ server_error
  ]

  unfoldable pub new_credential : ℕ → ℕ → ℕ → ℕ → ProviderCredentialCreate → ProviderCredential
  new_credential id user random now body = record {
    id = id;
    user_id = user;
    provider = body.provider;
    name = body.name;
    encrypted_payload =
        encrypt l random (record { api_key = body.api_key; api_base = body.api_base });
    key_hint = key_hint body.api_key;
    status = untested;
    last_checked_at = none;
    last_used_at = none;
    updated_at = now;
  }

  unfoldable pub create_provider_credential :
      ℕ → ℕ → ℕ → ℕ → ProviderCredentialCreate → Database → Answer ProviderCredentialRead × Database
  create_provider_credential user id random now body db =
      if str_eq body.provider "custom" && is_none body.api_base
      then (unprocessable, db)
      else (let row = new_credential id user random now body in
          commit_answer db (record db { credentials = db.credentials ++ row ∷ [] })
            (read_credential row))

  -- The assignments of a PATCH, with the payload that the row had.
  unfoldable pub patch_credential :
      ℕ → ℕ → ProviderCredentialUpdate → CredentialPayload → ProviderCredential → ProviderCredential
  unfolding patch_payload
  patch_credential random now u p c =
      let named = record c { name = set u.name c.name; key_hint = hint_of u.api_key c.key_hint } in
      stamped now c (
        if is_sent u.api_key || is_sent u.api_base
        then record named {
          encrypted_payload = encrypt l random (patch_payload u p);
          status = untested;
          last_checked_at = none;
        }
        else named)

  unfoldable pub update_provider_credential :
      ℕ → ℕ → ℕ → ℕ → ProviderCredentialUpdate → Database → Answer ProviderCredentialRead × Database
  update_provider_credential user k random now u db =
      if nulls_in_credential u
      then (unprocessable, db)
      else found (get_owned_provider_credential user k db) db λ c.
        decrypted (decrypt l c.encrypted_payload) db λ p.
          commit_answer db (change_credential k (patch_credential random now u p) db)
            (read_credential (patch_credential random now u p c))

  unfoldable pub delete_provider_credential : ℕ → ℕ → Database → Answer (Unit {0}) × Database
  delete_provider_credential user k db = found (get_owned_provider_credential user k db) db λ c.
      if any (uses k) db.variants
      then (conflict, db)
      else commit db
          (record db {
            credentials = remove (λ (c : ProviderCredential). c.id == k) db.credentials;
          })
          tt

  -- Whether the tester ends without an exception, for a model at a time.
  module _ (tester : ℕ → String → CredentialPayload → Bool) where
    abbrev pub accepts : ℕ → String → ProviderCredential → Bool
    accepts checked_at model c = elim (decrypt l c.encrypted_payload) [
      | payload p ↦ tester checked_at model p
      | decryption_error ↦ false
      | type_error ↦ false
    ]

    -- A commit of the outcome: no row to update is an error, as a broken constraint is.
    abbrev save_test :
        ℕ → ProviderCredential → Bool → ℕ → Database → Answer ProviderCredentialTestRead × Database
    save_test k copy accepted checked_at db =
        let changed = change_credential k (finish_test copy accepted checked_at) db in
        if any (λ (c : ProviderCredential). c.id == k) db.credentials && constraints changed
        then (
          if accepted
              then ok (record { status = connected; checked_at = checked_at })
              else bad_request,
          changed,
        )
        else (server_error, db)

    -- `meanwhile` is what other requests do while the tester runs.
    unfoldable pub test_provider_credential :
        ℕ
        → ℕ
        → String
        → ℕ
        → (Database → Database)
        → Database
        → Answer ProviderCredentialTestRead × Database
    test_provider_credential user k model checked_at meanwhile db =
        found (get_owned_provider_credential user k db) db
          λ c. save_test k c (accepts checked_at model c) checked_at (meanwhile db)

-- A request on the credentials of a user.
pub data CredentialRequest : Type 0 where
  post_credential : ℕ → ℕ → ℕ → ProviderCredentialCreate → CredentialRequest
  patch_credential_at : ℕ → ℕ → ℕ → ProviderCredentialUpdate → CredentialRequest
  delete_credential_at : ℕ → CredentialRequest
  test_credential_at : ℕ → String → ℕ → CredentialRequest

-- One request after the other: nothing happens while a credential is tested.
unfoldable pub apply_credential :
    CipherLibrary
    → (ℕ → String → CredentialPayload → Bool)
    → ℕ
    → CredentialRequest
    → Database
    → Database
apply_credential l tester user (post_credential id random now body) db =
    (create_provider_credential l user id random now body db).1
apply_credential l tester user (patch_credential_at k random now u) db =
    (update_provider_credential l user k random now u db).1
apply_credential l tester user (delete_credential_at k) db =
    (delete_provider_credential l user k db).1
apply_credential l tester user (test_credential_at k model now) db =
    (test_provider_credential l tester user k model now (λ d. d) db).1
