-- ===== src/Workspace/Credentials/Outcomes.antt =====
-- What a handler on credentials leaves: the database as it was, or the change that it commits.
use llm_evaluation_platform.Common.{
  ℕ, ◌≡◌, refl, inl, inr, Bool, true, false, ◌||◌, if◌then◌else◌, Bool-cases,
}
use llm_evaluation_platform.Workspace.Models.{ProviderCredential, Database}
use llm_evaluation_platform.Workspace.Database.{constraints}
use llm_evaluation_platform.Workspace.Ownership.{Answer}
use llm_evaluation_platform.Workspace.Credentials.Cipher.{
  Decrypted, CredentialPayload, CipherLibrary, payload, decryption_error, type_error,
}
use llm_evaluation_platform.Workspace.Credentials.{
  is_sent, decrypted, ProviderCredentialUpdate, commit_answer, finish_test, patch_credential,
}

pub answer_lem :
    {A : Type 0} (P : Database → Type 0) (db changed : Database) (a : Answer A)
    → P db
    → (constraints changed ≡ true → P changed)
    → P (commit_answer db changed a).1
answer_lem P db changed a h f = elim (Bool-cases (constraints changed)) [
  | inl q ↦ rw q (f q)
  | inr q ↦ rw q h
]

pub decrypted_lem :
    {A : Type 0} (P : Database → Type 0) (db : Database) (d : Decrypted)
    (k : CredentialPayload → Answer A × Database)
    → P db
    → ((p : CredentialPayload) → P (k p).1)
    → P (decrypted d db k).1
decrypted_lem P db (payload p) k h f = f p
decrypted_lem P db decryption_error k h f = h
decrypted_lem P db type_error k h f = h

-- A row keeps its keys.
pub record SameKeys (c d : ProviderCredential) : Type 0 where
  pub id : d.id ≡ c.id
  pub user_id : d.user_id ≡ c.user_id

either-SameKeys :
    (b : Bool) (c x y : ProviderCredential)
    → SameKeys c x
    → SameKeys c y
    → SameKeys c (if b then x else y)
either-SameKeys true c x y h k = h
either-SameKeys false c x y h k = k

stamped-SameKeys :
    (now : ℕ) (b : Bool) (c x : ProviderCredential)
    → SameKeys c x
    → SameKeys c (if b then x else record x { updated_at = now })
stamped-SameKeys now b c x h =
    either-SameKeys b c x (record x { updated_at = now }) h
      (record { id = h.id; user_id = h.user_id })

pub patch-SameKeys :
    (l : CipherLibrary) (random now : ℕ) (u : ProviderCredentialUpdate) (p : CredentialPayload)
    (c : ProviderCredential)
    → SameKeys c (patch_credential l random now u p c)
unfolding patch_credential
patch-SameKeys l random now u p c = stamped-SameKeys now _ c _ (
    either-SameKeys (is_sent u.api_key || is_sent u.api_base) c _ _
      (record { id = refl; user_id = refl }) (record { id = refl; user_id = refl }))

pub finish-SameKeys :
    (copy : ProviderCredential) (accepted : Bool) (now : ℕ) (c : ProviderCredential)
    → SameKeys c (finish_test copy accepted now c)
unfolding finish_test
finish-SameKeys copy accepted now c = record { id = refl; user_id = refl }
