-- ===== src/Workspace/Credentials/Preserved.antt =====
-- Requests on credentials leave a consistent database consistent.
use llm_evaluation_platform.Common.{
  ℕ, String, ◌≡◌, refl, ◌∙◌, inl, inr, Bool, true, false, ◌&&◌, Option, none, some, List, [], ◌∷◌,
  arith, ◌==◌, Bool-cases, &&-eq-true, ==_iff, any, all,
}
use llm_evaluation_platform.Workspace.Models.{Variant, ProviderCredential, Database}
use llm_evaluation_platform.Workspace.Tables.{change, remove}
use llm_evaluation_platform.Workspace.Database.{constraints}
use llm_evaluation_platform.Workspace.Ownership.{get_owned_provider_credential}
use llm_evaluation_platform.Workspace.Credentials.Cipher.{CredentialPayload, CipherLibrary, decrypt}
use llm_evaluation_platform.Workspace.Tables.{all_mono, any-append, any-change, any-remove}
use llm_evaluation_platform.Workspace.Crud.Outcomes.{found_lem, commit_lem, if_lem}
use llm_evaluation_platform.Workspace.Crud.Integrity.{IsConsistent, project_owned, credential_owned}
use llm_evaluation_platform.Workspace.Credentials.{
  change_credential, uses, nulls_in_credential, finish_test, new_credential,
  create_provider_credential, update_provider_credential, delete_provider_credential, accepts,
  test_provider_credential, CredentialRequest, post_credential, patch_credential_at,
  delete_credential_at, test_credential_at, apply_credential,
}
use llm_evaluation_platform.Workspace.Credentials.Outcomes.{
  answer_lem, decrypted_lem, SameKeys, patch-SameKeys, finish-SameKeys,
}

module _ (l : CipherLibrary) (tester : ℕ → String → CredentialPayload → Bool) where
  module _ (user : ℕ) (db : Database) (s : IsConsistent db) where
    credentials-IsConsistent :
        (cs : List ProviderCredential)
        → all
            (λ (v : Variant).
              credential_owned (record db { credentials = cs }) v.project_id v.credential_id)
            db.variants
          ≡ true
        → constraints (record db { credentials = cs }) ≡ true
        → IsConsistent (record db { credentials = cs })
    credentials-IsConsistent cs h c = record {
      constrained = c;
      credentials_owned = h;
      datasets_in_project = s.datasets_in_project;
      variants_in_project = s.variants_in_project;
    }

    -- Rows that are among the others stay so.
    owned_in :
        (cs : List ProviderCredential)
        → ((c : ℕ) (p : ℕ)
            → any
                (λ (k : ProviderCredential). k.id == c && project_owned db p k.user_id)
                db.credentials
              ≡ true
            → any (λ (k : ProviderCredential). k.id == c && project_owned db p k.user_id) cs ≡ true)
        → all
            (λ (v : Variant).
              credential_owned (record db { credentials = cs }) v.project_id v.credential_id)
            db.variants
          ≡ true
    owned_in cs f =
        all_mono (λ (v : Variant). credential_owned db v.project_id v.credential_id)
          (λ v. credential_owned (record db { credentials = cs }) v.project_id v.credential_id)
          (λ v h. one v.project_id v.credential_id h) db.variants s.credentials_owned
      where
        one :
            (p : ℕ) (o : Option ℕ)
            → credential_owned db p o ≡ true
            → credential_owned (record db { credentials = cs }) p o ≡ true
        one p none h = refl
        one p (some c) h = f c p h

    change-IsConsistent :
        (k : ℕ) (f : ProviderCredential → ProviderCredential)
        → ((x : ProviderCredential) → SameKeys x (f x))
        → constraints (change_credential k f db) ≡ true
        → IsConsistent (change_credential k f db)
    change-IsConsistent k f g c =
        credentials-IsConsistent (change (λ (c : ProviderCredential). c.id == k) f db.credentials)
          (owned_in (change (λ (c : ProviderCredential). c.id == k) f db.credentials) λ c p h.
            any-change (λ (x : ProviderCredential). x.id == c && project_owned db p x.user_id)
              (λ x. x.id == k) f (λ x. ground (arith, (g x).id, (g x).user_id)) db.credentials
            ∙ h)
          c

    -- A credential without variants can go.
    unused :
        (k : ℕ) (vs : List Variant)
        → any (uses k) vs ≡ false
        → all (λ (v : Variant). credential_owned db v.project_id v.credential_id) vs ≡ true
        → all
            (λ (v : Variant).
              credential_owned
                (record db {
                  credentials = remove (λ (c : ProviderCredential). c.id == k) db.credentials;
                })
                v.project_id
                v.credential_id)
            vs
          ≡ true
    unused k [] n h = refl
    unused k (v ∷ vs) n h = ground (arith, unused k vs, one v.project_id v.credential_id)
      where
        one :
            (p : ℕ) (o : Option ℕ)
            → elim o [ none ↦ false | some c ↦ c == k ] ≡ false
            → credential_owned db p o ≡ true
            → credential_owned
                (record db {
                  credentials = remove (λ (c : ProviderCredential). c.id == k) db.credentials;
                })
                p
                o
              ≡ true
        one p none n h = refl
        one p (some c) n h =
            any-remove (λ (x : ProviderCredential). x.id == c && project_owned db p x.user_id)
              (λ x. x.id == k) (λ x g. ground (arith, ==_iff x.id c)) db.credentials h

    -- Requests on credentials keep the database consistent too: no variant is left with a credential that is
    -- gone or belongs to another user than the project.
    pub apply_credential-IsConsistent :
        (q : CredentialRequest) → IsConsistent (apply_credential l tester user q db)
    unfolding apply_credential create_provider_credential new_credential update_provider_credential
        delete_provider_credential test_provider_credential
    apply_credential-IsConsistent (post_credential id random now body) =
        if_lem IsConsistent _ _ _ s (
          answer_lem IsConsistent db _ _ s λ c.
            credentials-IsConsistent _
              (owned_in _ λ k p h. ground (
                arith,
                h,
                any-append (λ (x : ProviderCredential). x.id == k && project_owned db p x.user_id)
                    db.credentials (new_credential l id user random now body ∷ []),
              ))
              c)
    apply_credential-IsConsistent (patch_credential_at k random now body) =
        if_lem IsConsistent (nulls_in_credential body) _ _ s (
          found_lem IsConsistent (get_owned_provider_credential user k db) db _ s λ c e.
            decrypted_lem IsConsistent db (decrypt l c.encrypted_payload) _ s λ p.
              answer_lem IsConsistent db _ _ s
                λ g. change-IsConsistent k _ (patch-SameKeys l random now body p) g)
    apply_credential-IsConsistent (delete_credential_at k) =
        found_lem IsConsistent (get_owned_provider_credential user k db) db _ s λ c e.
          elim (Bool-cases (any (uses k) db.variants)) [
            | inl q ↦ rw q s
            | inr q ↦ rw q (
                commit_lem IsConsistent db _ _ s
                  λ g. credentials-IsConsistent _ (unused k db.variants q s.credentials_owned) g)
          ]
    apply_credential-IsConsistent (test_credential_at k model now) =
        found_lem IsConsistent (get_owned_provider_credential user k db) db _ s λ c e.
          let accepted = accepts l tester now model c in
          elim (Bool-cases (
            any (λ (c : ProviderCredential). c.id == k) db.credentials
            && constraints (change_credential k (finish_test c accepted now) db))) [
              | inl q ↦ rw q (
                  change-IsConsistent k (finish_test c accepted now)
                    (finish-SameKeys c accepted now) (&&-eq-true _ _ q).1)
              | inr q ↦ rw q s
            ]
