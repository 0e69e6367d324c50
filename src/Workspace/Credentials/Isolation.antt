-- ===== src/Workspace/Credentials/Isolation.antt =====
-- Requests on credentials show to no other user.
use llm_evaluation_platform.Common.{
  ℕ, String, ◌≡◌, refl, ap, Bool, true, false, ◌&&◌, not, arith, ◌==◌, any, all,
}
use llm_evaluation_platform.Workspace.Models.{ProviderCredential, Database}
use llm_evaluation_platform.Workspace.Database.{primary_keys}
use llm_evaluation_platform.Workspace.Ownership.{ok, get_owned_provider_credential}
use llm_evaluation_platform.Workspace.Credentials.Cipher.{CredentialPayload, CipherLibrary, decrypt}
use llm_evaluation_platform.Workspace.Tables.{
  filter-remove, filter-change, filter-insert, exclusive,
}
use llm_evaluation_platform.Workspace.Crud.Outcomes.{found_lem, commit_lem, if_lem, owned_any}
use llm_evaluation_platform.Workspace.Crud.Views.{SameFor, same, views}
use llm_evaluation_platform.Workspace.Credentials.{
  change_credential, uses, nulls_in_credential, new_credential, create_provider_credential,
  update_provider_credential, delete_provider_credential, test_provider_credential,
  CredentialRequest, post_credential, patch_credential_at, delete_credential_at, test_credential_at,
  apply_credential,
}
use llm_evaluation_platform.Workspace.Credentials.Outcomes.{
  answer_lem, decrypted_lem, SameKeys, patch-SameKeys, finish-SameKeys,
}

module _ (l : CipherLibrary) (tester : ℕ → String → CredentialPayload → Bool) where
  module _ (u v : ℕ) (ne : (v == u) ≡ false) (db : Database) (pk : primary_keys db ≡ true) where
    abbrev Same : Database → Type 0
    Same db' = SameFor u db' db

    hidden :
        (k : ℕ) (c : ProviderCredential)
        → get_owned_provider_credential v k db ≡ ok c
        → all (λ (c : ProviderCredential). not (c.id == k && c.user_id == u)) db.credentials ≡ true
    unfolding get_owned_provider_credential primary_keys
    hidden k c e =
        exclusive (λ (c : ProviderCredential). c.id) k (λ c. c.user_id == v) (λ c. c.user_id == u)
          (λ c. ground arith) db.credentials (ground (arith, pk))
          (owned_any (λ (c : ProviderCredential). c.id == k) (λ c. c.user_id == v) db.credentials c
            e)

    change-Same :
        (k : ℕ) (c : ProviderCredential) (f : ProviderCredential → ProviderCredential)
        → get_owned_provider_credential v k db ≡ ok c
        → ((x : ProviderCredential) → SameKeys x (f x))
        → Same (change_credential k f db)
    change-Same k c f e s =
        views u (change_credential k f db) db refl refl refl refl
          (filter-change (λ (c : ProviderCredential). c.user_id == u) (λ c. c.id == k) f
            (λ x. ap (λ o. o == u) ((s x).user_id)) db.credentials (hidden k c e))
          refl refl refl

    -- No request on the credentials of a user changes anything that another user sees, where primary keys
    -- are unique.
    pub apply_credential-SameFor :
        (q : CredentialRequest) → SameFor u (apply_credential l tester v q db) db
    unfolding apply_credential create_provider_credential new_credential update_provider_credential
        delete_provider_credential test_provider_credential
    apply_credential-SameFor (post_credential id random now body) = if_lem Same _ _ _ (same u db) (
        answer_lem Same db _ _ (same u db) λ _.
          views u _ db refl refl refl refl
            (filter-insert (λ (c : ProviderCredential). c.user_id == u) _ db.credentials ne) refl
            refl refl)
    apply_credential-SameFor (patch_credential_at k random now body) =
        if_lem Same (nulls_in_credential body) _ _ (same u db) (
          found_lem Same (get_owned_provider_credential v k db) db _ (same u db) λ c e.
            decrypted_lem Same db (decrypt l c.encrypted_payload) _ (same u db) λ p.
              answer_lem Same db _ _ (same u db)
                λ _. change-Same k c _ e (patch-SameKeys l random now body p))
    apply_credential-SameFor (delete_credential_at k) =
        found_lem Same (get_owned_provider_credential v k db) db _ (same u db) λ c e.
          if_lem Same (any (uses k) db.variants) _ _ (same u db) (
            commit_lem Same db _ _ (same u db) λ _.
              views u _ db refl refl refl refl
                (filter-remove (λ (c : ProviderCredential). c.user_id == u) (λ c. c.id == k)
                  db.credentials (hidden k c e))
                refl refl refl)
    apply_credential-SameFor (test_credential_at k model now) =
        found_lem Same (get_owned_provider_credential v k db) db _ (same u db)
          λ c e. if_lem Same _ _ _ (change-Same k c _ e (finish-SameKeys c _ now)) (same u db)
