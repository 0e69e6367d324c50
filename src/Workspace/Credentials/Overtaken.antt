-- ===== src/Workspace/Credentials/Overtaken.antt =====
-- A test of a credential that a PATCH overtakes, in backend/api/provider_credentials.py.
use llm_evaluation_platform.Common.{
  ℕ, String, ◌≡◌, refl, sym, ap, ◌∙◌, ◌⊎◌, inl, inr, Bool, true, false, some, List, [], ◌∷◌, arith,
  ◌==◌, if◌then◌else◌, Bool-cases, any, All, str_eq,
}
use llm_evaluation_platform.Workspace.Models.{connected, ProviderCredential, Database}
use llm_evaluation_platform.Workspace.Tables.{change, any-change}
use llm_evaluation_platform.Workspace.Database.{primary_keys}
use llm_evaluation_platform.Workspace.Schemas.{value, set_optional}
use llm_evaluation_platform.Workspace.Ownership.{Answer, ok, get_owned_provider_credential}
use llm_evaluation_platform.Workspace.Credentials.Cipher.{
  CredentialPayload, CipherLibrary, payload, encrypt, decrypt, decrypt-encrypt,
}
use llm_evaluation_platform.Workspace.Crud.Outcomes.{owned_rows}
use llm_evaluation_platform.Workspace.Credentials.{
  ProviderCredentialUpdate, ProviderCredentialRead, ProviderCredentialTestRead, status_eq,
  patch_payload, change_credential, finish_test, patch_credential, update_provider_credential,
  test_provider_credential,
}
use llm_evaluation_platform.Workspace.Credentials.Outcomes.{patch-SameKeys, finish-SameKeys}
use mathlib.Core.Path.{subst}
use llm_evaluation_platform.Workspace.Credentials.Checked.{Checked, IsChecked, the_row, ids}

module _ {A : Type 0} where
  -- Two changes of the rows that a key picks.
  All-change_twice :
      (P : A → Type 0) (w : A → Bool) (f g : A → A) (xs : List A)
      → All (λ x. ((w x ≡ false) × P x) ⊎ ((w x ≡ true) × (w (g x) ≡ true) × P (f (g x)))) xs
      → All P (change w f (change w g xs))
  All-change_twice P w f g [] h = tt
  All-change_twice P w f g (x ∷ xs) h = elim h.0 [
    | inl n ↦ rw (n.0, n.0) (n.1, All-change_twice P w f g xs h.1)
    | inr p ↦ rw (p.0, p.1) (p.2, All-change_twice P w f g xs h.1)
  ]

  All-each : (P Q : A → Type 0) → ((x : A) → P x → Q x) → (xs : List A) → All P xs → All Q xs
  All-each P Q f [] h = tt
  All-each P Q f (x ∷ xs) h = (f x h.0, All-each P Q f xs h.1)

module _ (l : CipherLibrary) (tester : ℕ → String → CredentialPayload → Bool)
    (user k random now checked_at : ℕ) (model : String) (u : ProviderCredentialUpdate)
    (p : CredentialPayload) (c : ProviderCredential) (key : String) (db : Database) where
  -- The payload that the PATCH writes.
  abbrev pub patched : CredentialPayload
  patched = record { api_key = key; api_base = set_optional u.api_base p.api_base }

  -- The row says that the test accepted the payload that the PATCH has written.
  abbrev pub SaysTooMuch : ProviderCredential → Type 0
  SaysTooMuch row =
      (row.status ≡ connected)
      × (row.last_checked_at ≡ some checked_at)
      × (decrypt l row.encrypted_payload ≡ payload patched)
      × ¬ IsChecked l tester row

  abbrev after_patch : Answer ProviderCredentialRead × Database
  after_patch = update_provider_credential l user k random now u db

  abbrev after_test : Answer ProviderCredentialTestRead × Database
  after_test =
      test_provider_credential l tester user k model checked_at
        (λ d. (update_provider_credential l user k random now u d).1) db

  patch_done :
      (r : ProviderCredentialRead)
      → get_owned_provider_credential user k db ≡ ok c
      → decrypt l c.encrypted_payload ≡ payload p
      → after_patch.0 ≡ ok r
      → after_patch.1 ≡ change_credential k (patch_credential l random now u p) db
  unfolding update_provider_credential
  patch_done r e d a = ground (arith, e, d)

  test_done :
      (t : ProviderCredentialTestRead)
      → get_owned_provider_credential user k db ≡ ok c
      → decrypt l c.encrypted_payload ≡ payload p
      → after_test.0 ≡ ok t
      → (tester checked_at model p ≡ true)
        × (after_test.1 ≡ change_credential k (finish_test c true checked_at) after_patch.1)
        × (any (λ (x : ProviderCredential). x.id == k) after_patch.1.credentials ≡ true)
  unfolding test_provider_credential
  test_done t e d a = ground (arith, e, d)

  stamped_payload :
      (b : Bool) (x : ProviderCredential)
      → (if b then x else record x { updated_at = now }).encrypted_payload ≡ x.encrypted_payload
  stamped_payload true x = refl
  stamped_payload false x = refl

  patched_payload :
      u.api_key ≡ value key
      → (patch_credential l random now u p c).encrypted_payload ≡ encrypt l random patched
  unfolding patch_credential patch_payload
  patched_payload e = rw (e, patch_credential) (stamped_payload _ _)

  overtaken_row :
      u.api_key ≡ value key
      → str_eq key "" ≡ false
      → status_eq connected c.status ≡ false
      → ((t : ℕ) (m : String) → tester t m patched ≡ false)
      → SaysTooMuch (finish_test c true checked_at (patch_credential l random now u p c))
  unfolding finish_test
  overtaken_row e n h refuses =
      let opens : decrypt l (patch_credential l random now u p c).encrypted_payload
          ≡ payload patched =
        ap (decrypt l) (patched_payload e) ∙ decrypt-encrypt l random patched n in
      rw h (refl, refl, opens, λ g. not_checked _ opens refuses g)
    where
      not_checked :
          (e : String)
          → decrypt l e ≡ payload patched
          → ((t : ℕ) (m : String) → tester t m patched ≡ false)
          → Checked l tester connected (some checked_at) e
          → ⊥
      not_checked e opens refuses (t, m, q, _, d, a) =
          let same : q ≡ patched = ground (arith, d, opens) in
          absurd (ground (arith, a, ap (tester t m) same, refuses t m))

  abbrev IfPicked : ProviderCredential → Type 0
  IfPicked x = ((x.id == k) ≡ false) ⊎ SaysTooMuch x

  -- Both requests write the row that was looked up.
  written :
      u.api_key ≡ value key
      → str_eq key "" ≡ false
      → status_eq connected c.status ≡ false
      → ((t : ℕ) (m : String) → tester t m patched ≡ false)
      → (x : ProviderCredential) → ((x.id == k) ≡ false) ⊎ (x ≡ c)
      → (((x.id == k) ≡ false) × IfPicked x)
        ⊎ (((x.id == k) ≡ true)
            × (((patch_credential l random now u p x).id == k) ≡ true)
            × IfPicked (finish_test c true checked_at (patch_credential l random now u p x)))
  written v n h refuses x (inl q) = inl (q, inl q)
  written v n h refuses x (inr q) = elim (Bool-cases (x.id == k)) [
    | inr away ↦ inl (away, inl away)
    | inl at ↦ inr (
      at,
      ap (λ j. j == k) ((patch-SameKeys l random now u p x).id) ∙ at,
      inr (
          subst
            (λ y. SaysTooMuch (finish_test c true checked_at (patch_credential l random now u p y)))
            (sym q) (overtaken_row v n h refuses)),
    )
  ]

  -- A test that a new key overtakes says too much. Where primary keys are unique, a credential that was not
  -- connected is tested, a PATCH sets a key while the provider is asked, the key is not empty and the
  -- provider refuses it with any model at any time, and both requests are answered with success, then
  -- the provider has accepted the payload from before the PATCH, and every row with the credential's id
  -- (there is one) ends up connected at the time of the test with the payload of the PATCH.
  pub test_overtaken :
      (r : ProviderCredentialRead) (t : ProviderCredentialTestRead)
      → primary_keys db ≡ true
      → get_owned_provider_credential user k db ≡ ok c
      → status_eq connected c.status ≡ false
      → decrypt l c.encrypted_payload ≡ payload p
      → u.api_key ≡ value key
      → str_eq key "" ≡ false
      → ((at : ℕ) (m : String) → tester at m patched ≡ false)
      → after_patch.0 ≡ ok r
      → after_test.0 ≡ ok t
      → (tester checked_at model p ≡ true)
        × (any (λ (x : ProviderCredential). x.id == k) after_test.1.credentials ≡ true)
        × All
            (λ (x : ProviderCredential). ((x.id == k) ≡ false) ⊎ SaysTooMuch x)
            after_test.1.credentials
  unfolding get_owned_provider_credential
  test_overtaken r t pk e h d v n refuses patched_ok tested_ok =
      let (accepted, is_test, found_row) = test_done t e d tested_ok in
      let is_after : after_test.1
          ≡ change_credential k (finish_test c true checked_at)
              (change_credential k (patch_credential l random now u p) db) =
        is_test
        ∙ ap (change_credential k (finish_test c true checked_at)) (patch_done r e d patched_ok) in
      (
        accepted,
        subst (λ y. any (λ (x : ProviderCredential). x.id == k) y.credentials ≡ true) (sym is_test)
            (any-change (λ (x : ProviderCredential). x.id == k) (λ x. x.id == k)
                (finish_test c true checked_at)
                (λ x. ap (λ j. j == k) ((finish-SameKeys c true checked_at x).id))
                after_patch.1.credentials
              ∙ found_row),
        subst (λ y. All IfPicked y.credentials) (sym is_after)
            (All-change_twice IfPicked (λ x. x.id == k) (finish_test c true checked_at)
              (patch_credential l random now u p) db.credentials
              (All-each (λ x. ((x.id == k) ≡ false) ⊎ (x ≡ c)) _ (written v n h refuses)
                db.credentials
                (the_row user k c db.credentials (ids l tester db pk) (owned_rows _ c e)))),
      )
