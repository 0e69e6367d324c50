-- ===== src/Workspace/Credentials/Checked.antt =====
-- What the status of a credential says of the provider.
use llm_evaluation_platform.Common.{
  ℕ, String, ◌≡◌, refl, sym, ◌⊎◌, inl, inr, Bool, true, false, ◌||◌, not, Option, none, some, List,
  [], ◌∷◌, arith, ◌==◌, if◌then◌else◌, Bool-cases, ==_iff, filter, any, All, All-append,
}
use llm_evaluation_platform.Workspace.Models.{
  CredentialStatus, untested, connected, invalid, ProviderCredential, Database,
}
use llm_evaluation_platform.Workspace.Tables.{change, unique_by, same_key}
use llm_evaluation_platform.Workspace.Database.{primary_keys}
use llm_evaluation_platform.Workspace.Ownership.{get_owned_provider_credential}
use llm_evaluation_platform.Workspace.Credentials.Cipher.{
  CredentialPayload, CipherLibrary, payload, decryption_error, type_error, decrypt, Decrypted,
}
use mathlib.Core.Path.{subst}
use llm_evaluation_platform.Workspace.Credentials.Outcomes.{answer_lem, decrypted_lem}
use llm_evaluation_platform.Workspace.Crud.Outcomes.{found_lem, commit_lem, if_lem, owned_rows}
use llm_evaluation_platform.Workspace.Credentials.{
  is_sent, ProviderCredentialUpdate, uses, nulls_in_credential, write_status, finish_test,
  new_credential, create_provider_credential, patch_credential, update_provider_credential,
  delete_provider_credential, accepts, test_provider_credential, CredentialRequest, post_credential,
  patch_credential_at, delete_credential_at, test_credential_at, apply_credential,
}

module _ {A : Type 0} where
  -- What a change makes of the rows that it means, and leaves of the others.
  All-change :
      (P : A → Type 0) (w : A → Bool) (f : A → A) (xs : List A)
      → All (λ x. (w x ≡ false) ⊎ P (f x)) xs
      → All P xs
      → All P (change w f xs)
  All-change P w f [] h k = tt
  All-change P w f (x ∷ xs) h k =
      let rest = All-change P w f xs h.1 k.1 in
      elim (Bool-cases (w x)) [
        | inl q ↦ rw q (elim h.0 [ inl n ↦ absurd (ground arith) | inr p ↦ (p, rest) ])
        | inr q ↦ rw q (k.0, rest)
      ]

  All-filter : (P : A → Type 0) (w : A → Bool) (xs : List A) → All P xs → All P (filter w xs)
  All-filter P w [] h = tt
  All-filter P w (x ∷ xs) h = elim (Bool-cases (w x)) [
    | inl q ↦ rw q (h.0, All-filter P w xs h.1)
    | inr q ↦ rw q (All-filter P w xs h.1)
  ]

  All-imp : (P Q : A → Type 0) → ((x : A) → P x → Q x) → (xs : List A) → All P xs → All Q xs
  All-imp P Q f [] h = tt
  All-imp P Q f (x ∷ xs) h = (f x h.0, All-imp P Q f xs h.1)

  no_other :
      (w : A → Bool) (c : A) (xs : List A)
      → any w xs ≡ false
      → All (λ x. (w x ≡ false) ⊎ (x ≡ c)) xs
  no_other w c [] h = tt
  no_other w c (x ∷ xs) h = (inl (ground arith), no_other w c xs (ground arith))

  none_kept : (w v : A → Bool) (xs : List A) → any w xs ≡ false → filter w (filter v xs) ≡ []
  none_kept w v [] h = refl
  none_kept w v (x ∷ xs) h = ground (arith, none_kept w v xs)

-- Where ids are unique, no row but the one that was found has its id.
pub the_row :
    (user k : ℕ) (c : ProviderCredential) (xs : List ProviderCredential)
    → unique_by (same_key (λ (x : ProviderCredential). x.id)) xs ≡ true
    → filter (λ (x : ProviderCredential). x.id == k) (filter (λ x. x.user_id == user) xs) ≡ c ∷ []
    → All (λ (x : ProviderCredential). ((x.id == k) ≡ false) ⊎ (x ≡ c)) xs
unfolding unique_by
the_row user k c [] u e = tt
the_row user k c (x ∷ xs) u e = elim (Bool-cases (x.id == k)) [
  | inl q ↦
      let fresh : any (λ (y : ProviderCredential). y.id == k) xs ≡ false =
        rw (← (==_iff x.id k).0 q) (ground arith) in
      elim (Bool-cases (x.user_id == user)) [
        | inl o ↦ (inr (ground arith), no_other (λ (y : ProviderCredential). y.id == k) c xs fresh)
        | inr o ↦ absurd (
            ground (
              arith,
              e,
              none_kept (λ (y : ProviderCredential). y.id == k) (λ y. y.user_id == user) xs fresh,
            ))
      ]
  | inr q ↦ (inl q, the_row user k c xs (ground arith) (ground arith))
]

module _ (l : CipherLibrary) (tester : ℕ → String → CredentialPayload → Bool) where
  abbrev pub Checked : CredentialStatus → Option ℕ → String → Type 0
  Checked untested t e = t ≡ none
  Checked connected t e =
      (now : ℕ) × (model : String) × (p : CredentialPayload) × (t ≡ some now)
      × (decrypt l e ≡ payload p)
      × (tester now model p ≡ true)
  Checked invalid t e = (now : ℕ) × (t ≡ some now)

  -- An untested credential was not checked since its payload was written; a connected one was accepted by
  -- the tester, at the time of its last check, with the payload that is stored.
  abbrev pub IsChecked : ProviderCredential → Type 0
  IsChecked c = Checked c.status c.last_checked_at c.encrypted_payload

  accepted_payload :
      (c : ProviderCredential) (model : String) (now : ℕ)
      → accepts l tester now model c ≡ true
      → Checked connected (some now) c.encrypted_payload
  accepted_payload c model now h = of_result (decrypt l c.encrypted_payload) refl h
    where
      of_result :
          (d : Decrypted)
          → decrypt l c.encrypted_payload ≡ d
          → elim d [
            | payload p ↦ tester now model p
            | decryption_error ↦ false
            | type_error ↦ false
          ]
            ≡ true
          → Checked connected (some now) c.encrypted_payload
      of_result (payload p) e h = (now, model, p, refl, e, h)
      of_result decryption_error e h = absurd (ground arith)
      of_result type_error e h = absurd (ground arith)

  written : (old new : CredentialStatus) → write_status old new old ≡ new
  written untested untested = refl
  written untested connected = refl
  written untested invalid = refl
  written connected untested = refl
  written connected connected = refl
  written connected invalid = refl
  written invalid untested = refl
  written invalid connected = refl
  written invalid invalid = refl

  finish-IsChecked :
      (c : ProviderCredential) (model : String) (now : ℕ)
      → IsChecked (finish_test c (accepts l tester now model c) now c)
  unfolding finish_test
  finish-IsChecked c model now = elim (Bool-cases (accepts l tester now model c)) [
    | inl q ↦ rw (q, written c.status connected) (accepted_payload c model now q)
    | inr q ↦ rw (q, written c.status invalid) (now, refl)
  ]

  either-IsChecked :
      (b : Bool) (c d : ProviderCredential)
      → IsChecked c
      → IsChecked d
      → IsChecked (if b then c else d)
  either-IsChecked true c d h k = h
  either-IsChecked false c d h k = k

  stamped-IsChecked :
      (now : ℕ) (b : Bool) (c : ProviderCredential)
      → IsChecked c
      → IsChecked (if b then c else record c { updated_at = now })
  stamped-IsChecked now b c h = either-IsChecked b c (record c { updated_at = now }) h h

  patch-IsChecked :
      (random now : ℕ) (u : ProviderCredentialUpdate) (p : CredentialPayload)
      (c : ProviderCredential)
      → IsChecked c
      → IsChecked (patch_credential l random now u p c)
  unfolding patch_credential
  patch-IsChecked random now u p c h =
      stamped-IsChecked now _ _
        (either-IsChecked (is_sent u.api_key || is_sent u.api_base) _ _ refl h)

  abbrev AllChecked : Database → Type 0
  AllChecked db = All IsChecked db.credentials

  -- A test is of the row that it writes.
  tested_row :
      (c : ProviderCredential) (k : ℕ) (model : String) (now : ℕ) (x : ProviderCredential)
      → ((x.id == k) ≡ false) ⊎ (x ≡ c)
      → ((x.id == k) ≡ false) ⊎ IsChecked (finish_test c (accepts l tester now model c) now x)
  tested_row c k model now x (inl n) = inl n
  tested_row c k model now x (inr e) = inr (
      subst (λ y. IsChecked (finish_test c (accepts l tester now model c) now y)) (sym e)
        (finish-IsChecked c model now))

  pub ids :
      (db : Database)
      → primary_keys db ≡ true
      → unique_by (same_key (λ (c : ProviderCredential). c.id)) db.credentials ≡ true
  unfolding primary_keys
  ids db h = ground arith

  -- Where primary keys are unique and no other request comes between the two halves of a test, every
  -- request on credentials, of any user, keeps this of every credential: an untested one was not checked
  -- since its payload was written, and a connected one was accepted by the provider at the time of its
  -- last check with the very payload that is stored.
  pub apply_credential-IsChecked :
      (user : ℕ) (q : CredentialRequest) (db : Database)
      → primary_keys db ≡ true
      → All IsChecked db.credentials
      → All IsChecked (apply_credential l tester user q db).credentials
  unfolding apply_credential create_provider_credential new_credential update_provider_credential
      delete_provider_credential test_provider_credential get_owned_provider_credential
  apply_credential-IsChecked user (post_credential id random now body) db pk h =
      if_lem AllChecked _ _ _ h
        (answer_lem AllChecked db _ _ h λ _. All-append IsChecked db.credentials _ h (refl, tt))
  apply_credential-IsChecked user (patch_credential_at k random now u) db pk h =
      if_lem AllChecked (nulls_in_credential u) _ _ h (
        found_lem AllChecked (get_owned_provider_credential user k db) db _ h λ c e.
          decrypted_lem AllChecked db (decrypt l c.encrypted_payload) _ h λ p.
            answer_lem AllChecked db _ _ h λ _.
              All-change IsChecked (λ (c : ProviderCredential). c.id == k)
                (patch_credential l random now u p) db.credentials
                (All-imp IsChecked _ (λ x g. inr (patch-IsChecked random now u p x g))
                  db.credentials h)
                h)
  apply_credential-IsChecked user (delete_credential_at k) db pk h =
      found_lem AllChecked (get_owned_provider_credential user k db) db _ h λ c e.
        if_lem AllChecked (any (uses k) db.variants) _ _ h (
          commit_lem AllChecked db _ _ h λ _.
            All-filter IsChecked (λ (c : ProviderCredential). not (c.id == k)) db.credentials h)
  apply_credential-IsChecked user (test_credential_at k model now) db pk h =
      found_lem AllChecked (get_owned_provider_credential user k db) db _ h λ c e.
        if_lem AllChecked _ _ _
          (All-change IsChecked (λ (c : ProviderCredential). c.id == k)
            (finish_test c (accepts l tester now model c) now) db.credentials
            (All-imp (λ x. ((x.id == k) ≡ false) ⊎ (x ≡ c)) _ (tested_row c k model now)
              db.credentials (the_row user k c db.credentials (ids db pk) (owned_rows _ c e)))
            h)
          h
