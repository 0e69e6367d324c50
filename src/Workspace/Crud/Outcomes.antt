-- ===== src/Workspace/Crud/Outcomes.antt =====
-- What a handler leaves: the database as it was, or the change that its lookups allowed.
use llm_evaluation_platform.Common.{
  ℕ, ◌≡◌, refl, sym, ◌∙◌, inl, inr, Bool, true, false, ◌&&◌, not, some, List, [], ◌∷◌, arith, ◌==◌,
  if◌then◌else◌, Bool-cases, filter, any, all,
}
use llm_evaluation_platform.Workspace.Models.{ProviderCredential, Database}
use llm_evaluation_platform.Workspace.Database.{constraints}
use llm_evaluation_platform.Workspace.Ownership.{
  Answer, ok, not_found, conflict, unprocessable, bad_request, unavailable, server_error,
  get_owned_provider_credential, credentials_of, owned_or_404,
}
use llm_evaluation_platform.Workspace.Crud.{commit, found, check_credential}
use llm_evaluation_platform.Workspace.Tables.{any-filter}

pub found_lem :
    {A B : Type 0} (P : Database → Type 0) (r : Answer A) (db : Database)
    (k : A → Answer B × Database)
    → P db
    → ((a : A) → r ≡ ok a → P (k a).1)
    → P (found r db k).1
found_lem P (ok a) db k h f = f a refl
found_lem P not_found db k h f = h
found_lem P conflict db k h f = h
found_lem P unprocessable db k h f = h
found_lem P bad_request db k h f = h
found_lem P unavailable db k h f = h
found_lem P server_error db k h f = h

pub commit_lem :
    {A : Type 0} (P : Database → Type 0) (db changed : Database) (a : A)
    → P db
    → (constraints changed ≡ true → P changed)
    → P (commit db changed a).1
commit_lem P db changed a h f = elim (Bool-cases (constraints changed)) [
  | inl q ↦ rw q (f q)
  | inr q ↦ rw q h
]

pub if_lem :
    {B : Type 0} (P : Database → Type 0) (b : Bool) (x y : B × Database)
    → P x.1
    → P y.1
    → P (if b then x else y).1
if_lem P true x y h k = h
if_lem P false x y h k = k

pub owned_rows : {A : Type 0} (xs : List A) (a : A) → owned_or_404 xs ≡ ok a → xs ≡ a ∷ []
owned_rows [] a e = cc
owned_rows (x ∷ []) a e = ground arith
owned_rows (x ∷ y ∷ xs) a e = cc

any_of_head :
    {A : Type 0} (p : A → Bool) (xs : List A) (a : A) → filter p xs ≡ a ∷ [] → any p xs ≡ true
any_of_head p [] a e = cc
any_of_head p (x ∷ xs) a e = ground (arith, any_of_head p xs a)

-- A lookup that finds a row has found one with both tests.
pub owned_any :
    {A : Type 0} (p q : A → Bool) (xs : List A) (a : A)
    → owned_or_404 (filter p (filter q xs)) ≡ ok a
    → any (λ x. p x && q x) xs ≡ true
owned_any p q xs a e =
    sym (any-filter p q xs)
    ∙ any_of_head p (filter q xs) a (owned_rows (filter p (filter q xs)) a e)

pub none_of_all :
    {A : Type 0} (p : A → Bool) (xs : List A) → all (λ x. not (p x)) xs ≡ true → any p xs ≡ false
none_of_all p [] h = refl
none_of_all p (x ∷ xs) h = ground (arith, none_of_all p xs)

pub credential_found :
    (user k : ℕ) (db : Database) (c : Unit {0})
    → check_credential user (some k) db ≡ ok c
    → any (λ (x : ProviderCredential). x.id == k && x.user_id == user) db.credentials ≡ true
unfolding get_owned_provider_credential
credential_found user k db c e =
    of_answer
      (owned_or_404 (filter (λ (x : ProviderCredential). x.id == k) (credentials_of user db))) refl
      e
  where
    of_answer :
        (r : Answer ProviderCredential)
        → owned_or_404 (filter (λ (x : ProviderCredential). x.id == k) (credentials_of user db)) ≡ r
        → check_credential user (some k) db ≡ ok c
        → any (λ (x : ProviderCredential). x.id == k && x.user_id == user) db.credentials ≡ true
    of_answer (ok a) q h =
        owned_any (λ (x : ProviderCredential). x.id == k) (λ x. x.user_id == user) db.credentials a
          q
    of_answer not_found q h = absurd (ground arith)
    of_answer conflict q h = absurd (ground arith)
    of_answer unprocessable q h = absurd (ground arith)
    of_answer bad_request q h = absurd (ground arith)
    of_answer unavailable q h = absurd (ground arith)
    of_answer server_error q h = absurd (ground arith)
