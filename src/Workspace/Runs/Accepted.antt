-- ===== src/Workspace/Runs/Accepted.antt =====
-- What a run that is accepted is made of: a dataset and variants of its project.
use llm_evaluation_platform.Common.{
  ℕ, ◌≡◌, refl, sym, ◌∙◌, ◌≢◌, inl, inr, Bool, true, false, ◌&&◌, ◌||◌, not, Option, none, some,
  List, [], ◌∷◌, arith, ltb, ◌==◌, if◌then◌else◌, Bool-cases, length, filter, any, all,
}
use llm_evaluation_platform.Workspace.Models.{Dataset, Variant, Database}
use llm_evaluation_platform.Workspace.Database.{dataset_in, variant_in}
use llm_evaluation_platform.Workspace.Ownership.{
  Answer, ok, not_found, conflict, server_error, get_owned_dataset, datasets_of, owns,
}
use llm_evaluation_platform.Workspace.Crud.{items_in}
use llm_evaluation_platform.Workspace.Schemas.{EvaluationRunCreate}
use llm_evaluation_platform.Workspace.Tables.{any-filter, any_mono, all_mono}
use llm_evaluation_platform.Workspace.Crud.Outcomes.{owned_rows}
use llm_evaluation_platform.Workspace.Runs.{
  one_of, variant_by_id, join, in_order, asked_for, check_run,
}
use mathlib.Core.Path.{subst}

module _ {A : Type 0} where
  -- A row that a lookup has found is in the table.
  found_row :
      (p b : A → Bool) (xs : List A) (a : A)
      → filter p xs ≡ a ∷ []
      → b a ≡ true
      → any (λ x. p x && b x) xs ≡ true
  found_row p b [] a e h = cc
  found_row p b (x ∷ xs) a e h = elim (Bool-cases (p x)) [
    | inl q ↦
        let same : x ≡ a = ground (arith, e, q) in
        ground (arith, q, subst (λ y. b y ≡ true) (sym same) h)
    | inr q ↦ ground (arith, found_row p b xs a)
  ]

  self_among :
      (w : A → Bool) (same : A → A → Bool)
      → ((x : A) → same x x ≡ true)
      → (xs : List A) → all (λ x. not (w x) || any (λ y. same x y && w y) xs) xs ≡ true
  self_among w same r [] = refl
  self_among w same r (x ∷ xs) =
      let rest =
        all_mono (λ x. not (w x) || any (λ y. same x y && w y) xs)
          (λ z. not (w z) || ((same z x && w x) || any (λ y. same z y && w y) xs))
          (λ z h. ground arith) xs (self_among w same r xs) in
      ground (arith, rest, r x)

  filter-all :
      (p w : A → Bool) (xs : List A)
      → all (λ x. not (w x) || p x) xs ≡ true
      → all p (filter w xs) ≡ true
  filter-all p w [] h = refl
  filter-all p w (x ∷ xs) h = ground (arith, filter-all p w xs)

by_id_all :
    (p : Variant → Bool) (k : ℕ) (vs : List Variant) (v : Variant)
    → all p vs ≡ true
    → variant_by_id k vs ≡ some v
    → p v ≡ true
by_id_all p k [] v h e = cc
by_id_all p k (w ∷ ws) v h e = elim (Bool-cases (w.id == k)) [
  | inl q ↦ let same : w ≡ v = ground (arith, e, q) in subst (λ y. p y ≡ true) same (ground arith)
  | inr q ↦ by_id_all p k ws v (ground arith) (ground arith)
]

in_order-all :
    (p : Variant → Bool) (ks : List ℕ) (vs ws : List Variant)
    → all p vs ≡ true
    → in_order ks vs ≡ some ws
    → all p ws ≡ true
unfolding in_order
in_order-all p [] vs ws h e =
    let same : [] ≡ ws = ground arith in subst (λ xs. all p xs ≡ true) same refl
in_order-all p (k ∷ ks) vs ws h e =
    of_join (variant_by_id k vs) refl (in_order ks vs) refl
      (λ us g. in_order-all p ks vs us (ground arith) g) e
  where
    of_join :
        (o : Option Variant)
        → variant_by_id k vs ≡ o
        → (r : Option (List Variant)) → in_order ks vs ≡ r
        → ((us : List Variant) → in_order ks vs ≡ some us → all p us ≡ true)
        → join o r ≡ some ws
        → all p ws ≡ true
    of_join none f r g i e = absurd (ground arith)
    of_join (some v) f none g i e = absurd (ground arith)
    of_join (some v) f (some us) g i e =
        let same : v ∷ us ≡ ws = ground arith in
        subst (λ xs. all p xs ≡ true) same (ground (arith, by_id_all p k vs v h f, i us g))

passed :
    {A : Type 0} (b : Bool) (x y : Answer A) (a : A)
    → ((z : A) → x ≢ ok z)
    → (if b then x else y) ≡ ok a
    → (b ≡ false) × (y ≡ ok a)
passed true x y a n e = absurd (n a e)
passed false x y a n e = (refl, e)

module _ (user : ℕ) (payload : EvaluationRunCreate) (d : Dataset) (db : Database) where
  -- The variants of a run that was accepted are of its project.
  pub checked_variants :
      (vs : List Variant)
      → check_run user payload d db ≡ ok vs
      → ((d.project_id == payload.project_id) ≡ true)
        × (all (λ (v : Variant). variant_in db payload.project_id v.id) vs ≡ true)
  unfolding check_run
  checked_variants vs e =
      let (same, e1) =
        passed (not (d.project_id == payload.project_id)) conflict _ vs (λ z. λ q. cc) e in
      let (some_items, e2) =
        passed (length (items_in user payload.dataset_id db) == 0) conflict _ vs (λ z. λ q. cc)
          e1 in
      let (all_found, e3) =
        passed (not (length (asked_for user payload db) == length payload.variant_ids)) not_found _
          vs (λ z. λ q. cc) e2 in
      let (retries, e4) =
        passed (any (λ (v : Variant). ltb 10 v.max_retries) (asked_for user payload db)) conflict _
          vs (λ z. λ q. cc) e3 in
      (ground arith, of_order (in_order payload.variant_ids (asked_for user payload db)) refl e4)
    where
      in_project :
          all (λ (v : Variant). variant_in db payload.project_id v.id) (asked_for user payload db)
          ≡ true
      in_project =
          filter-all (λ (v : Variant). variant_in db payload.project_id v.id)
            (λ v. one_of payload.variant_ids v.id && v.project_id == payload.project_id) db.variants
            (all_mono
              (λ (v : Variant).
                not (v.project_id == payload.project_id)
                || any (λ (w : Variant). w.id == v.id && w.project_id == payload.project_id)
                    db.variants)
              (λ v.
                not (one_of payload.variant_ids v.id && v.project_id == payload.project_id)
                || variant_in db payload.project_id v.id)
              (λ v h. ground arith) db.variants
              (self_among (λ (v : Variant). v.project_id == payload.project_id)
                (λ v w. w.id == v.id) (λ v. ground arith) db.variants))

      of_order :
          (o : Option (List Variant))
          → in_order payload.variant_ids (asked_for user payload db) ≡ o
          → elim o as (λ _. Answer (List Variant)) [ none ↦ server_error | some ws ↦ ok ws ] ≡ ok vs
          → all (λ (v : Variant). variant_in db payload.project_id v.id) vs ≡ true
      of_order none q e = absurd cc
      of_order (some ws) q e =
          let same : ws ≡ vs = ground arith in
          subst (λ xs. all (λ (v : Variant). variant_in db payload.project_id v.id) xs ≡ true) same
            (in_order-all (λ v. variant_in db payload.project_id v.id) payload.variant_ids
              (asked_for user payload db) ws in_project q)

  pub own_dataset :
      get_owned_dataset user payload.dataset_id db ≡ ok d
      → (d.project_id == payload.project_id) ≡ true
      → dataset_in db payload.project_id payload.dataset_id ≡ true
  unfolding get_owned_dataset
  own_dataset e h = of_filter (
      found_row (λ (x : Dataset). x.id == payload.dataset_id)
        (λ x. x.project_id == payload.project_id) (datasets_of user db) d (owned_rows _ d e) h)
    where
      of_filter :
          any
              (λ (x : Dataset). x.id == payload.dataset_id && x.project_id == payload.project_id)
              (datasets_of user db)
            ≡ true
          → dataset_in db payload.project_id payload.dataset_id ≡ true
      of_filter g =
          any_mono
            (λ (x : Dataset).
              (x.id == payload.dataset_id && x.project_id == payload.project_id)
              && owns user db x.project_id)
            (λ x. x.id == payload.dataset_id && x.project_id == payload.project_id)
            (λ x h. ground arith) db.datasets
            (sym (
                any-filter
                  (λ (x : Dataset).
                    x.id == payload.dataset_id && x.project_id == payload.project_id)
                  (λ x. owns user db x.project_id) db.datasets)
              ∙ g)
