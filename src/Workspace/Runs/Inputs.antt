-- ===== src/Workspace/Runs/Inputs.antt =====
-- What the worker loads for a run (`_prepare_run` of backend/services/run_execution.py), from the tables.
use llm_evaluation_platform.Common.{
  ℕ, String, ◌≡◌, refl, sym, ◌⊎◌, inl, inr, Bool, true, false, ◌&&◌, ◌||◌, not, Option, none, some,
  List, [], ◌∷◌, map, arith, ◌==◌, if◌then◌else◌, Bool-cases, ==_iff, filter, any, all,
}
use mathlib.Core.Path.{subst}
use llm_evaluation_platform.Runs.Models.{EvaluationRun}
use llm_evaluation_platform.Workspace.Models.{
  Project, DatasetItem, Variant, ProviderCredential, RunVariantLink, Database,
}
use llm_evaluation_platform.Workspace.Tables.{unique_by, same_key}
use llm_evaluation_platform.Workspace.Database.{constraints, primary_keys, variant_in}
use llm_evaluation_platform.Runs.Execution.{Inputs, is_foreign}
use llm_evaluation_platform.Workspace.Tables.{any_mono, exclusive, all_and}
use llm_evaluation_platform.Workspace.Crud.{items_in}
use llm_evaluation_platform.Workspace.Crud.Outcomes.{none_of_all}
use llm_evaluation_platform.Workspace.Crud.Integrity.{
  IsConsistent, project_owned, credential_owned, link_in_project,
}

-- `variant.credential`
abbrev pub owner_of_credential : ℕ → List ProviderCredential → Option ℕ
owner_of_credential k [] = none
owner_of_credential k (c ∷ cs) =
    let rest = owner_of_credential k cs in if c.id == k then some c.user_id else rest

abbrev pub credential_owner : Database → Option ℕ → Option ℕ
credential_owner db none = none
credential_owner db (some k) = owner_of_credential k db.credentials

abbrev pub is_linked : Database → ℕ → Variant → Bool
is_linked db run_id v =
    any (λ (l : RunVariantLink). l.run_id == run_id && l.variant_id == v.id) db.run_variants

-- The run's items and variants; `str` is `str` of a UUID, and `owner` the owner of the run's project. The
-- variants are not sorted here: their order does not matter to what is shown.
unfoldable pub run_inputs : (ℕ → String) → Database → EvaluationRun → ℕ → Inputs
run_inputs str db r owner = record {
  owner_id = owner;
  items = map (λ (i : DatasetItem). str i.id) (items_in owner r.dataset_id db);
  variants =
      map
        (λ (v : Variant). record {
          name = v.name;
          credential_owner = credential_owner db v.credential_id;
        })
        (filter (is_linked db r.id) db.variants);
}

module _ (db : Database) (s : IsConsistent db) where
  -- A project has one owner.
  one_owner :
      (k x owner : ℕ)
      → project_owned db k x ≡ true
      → project_owned db k owner ≡ true
      → (x == owner) ≡ true
  unfolding constraints primary_keys
  one_owner k x owner h g = elim (Bool-cases (x == owner)) [
    | inl q ↦ q
    | inr q ↦ absurd (
        ground (
          arith,
          g,
          none_of_all (λ (p : Project). p.id == k && p.owner_id == owner) db.projects
              (exclusive (λ (p : Project). p.id) k (λ p. p.owner_id == x) (λ p. p.owner_id == owner)
                (λ p. ground (arith, q)) db.projects (ground (arith, s.constrained)) h),
        ))
  ]

  -- A credential with one owner has no other.
  credential_of_owner :
      (k owner : ℕ) (cs : List ProviderCredential)
      → unique_by (same_key (λ (c : ProviderCredential). c.id)) cs ≡ true
      → any (λ (c : ProviderCredential). c.id == k && c.user_id == owner) cs ≡ true
      → owner_of_credential k cs ≡ some owner
  unfolding unique_by
  credential_of_owner k owner [] u h = cc
  credential_of_owner k owner (c ∷ cs) u h = elim (Bool-cases (c.id == k)) [
    | inl q ↦ ground (arith, q, u, h, later c.id cs, ==_iff c.id k)
    | inr q ↦ ground (arith, credential_of_owner k owner cs)
  ]
    where
      later :
          (j : ℕ) (xs : List ProviderCredential)
          → any (λ (d : ProviderCredential). d.id == j) xs ≡ false
          → any (λ (d : ProviderCredential). d.id == j && d.user_id == owner) xs ≡ false
      later j [] n = refl
      later j (d ∷ xs) n = ground (arith, later j xs)

  own_credential :
      (owner k : ℕ) (o : Option ℕ)
      → project_owned db k owner ≡ true
      → credential_owned db k o ≡ true
      → (credential_owner db o ≡ none) ⊎ (credential_owner db o ≡ some owner)
  unfolding constraints primary_keys
  own_credential owner k none p h = inl refl
  own_credential owner k (some c) p h = inr (
      credential_of_owner c owner db.credentials (ground (arith, s.constrained)) (
        any_mono (λ (x : ProviderCredential). x.id == c && project_owned db k x.user_id)
          (λ x. x.id == c && x.user_id == owner)
          (λ x g. ground (arith, g, one_owner k x.user_id owner)) db.credentials h))

  -- `b` holds of a found row if it holds of every row that the query means.
  of_found :
      (p b : EvaluationRun → Bool) (xs : List EvaluationRun) (r : EvaluationRun)
      → filter p xs ≡ r ∷ []
      → all (λ x. not (p x && not (b x))) xs ≡ true
      → b r ≡ true
  of_found p b [] r e h = cc
  of_found p b (x ∷ xs) r e h = elim (Bool-cases (p x)) [
    | inl q ↦ ground (arith, q, e, h)
    | inr q ↦ of_found p b xs r (ground arith) (ground arith)
  ]

  of_link :
      (p q : RunVariantLink → Bool) (b : Bool) (ls : List RunVariantLink)
      → ((l : RunVariantLink) → p l ≡ true → q l ≡ true → b ≡ true)
      → any p ls ≡ true
      → all q ls ≡ true
      → b ≡ true
  of_link p q b [] f h k = cc
  of_link p q b (l ∷ ls) f h k = ground (arith, f l, of_link p q b ls f)

  diagonal :
      (linked : ℕ → Bool) (b : Variant → Bool) (vs : List Variant)
      → ((j : ℕ) → linked j ≡ true → all (λ (w : Variant). not (w.id == j && not (b w))) vs ≡ true)
      → all (λ (w : Variant). not (linked w.id) || b w) vs ≡ true
  diagonal linked b [] f = refl
  diagonal linked b (v ∷ vs) f =
      let rest = diagonal linked b vs (λ j h. ground (arith, f j h)) in
      elim (Bool-cases (linked v.id)) [
        | inl q ↦ ground (arith, rest, f v.id q, ==_iff v.id v.id)
        | inr q ↦ ground (arith, rest)
      ]

  module _ (r : EvaluationRun)
      (found_run : filter (λ (x : EvaluationRun). x.id == r.id) db.runs ≡ r ∷ []) where
    linked_variant :
        (j : ℕ)
        → any (λ (l : RunVariantLink). l.run_id == r.id && l.variant_id == j) db.run_variants ≡ true
        → variant_in db r.project_id j ≡ true
    unfolding constraints primary_keys
    linked_variant j h =
        of_found (λ x. x.id == r.id) (λ x. variant_in db x.project_id j) db.runs r found_run
          (exclusive (λ (x : EvaluationRun). x.id) r.id (λ x. variant_in db x.project_id j)
            (λ x. not (variant_in db x.project_id j)) (λ x. ground arith) db.runs
            (ground (arith, s.constrained))
            (of_link (λ l. l.run_id == r.id && l.variant_id == j) (link_in_project db)
              (any (λ (x : EvaluationRun). x.id == r.id && variant_in db x.project_id j) db.runs)
              db.run_variants
              (λ l g k.
                subst
                  (λ a.
                    any (λ (x : EvaluationRun). x.id == a && variant_in db x.project_id j) db.runs
                    ≡ true)
                  ((==_iff l.run_id r.id).0 (ground (arith, g)))
                  (subst
                    (λ b.
                      any (λ (x : EvaluationRun). x.id == l.run_id && variant_in db x.project_id b)
                        db.runs
                      ≡ true)
                    ((==_iff l.variant_id j).0 (ground (arith, g))) k))
              h s.variants_in_project))

    linked_variants :
        all (λ (v : Variant). not (is_linked db r.id v) || v.project_id == r.project_id) db.variants
        ≡ true
    unfolding constraints primary_keys
    linked_variants =
        diagonal
          (λ j. any (λ (l : RunVariantLink). l.run_id == r.id && l.variant_id == j) db.run_variants)
          (λ v. v.project_id == r.project_id) db.variants
          (λ j h.
            exclusive (λ (v : Variant). v.id) j (λ v. v.project_id == r.project_id)
              (λ v. not (v.project_id == r.project_id)) (λ v. ground arith) db.variants
              (ground (arith, s.constrained)) (linked_variant j h))

    own_variants :
        (owner : ℕ) (vs : List Variant)
        → project_owned db r.project_id owner ≡ true
        → all
            (λ (v : Variant).
              credential_owned db v.project_id v.credential_id
              && (not (is_linked db r.id v) || v.project_id == r.project_id))
            vs
          ≡ true
        → any (is_foreign owner) (
            map
              (λ (v : Variant). record {
                name = v.name;
                credential_owner = credential_owner db v.credential_id;
              })
              (filter (is_linked db r.id) vs))
          ≡ false
    own_variants owner [] p h = refl
    own_variants owner (v ∷ vs) p h =
        let rest = own_variants owner vs p (ground arith) in
        elim (Bool-cases (is_linked db r.id v)) [
          | inl q ↦
              rw q
                (elim (own_credential owner v.project_id v.credential_id
                  (subst (λ k. project_owned db k owner ≡ true)
                    (sym ((==_iff v.project_id r.project_id).0 (ground arith))) p)
                  (ground arith)) [
                    | inl e ↦ rw e rest
                    | inr e ↦ rw e (ground (arith, rest, ==_iff owner owner))
                  ])
          | inr q ↦ rw q rest
        ]

    -- In a consistent database, the worker never finds a run with another user's credential: of what it
    -- loads for a run, no variant's credential belongs to anyone but the owner of the run's project.
    pub run_inputs_own :
        (str : ℕ → String) (owner : ℕ)
        → project_owned db r.project_id owner ≡ true
        → any (is_foreign owner) (run_inputs str db r owner).variants ≡ false
    unfolding run_inputs
    run_inputs_own str owner p = own_variants owner db.variants p (
        all_and (λ (v : Variant). credential_owned db v.project_id v.credential_id)
          (λ v. not (is_linked db r.id v) || v.project_id == r.project_id) db.variants
          s.credentials_owned linked_variants)
