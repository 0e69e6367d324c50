-- ===== src/Workspace/Crud/Hidden.antt =====
-- What another user's rows can never be among, and the deletion of another user's project.
use llm_evaluation_platform.Common.{
  ℕ, ◌≡◌, refl, sym, ◌∙◌, inl, inr, Bool, true, false, ◌&&◌, ◌||◌, not, List, arith, ◌==◌,
  Bool-cases, ==_iff, any, all,
}
use llm_evaluation_platform.Runs.Models.{EvaluationRun}
use llm_evaluation_platform.Workspace.Models.{
  Project, Dataset, DatasetItem, Variant, RunVariantLink, ResultKey, Database,
}
use llm_evaluation_platform.Workspace.Crud.Integrity.{link_in_project}
use llm_evaluation_platform.Workspace.Database.{
  primary_keys, remove_project, dataset_in, run_in, variant_in,
}
use llm_evaluation_platform.Workspace.Ownership.{owns, owns_dataset, owns_run}
use llm_evaluation_platform.Workspace.Tables.{
  filter-remove, any-filter, any_mono, all_mono, exclusive,
}
use llm_evaluation_platform.Workspace.Crud.Outcomes.{none_of_all}
use llm_evaluation_platform.Workspace.Crud.Views.{
  SameFor, views, all_by, project_ids, dataset_ids, variant_ids, run_ids,
}

module _ (u v : ℕ) (ne : (v == u) ≡ false) (db : Database) (pk : primary_keys db ≡ true) where
  pub hidden_project :
      (k : ℕ)
      → any (λ (p : Project). p.id == k && p.owner_id == v) db.projects ≡ true
      → all (λ (p : Project). not (p.id == k && p.owner_id == u)) db.projects ≡ true
  hidden_project k h =
      exclusive (λ (p : Project). p.id) k (λ p. p.owner_id == v) (λ p. p.owner_id == u)
        (λ p. ground arith) db.projects (project_ids db pk) h

  pub disowned :
      (k : ℕ)
      → any (λ (p : Project). p.id == k && p.owner_id == v) db.projects ≡ true
      → owns u db k ≡ false
  disowned k h =
      any-filter (λ (p : Project). p.id == k) (λ p. p.owner_id == u) db.projects
      ∙ none_of_all (λ (p : Project). p.id == k && p.owner_id == u) db.projects (hidden_project k h)

  pub owns_both : (k : ℕ) → (owns v db k && owns u db k) ≡ false
  owns_both k = elim (Bool-cases (owns v db k)) [
    | inl q ↦ ground (
      arith,
      disowned k
          (sym (any-filter (λ (p : Project). p.id == k) (λ p. p.owner_id == v) db.projects) ∙ q),
    )
    | inr q ↦ ground arith
  ]

  -- A dataset of a project that `a` picks and `u` does not own is not among those of `u`.
  pub hidden_dataset :
      (k : ℕ) (a : Dataset → Bool)
      → ((d : Dataset) → (a d && owns u db d.project_id) ≡ false)
      → any (λ (d : Dataset). d.id == k && a d) db.datasets ≡ true
      → all (λ (d : Dataset). not (d.id == k && owns u db d.project_id)) db.datasets ≡ true
  hidden_dataset k a n h =
      exclusive (λ (d : Dataset). d.id) k a (λ d. owns u db d.project_id) n db.datasets
        (dataset_ids db pk) h

  pub disowned_dataset :
      (k : ℕ) (a : Dataset → Bool)
      → ((d : Dataset) → (a d && owns u db d.project_id) ≡ false)
      → any (λ (d : Dataset). d.id == k && a d) db.datasets ≡ true
      → owns_dataset u db k ≡ false
  disowned_dataset k a n h =
      any-filter (λ (d : Dataset). d.id == k) (λ d. owns u db d.project_id) db.datasets
      ∙ none_of_all (λ (d : Dataset). d.id == k && owns u db d.project_id) db.datasets
          (hidden_dataset k a n h)

  pub owns_dataset_both : (k : ℕ) → (owns_dataset v db k && owns_dataset u db k) ≡ false
  owns_dataset_both k = elim (Bool-cases (owns_dataset v db k)) [
    | inl q ↦ ground (
      arith,
      disowned_dataset k (λ d. owns v db d.project_id) (λ d. owns_both d.project_id)
          (sym (any-filter (λ (d : Dataset). d.id == k) (λ d. owns v db d.project_id) db.datasets)
            ∙ q),
    )
    | inr q ↦ ground arith
  ]

  -- A run of a project that `a` picks and `u` does not own is not among those of `u`.
  pub disowned_run :
      (k : ℕ) (a : EvaluationRun → Bool)
      → ((r : EvaluationRun) → (a r && owns u db r.project_id) ≡ false)
      → any (λ (r : EvaluationRun). r.id == k && a r) db.runs ≡ true
      → owns_run u db k ≡ false
  disowned_run k a n h =
      any-filter (λ (r : EvaluationRun). r.id == k) (λ r. owns u db r.project_id) db.runs
      ∙ none_of_all (λ (r : EvaluationRun). r.id == k && owns u db r.project_id) db.runs
          (exclusive (λ (r : EvaluationRun). r.id) k a (λ r. owns u db r.project_id) n db.runs
            (run_ids db pk) h)

  module _ (a : ℕ → Bool) (n : (j : ℕ) → (a j && owns u db j) ≡ false) where
    -- Where variants have unique ids, all projects of a variant are picked if one is.
    picked :
        (j x : ℕ)
        → any (λ (w : Variant). w.id == x && a w.project_id) db.variants ≡ true
        → variant_in db j x ≡ true
        → a j ≡ true
    picked j x h g = elim (Bool-cases (a j)) [
      | inl q ↦ q
      | inr q ↦ absurd (
          let all_not : all (λ (w : Variant). not (w.id == x && w.project_id == j)) db.variants
              ≡ true =
            exclusive (λ (w : Variant). w.id) x (λ w. a w.project_id) (λ w. w.project_id == j)
              (λ w. other j q w.project_id) db.variants (variant_ids db pk) h in
          ground (
            arith,
            none_of_all (λ (w : Variant). w.id == x && w.project_id == j) db.variants all_not,
            g,
          ))
    ]
      where
        other : (j : ℕ) → a j ≡ false → (i : ℕ) → (a i && i == j) ≡ false
        other j q i = elim (Bool-cases (i == j)) [
          | inl e ↦ rw ((==_iff i j).0 e, q) refl
          | inr e ↦ ground (arith, e)
        ]

    run_picked :
        (l : RunVariantLink) (rs : List EvaluationRun)
        → any (λ (w : Variant). w.id == l.variant_id && a w.project_id) db.variants ≡ true
        → any
            (λ (r : EvaluationRun). r.id == l.run_id && variant_in db r.project_id l.variant_id)
            rs
          ≡ true
        → any (λ (r : EvaluationRun). r.id == l.run_id && a r.project_id) rs ≡ true
    run_picked l rs h g =
        any_mono
          (λ (r : EvaluationRun). r.id == l.run_id && variant_in db r.project_id l.variant_id)
          (λ r. r.id == l.run_id && a r.project_id)
          (λ r e. ground (arith, picked r.project_id l.variant_id h)) rs g

    -- No run of `u` is linked to a variant of a picked project.
    pub unlinked :
        (l : RunVariantLink)
        → link_in_project db l ≡ true
        → any (λ (w : Variant). w.id == l.variant_id && a w.project_id) db.variants ≡ true
        → owns_run u db l.run_id ≡ false
    unlinked l g h =
        disowned_run l.run_id (λ r. a r.project_id) (λ r. n r.project_id) (run_picked l db.runs h g)

  pub remove_project_same :
      (k : ℕ)
      → all (link_in_project db) db.run_variants ≡ true
      → any (λ (p : Project). p.id == k && p.owner_id == v) db.projects ≡ true
      → SameFor u (remove_project k db) db
  unfolding remove_project
  remove_project_same k s h =
      let hid : owns u db k ≡ false = disowned k h in
      views u (remove_project k db) db
        (filter-remove (λ (p : Project). p.owner_id == u) (λ p. p.id == k) db.projects
          (hidden_project k h))
        (filter-remove (λ (d : Dataset). owns u db d.project_id) (λ d. d.project_id == k)
          db.datasets
          (all_by (λ (d : Dataset). not (d.project_id == k && owns u db d.project_id))
            (λ d. gone d.project_id k hid) db.datasets))
        (filter-remove (λ (i : DatasetItem). owns_dataset u db i.dataset_id)
          (λ i. dataset_in db k i.dataset_id) db.dataset_items
          (all_by
            (λ (i : DatasetItem).
              not (dataset_in db k i.dataset_id && owns_dataset u db i.dataset_id))
            (λ i. gone_dataset i.dataset_id k hid) db.dataset_items))
        (filter-remove (λ (w : Variant). owns u db w.project_id) (λ w. w.project_id == k)
          db.variants
          (all_by (λ (w : Variant). not (w.project_id == k && owns u db w.project_id))
            (λ w. gone w.project_id k hid) db.variants))
        refl
        (filter-remove (λ (r : EvaluationRun). owns u db r.project_id) (λ r. r.project_id == k)
          db.runs
          (all_by (λ (r : EvaluationRun). not (r.project_id == k && owns u db r.project_id))
            (λ r. gone r.project_id k hid) db.runs))
        (filter-remove (λ (x : ResultKey). owns_run u db x.run_id) (λ x. run_in db k x.run_id)
          db.results
          (all_by (λ (x : ResultKey). not (run_in db k x.run_id && owns_run u db x.run_id))
            (λ x. gone_run x.run_id k hid) db.results))
        (filter-remove (λ (l : RunVariantLink). owns_run u db l.run_id)
          (λ l. run_in db k l.run_id || variant_in db k l.variant_id) db.run_variants
          (all_mono (link_in_project db)
            (λ (l : RunVariantLink).
              not
                ((run_in db k l.run_id || variant_in db k l.variant_id) && owns_run u db l.run_id))
            (λ l g. gone_link l k hid g) db.run_variants s))
    where
      gone : (j k : ℕ) → owns u db k ≡ false → not (j == k && owns u db j) ≡ true
      gone j k hid = ground (arith, ==_iff j k)

      gone_dataset :
          (j k : ℕ) → owns u db k ≡ false → not (dataset_in db k j && owns_dataset u db j) ≡ true
      gone_dataset j k hid = elim (Bool-cases (dataset_in db k j)) [
        | inl q ↦ ground (
          arith,
          disowned_dataset j (λ d. d.project_id == k) (λ d. ground (arith, ==_iff d.project_id k))
              q,
        )
        | inr q ↦ ground arith
      ]

      gone_run : (j k : ℕ) → owns u db k ≡ false → not (run_in db k j && owns_run u db j) ≡ true
      gone_run j k hid = elim (Bool-cases (run_in db k j)) [
        | inl q ↦ ground (
          arith,
          disowned_run j (λ r. r.project_id == k) (λ r. ground (arith, ==_iff r.project_id k)) q,
        )
        | inr q ↦ ground arith
      ]

      gone_link :
          (l : RunVariantLink) (k : ℕ)
          → owns u db k ≡ false
          → link_in_project db l ≡ true
          → not ((run_in db k l.run_id || variant_in db k l.variant_id) && owns_run u db l.run_id)
            ≡ true
      gone_link l k hid g = elim (Bool-cases (variant_in db k l.variant_id)) [
        | inl q ↦ ground (arith, unlinked (λ j. j == k) (λ j. ground (arith, ==_iff j k)) l g q)
        | inr q ↦ ground (arith, gone_run l.run_id k hid)
      ]
