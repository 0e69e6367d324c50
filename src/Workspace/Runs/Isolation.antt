-- ===== src/Workspace/Runs/Isolation.antt =====
-- The creation of a run shows to no other user.
use llm_evaluation_platform.Common.{
  ℕ, String, ◌≡◌, refl, ◌∙◌, inl, inr, true, false, ◌&&◌, not, List, [], ◌∷◌, ◌++◌, arith, ◌==◌,
  Bool-cases, ==_iff, ap, all, filter, filter-append,
}
use llm_evaluation_platform.Workspace.Models.{RunVariantLink}
use llm_evaluation_platform.Workspace.Ownership.{owns_run, links_of}
use llm_evaluation_platform.Workspace.Crud.Outcomes.{none_of_all}
use llm_evaluation_platform.Workspace.Tables.{unique_by, same_key, all-append, any-filter}
use llm_evaluation_platform.Workspace.Runs.{link_all}
use llm_evaluation_platform.Runs.Models.{EvaluationRun}
use llm_evaluation_platform.Workspace.Models.{Project, Variant, Database}
use llm_evaluation_platform.Workspace.Database.{constraints, primary_keys}
use llm_evaluation_platform.Workspace.Ownership.{
  Answer, ok, unavailable, get_owned_project, get_owned_dataset, owns,
}
use llm_evaluation_platform.Workspace.Schemas.{EvaluationRunCreate, has_repeat}
use llm_evaluation_platform.Workspace.Tables.{any-append, filter-change, filter-insert, exclusive}
use llm_evaluation_platform.Workspace.Crud.Outcomes.{found_lem, if_lem, owned_any}
use llm_evaluation_platform.Workspace.Crud.Views.{SameFor, same, views}
use llm_evaluation_platform.Workspace.Crud.Hidden.{disowned}
use llm_evaluation_platform.Workspace.Runs.{
  Scheduled, scheduled, refused, add_run, change_run, commit_or_500, fail_run, save_run, check_run,
  create_evaluation_run,
}

module _ (u v : ℕ) (ne : (v == u) ≡ false) (db : Database) (pk : primary_keys db ≡ true) where
  abbrev Same : Database → Type 0
  Same db' = SameFor u db' db

  -- The new run is not among those of `u`, nor is any with its id.
  other_runs :
      (r : EvaluationRun)
      → owns u db r.project_id ≡ false
      → unique_by (same_key (λ (x : EvaluationRun). x.id)) (db.runs ++ r ∷ []) ≡ true
      → all
          (λ (x : EvaluationRun). not (x.id == r.id && owns u db x.project_id))
          (db.runs ++ r ∷ [])
        ≡ true
  other_runs r h k =
      exclusive (λ (x : EvaluationRun). x.id) r.id (λ x. not (owns u db x.project_id))
        (λ x. owns u db x.project_id) (λ x. ground arith) (db.runs ++ r ∷ []) k
        (ground (
          arith,
          h,
          ==_iff r.id r.id,
          any-append (λ (x : EvaluationRun). x.id == r.id && not (owns u db x.project_id)) db.runs
              (r ∷ []),
        ))

  -- A new run belongs to nobody else.
  unknown :
      (r : EvaluationRun) (vs : List Variant)
      → owns u db r.project_id ≡ false
      → constraints (add_run r vs db) ≡ true
      → owns_run u db r.id ≡ false
  unfolding add_run constraints primary_keys
  unknown r vs h c = ground (
    arith,
    all-append (λ (x : EvaluationRun). not (x.id == r.id && owns u db x.project_id)) db.runs
        (r ∷ []),
    other_runs r h (ground (arith, c)),
    any-filter (λ (x : EvaluationRun). x.id == r.id) (λ x. owns u db x.project_id) db.runs,
    none_of_all (λ (x : EvaluationRun). x.id == r.id && owns u db x.project_id) db.runs,
  )

  new_links :
      (r : EvaluationRun) (vs : List Variant)
      → owns u db r.project_id ≡ false
      → constraints (add_run r vs db) ≡ true
      → filter
          (λ (l : RunVariantLink). owns_run u db l.run_id)
          (db.run_variants ++ link_all r.id vs)
        ≡ links_of u db
  new_links r vs h c =
      filter-append (λ (l : RunVariantLink). owns_run u db l.run_id) db.run_variants
        (link_all r.id vs)
      ∙ ap (λ ls. links_of u db ++ ls) (none_linked vs (unknown r vs h c))
      ∙ append_nil (links_of u db)
    where
      none_linked :
          (vs : List Variant)
          → owns_run u db r.id ≡ false
          → filter (λ (l : RunVariantLink). owns_run u db l.run_id) (link_all r.id vs) ≡ []
      none_linked [] n = refl
      none_linked (w ∷ ws) n = ground (arith, none_linked ws n, n)

      append_nil : (xs : List RunVariantLink) → xs ++ [] ≡ xs
      append_nil [] = refl
      append_nil (x ∷ xs) = ap (λ l. x ∷ l) (append_nil xs)

  added-Same :
      (r : EvaluationRun) (vs : List Variant)
      → owns u db r.project_id ≡ false
      → constraints (add_run r vs db) ≡ true
      → Same (add_run r vs db)
  unfolding add_run
  added-Same r vs h c =
      views u (add_run r vs db) db refl refl refl refl refl
        (filter-insert (λ (x : EvaluationRun). owns u db x.project_id) r db.runs h) refl
        (new_links r vs h c)

  failed-Same :
      (r : EvaluationRun) (vs : List Variant) (now : ℕ) (message : String)
      → owns u db r.project_id ≡ false
      → constraints (add_run r vs db) ≡ true
      → Same (change_run r.id (fail_run v now message) (add_run r vs db))
  unfolding add_run constraints primary_keys
  failed-Same r vs now message h c =
      views u (change_run r.id (fail_run v now message) (add_run r vs db)) db refl refl refl refl
        refl
        (filter-change (λ (x : EvaluationRun). owns u db x.project_id) (λ x. x.id == r.id)
            (fail_run v now message) (λ x. refl) (db.runs ++ r ∷ [])
            (other_runs r h (ground (arith, c)))
          ∙ filter-insert (λ (x : EvaluationRun). owns u db x.project_id) r db.runs h)
        refl (new_links r vs h c)

  saved-Same :
      (r : EvaluationRun) (vs : List Variant) (answer : Scheduled) (now : ℕ)
      → owns u db r.project_id ≡ false
      → Same (save_run v r vs answer now db).1
  unfolding save_run
  saved-Same r vs answer now h = elim (Bool-cases (constraints (add_run r vs db))) [
    | inr q ↦ rw q (same u db)
    | inl q ↦ rw q (of_answer q answer)
  ]
    where
      of_answer :
          constraints (add_run r vs db) ≡ true
          → (answer : Scheduled)
          → Same
              (elim answer as (λ _. Answer EvaluationRun × Database) [
                | scheduled ↦ (ok r, add_run r vs db)
                | refused message ↦
                    commit_or_500
                      (add_run r vs db)
                      (change_run r.id (fail_run v now message) (add_run r vs db))
                      (unavailable, change_run r.id (fail_run v now message) (add_run r vs db))
              ]).1
      of_answer c scheduled = added-Same r vs h c
      of_answer c (refused message) =
          elim (Bool-cases
            (constraints (change_run r.id (fail_run v now message) (add_run r vs db)))) [
              | inl q ↦ rw q (failed-Same r vs now message h c)
              | inr q ↦ rw q (added-Same r vs h c)
            ]

  not_mine : (k : ℕ) (p : Project) → get_owned_project v k db ≡ ok p → owns u db k ≡ false
  unfolding get_owned_project
  not_mine k p e =
      disowned u v ne db pk k
        (owned_any (λ (p : Project). p.id == k) (λ p. p.owner_id == v) db.projects p e)

  pub create_evaluation_run-SameFor :
      (id : ℕ) (payload : EvaluationRunCreate) (answer : Scheduled) (now : ℕ)
      → SameFor u (create_evaluation_run v id payload answer now db).1 db
  unfolding create_evaluation_run
  create_evaluation_run-SameFor id payload answer now =
      if_lem Same (has_repeat payload.variant_ids) _ _ (same u db) (
        found_lem Same (get_owned_project v payload.project_id db) db _ (same u db) λ p e.
          found_lem Same (get_owned_dataset v payload.dataset_id db) db _ (same u db) λ d f.
            found_lem Same (check_run v payload d db) db _ (same u db)
              λ vs g. saved-Same _ vs answer now (not_mine payload.project_id p e))
