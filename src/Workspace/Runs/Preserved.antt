-- ===== src/Workspace/Runs/Preserved.antt =====
-- The creation of a run leaves a consistent database consistent.
use llm_evaluation_platform.Common.{
  ℕ, String, ◌≡◌, refl, ◌∙◌, inl, inr, true, ◌&&◌, List, [], ◌∷◌, ◌++◌, arith, ◌==◌, Bool-cases,
  ==_iff, any, all,
}
use llm_evaluation_platform.Runs.Models.{EvaluationRun}
use llm_evaluation_platform.Workspace.Models.{Variant, RunVariantLink, Database}
use llm_evaluation_platform.Workspace.Database.{constraints, dataset_in, variant_in}
use llm_evaluation_platform.Workspace.Ownership.{
  Answer, ok, unavailable, get_owned_project, get_owned_dataset,
}
use llm_evaluation_platform.Workspace.Schemas.{EvaluationRunCreate, has_repeat}
use llm_evaluation_platform.Workspace.Tables.{
  all_mono, all-append, any-append, any-change, all-change,
}
use llm_evaluation_platform.Workspace.Crud.Outcomes.{found_lem, if_lem}
use llm_evaluation_platform.Workspace.Crud.Integrity.{IsConsistent, link_in_project}
use llm_evaluation_platform.Workspace.Runs.{
  Scheduled, scheduled, refused, link_all, add_run, change_run, commit_or_500, fail_run, save_run,
  check_run, create_evaluation_run,
}
use llm_evaluation_platform.Workspace.Runs.Accepted.{checked_variants, own_dataset}

module _ (user : ℕ) (db : Database) (s : IsConsistent db) where
  -- Links to a run that is in the table, with variants of its project.
  links_in_project :
      (r : EvaluationRun) (vs : List Variant)
      → all (λ (v : Variant). variant_in db r.project_id v.id) vs ≡ true
      → all (link_in_project (add_run r vs db)) (link_all r.id vs) ≡ true
  unfolding add_run
  links_in_project r vs h = go vs h
    where
      one :
          (v : Variant)
          → variant_in db r.project_id v.id ≡ true
          → any
              (λ (x : EvaluationRun). x.id == r.id && variant_in db x.project_id v.id)
              (db.runs ++ r ∷ [])
            ≡ true
      one v g = ground (
        arith,
        g,
        ==_iff r.id r.id,
        any-append (λ (x : EvaluationRun). x.id == r.id && variant_in db x.project_id v.id) db.runs
            (r ∷ []),
      )

      go :
          (ws : List Variant)
          → all (λ (v : Variant). variant_in db r.project_id v.id) ws ≡ true
          → all
              (λ (m : RunVariantLink).
                any
                  (λ (x : EvaluationRun).
                    x.id == m.run_id && variant_in db x.project_id m.variant_id)
                  (db.runs ++ r ∷ []))
              (link_all r.id ws)
            ≡ true
      go [] g = refl
      go (w ∷ ws) g = ground (arith, one w (ground arith), go ws)

  add_run-IsConsistent :
      (r : EvaluationRun) (vs : List Variant)
      → dataset_in db r.project_id r.dataset_id ≡ true
      → all (λ (v : Variant). variant_in db r.project_id v.id) vs ≡ true
      → constraints (add_run r vs db) ≡ true
      → IsConsistent (add_run r vs db)
  unfolding add_run
  add_run-IsConsistent r vs d v c = record {
    constrained = c;
    credentials_owned = s.credentials_owned;
    datasets_in_project = ground (
      arith,
      d,
      s.datasets_in_project,
      all-append (λ (x : EvaluationRun). dataset_in db x.project_id x.dataset_id) db.runs (r ∷ []),
    );
    variants_in_project =
        all-append (link_in_project (add_run r vs db)) db.run_variants (link_all r.id vs)
        ∙ ground (
          arith,
          links_in_project r vs v,
          all_mono (link_in_project db) (link_in_project (add_run r vs db))
              (λ m g. ground (
                arith,
                g,
                any-append
                    (λ (x : EvaluationRun).
                      x.id == m.run_id && variant_in db x.project_id m.variant_id)
                    db.runs (r ∷ []),
              ))
              db.run_variants s.variants_in_project,
        );
  }

fail-IsConsistent :
    (k now : ℕ) (message : String) (user : ℕ) (db : Database)
    → IsConsistent db
    → constraints (change_run k (fail_run user now message) db) ≡ true
    → IsConsistent (change_run k (fail_run user now message) db)
fail-IsConsistent k now message user db s c = record {
  constrained = c;
  credentials_owned = s.credentials_owned;
  datasets_in_project =
      all-change (λ (r : EvaluationRun). dataset_in db r.project_id r.dataset_id) (λ r. r.id == k)
        (fail_run user now message) (λ r h. h) db.runs s.datasets_in_project;
  variants_in_project =
      all_mono (link_in_project db) (link_in_project (change_run k (fail_run user now message) db))
        (λ m g.
          any-change
            (λ (x : EvaluationRun). x.id == m.run_id && variant_in db x.project_id m.variant_id)
            (λ x. x.id == k) (fail_run user now message) (λ x. refl) db.runs
          ∙ g)
        db.run_variants s.variants_in_project;
}

module _ (user : ℕ) (db : Database) (s : IsConsistent db) where
  save_run-IsConsistent :
      (r : EvaluationRun) (vs : List Variant) (answer : Scheduled) (now : ℕ)
      → dataset_in db r.project_id r.dataset_id ≡ true
      → all (λ (v : Variant). variant_in db r.project_id v.id) vs ≡ true
      → IsConsistent (save_run user r vs answer now db).1
  unfolding save_run
  save_run-IsConsistent r vs answer now d v = elim (Bool-cases (constraints (add_run r vs db))) [
    | inr q ↦ rw q s
    | inl q ↦ rw q (of_answer (add_run-IsConsistent user db s r vs d v q) answer)
  ]
    where
      of_answer :
          IsConsistent (add_run r vs db)
          → (answer : Scheduled)
          → IsConsistent
              (elim answer as (λ _. Answer EvaluationRun × Database) [
                | scheduled ↦ (ok r, add_run r vs db)
                | refused message ↦
                    commit_or_500
                      (add_run r vs db)
                      (change_run r.id (fail_run user now message) (add_run r vs db))
                      (unavailable, change_run r.id (fail_run user now message) (add_run r vs db))
              ]).1
      of_answer t scheduled = t
      of_answer t (refused message) =
          elim (Bool-cases
            (constraints (change_run r.id (fail_run user now message) (add_run r vs db)))) [
              | inl q ↦ rw q (fail-IsConsistent r.id now message user (add_run r vs db) t q)
              | inr q ↦ rw q t
            ]

  pub create_evaluation_run-IsConsistent :
      (id : ℕ) (payload : EvaluationRunCreate) (answer : Scheduled) (now : ℕ)
      → IsConsistent (create_evaluation_run user id payload answer now db).1
  unfolding create_evaluation_run
  create_evaluation_run-IsConsistent id payload answer now =
      if_lem IsConsistent (has_repeat payload.variant_ids) _ _ s (
        found_lem IsConsistent (get_owned_project user payload.project_id db) db _ s λ p e.
          found_lem IsConsistent (get_owned_dataset user payload.dataset_id db) db _ s λ d f.
            found_lem IsConsistent (check_run user payload d db) db _ s λ vs g.
              let (same, variants) = checked_variants user payload d db vs g in
              save_run-IsConsistent _ vs answer now (own_dataset user payload d db f same) variants)
