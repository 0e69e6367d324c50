-- ===== src/Workspace/Crud/Preserved.antt =====
-- Every request leaves a consistent database consistent.
use llm_evaluation_platform.Common.{
  ℕ, ◌≡◌, refl, ◌∙◌, true, false, ◌&&◌, List, [], ◌∷◌, arith, ◌==◌, ==_iff, any,
}
use llm_evaluation_platform.Runs.Models.{EvaluationRun}
use llm_evaluation_platform.Workspace.Models.{Project, Dataset, DatasetItem, Variant, Database}
use llm_evaluation_platform.Workspace.Tables.{remove, has_key}
use llm_evaluation_platform.Workspace.Database.{
  constraints, foreign_keys, remove_dataset, remove_item, dataset_in,
}
use llm_evaluation_platform.Workspace.Schemas.{
  VariantUpdate, nulls_in_named, nulls_in_item, nulls_in_variant,
}
use llm_evaluation_platform.Workspace.Ownership.{
  ok, get_owned_project, get_owned_dataset, get_owned_dataset_item, get_owned_variant,
}
use llm_evaluation_platform.Workspace.Crud.{
  add_dataset, change_dataset, patch_project, patch_dataset, patch_item, patch_variant,
  check_credential, sent, create_project, update_project, delete_project, create_dataset,
  update_dataset, delete_dataset, create_dataset_item, update_dataset_item, delete_dataset_item,
  create_variant, update_variant, delete_variant, Request, post_project, patch_project_at,
  delete_project_at, post_dataset, patch_dataset_at, delete_dataset_at, post_item, patch_item_at,
  delete_item_at, post_variant, patch_variant_at, delete_variant_at, apply,
}
use llm_evaluation_platform.Workspace.Tables.{all_mono, all_and, any-append, any-change, any-remove}
use llm_evaluation_platform.Workspace.Crud.Outcomes.{found_lem, commit_lem, if_lem, owned_any}
use llm_evaluation_platform.Workspace.Crud.Integrity.{
  IsConsistent, project_owned, add_project-IsConsistent, change_project-IsConsistent,
  remove_project-IsConsistent,
}
use llm_evaluation_platform.Workspace.Crud.Variants.{
  add_variant-IsConsistent, change_variant-IsConsistent, remove_variant-IsConsistent,
  checked_credential, patched_variants,
}

module _ (user : ℕ) (db : Database) (s : IsConsistent db) where
  items-IsConsistent :
      (is : List DatasetItem)
      → constraints (record db { dataset_items = is }) ≡ true
      → IsConsistent (record db { dataset_items = is })
  items-IsConsistent is c = record {
    constrained = c;
    credentials_owned = s.credentials_owned;
    datasets_in_project = s.datasets_in_project;
    variants_in_project = s.variants_in_project;
  }

  add_dataset-IsConsistent :
      (d : Dataset) → constraints (add_dataset d db) ≡ true → IsConsistent (add_dataset d db)
  add_dataset-IsConsistent d c = record {
    constrained = c;
    credentials_owned = s.credentials_owned;
    datasets_in_project =
        all_mono (λ (r : EvaluationRun). dataset_in db r.project_id r.dataset_id)
          (λ r. dataset_in (add_dataset d db) r.project_id r.dataset_id)
          (λ r h. ground (
            arith,
            h,
            any-append (λ (x : Dataset). x.id == r.dataset_id && x.project_id == r.project_id)
                db.datasets (d ∷ []),
          ))
          db.runs s.datasets_in_project;
    variants_in_project = s.variants_in_project;
  }

  change_dataset-IsConsistent :
      (k : ℕ) (f : Dataset → Dataset)
      → ((d : Dataset) → (f d).id ≡ d.id)
      → ((d : Dataset) → (f d).project_id ≡ d.project_id)
      → constraints (change_dataset k f db) ≡ true
      → IsConsistent (change_dataset k f db)
  change_dataset-IsConsistent k f e p c = record {
    constrained = c;
    credentials_owned = s.credentials_owned;
    datasets_in_project =
        all_mono (λ (r : EvaluationRun). dataset_in db r.project_id r.dataset_id)
          (λ r. dataset_in (change_dataset k f db) r.project_id r.dataset_id)
          (λ r h.
            any-change (λ (x : Dataset). x.id == r.dataset_id && x.project_id == r.project_id)
              (λ x. x.id == k) f (λ x. ground (arith, e x, p x)) db.datasets
            ∙ h)
          db.runs s.datasets_in_project;
    variants_in_project = s.variants_in_project;
  }

  -- The foreign keys after the removal say that no run uses the dataset.
  runs_elsewhere :
      (k : ℕ) (ds : List Dataset)
      → any (λ (d : Dataset). d.id == k) (remove (λ (d : Dataset). d.id == k) ds) ≡ false
  runs_elsewhere k [] = refl
  runs_elsewhere k (d ∷ ds) = ground (arith, runs_elsewhere k ds)

  remove_dataset-IsConsistent :
      (k : ℕ) → constraints (remove_dataset k db) ≡ true → IsConsistent (remove_dataset k db)
  unfolding remove_dataset constraints foreign_keys
  remove_dataset-IsConsistent k c = record {
    constrained = c;
    credentials_owned = s.credentials_owned;
    datasets_in_project =
        all_mono
          (λ (r : EvaluationRun).
            dataset_in db r.project_id r.dataset_id
            && (has_key (λ (p : Project). p.id) r.project_id db.projects
                && has_key (λ (d : Dataset). d.id) r.dataset_id
                    (remove (λ (d : Dataset). d.id == k) db.datasets)))
          (λ r. dataset_in (remove_dataset k db) r.project_id r.dataset_id)
          (λ r h.
            any-remove (λ (x : Dataset). x.id == r.dataset_id && x.project_id == r.project_id)
              (λ x. x.id == k) (λ x g. used r.dataset_id x (ground arith) (ground arith))
              db.datasets (ground arith))
          db.runs
          (all_and (λ (r : EvaluationRun). dataset_in db r.project_id r.dataset_id)
            (λ r.
              has_key (λ (p : Project). p.id) r.project_id db.projects
              && has_key (λ (d : Dataset). d.id) r.dataset_id
                  (remove (λ (d : Dataset). d.id == k) db.datasets))
            db.runs s.datasets_in_project (ground (arith, c)));
    variants_in_project = s.variants_in_project;
  }
    where
      used :
          (j : ℕ) (x : Dataset)
          → has_key (λ (d : Dataset). d.id) j (remove (λ (d : Dataset). d.id == k) db.datasets)
            ≡ true
          → (x.id == j) ≡ true
          → (x.id == k) ≡ false
      used j x h g = ground (arith, runs_elsewhere k db.datasets, ==_iff x.id j, ==_iff x.id k)

  project_row :
      (k : ℕ) (p : Project) → get_owned_project user k db ≡ ok p → project_owned db k user ≡ true
  unfolding get_owned_project
  project_row k p e =
      owned_any (λ (p : Project). p.id == k) (λ p. p.owner_id == user) db.projects p e

  patched_id : (u : VariantUpdate) (w : Variant) → (patch_variant u w).id ≡ w.id
  unfolding patch_variant
  patched_id u w = refl

  patched_project :
      (u : VariantUpdate) (w : Variant) → (patch_variant u w).project_id ≡ w.project_id
  unfolding patch_variant
  patched_project u w = refl

  -- Requests on projects, datasets, items and variants, of any user, keep the database consistent: its
  -- constraints hold, each variant's credential belongs to the owner of the variant's project, and the
  -- dataset and the variants of a run are of the run's project.
  pub apply-IsConsistent : (q : Request) → IsConsistent (apply user q db)
  unfolding apply create_project update_project delete_project create_dataset update_dataset
      delete_dataset create_dataset_item update_dataset_item delete_dataset_item create_variant
      update_variant delete_variant patch_project patch_dataset patch_item remove_item
  apply-IsConsistent (post_project id payload) =
      commit_lem IsConsistent db _ _ s λ c. add_project-IsConsistent db s _ c
  apply-IsConsistent (patch_project_at k payload) =
      if_lem IsConsistent (nulls_in_named payload) _ _ s (
        found_lem IsConsistent (get_owned_project user k db) db _ s λ p e.
          commit_lem IsConsistent db _ _ s λ c.
            change_project-IsConsistent db s k (patch_project payload) (λ p. refl) (λ p. refl) c)
  apply-IsConsistent (delete_project_at k) =
      found_lem IsConsistent (get_owned_project user k db) db _ s
        λ p e. commit_lem IsConsistent db _ _ s λ c. remove_project-IsConsistent db s k c
  apply-IsConsistent (post_dataset id project_id payload) =
      found_lem IsConsistent (get_owned_project user project_id db) db _ s
        λ p e. commit_lem IsConsistent db _ _ s λ c. add_dataset-IsConsistent _ c
  apply-IsConsistent (patch_dataset_at k payload) =
      if_lem IsConsistent (nulls_in_named payload) _ _ s (
        found_lem IsConsistent (get_owned_dataset user k db) db _ s λ d e.
          commit_lem IsConsistent db _ _ s
            λ c. change_dataset-IsConsistent k (patch_dataset payload) (λ d. refl) (λ d. refl) c)
  apply-IsConsistent (delete_dataset_at k) =
      found_lem IsConsistent (get_owned_dataset user k db) db _ s
        λ d e. commit_lem IsConsistent db _ _ s λ c. remove_dataset-IsConsistent k c
  apply-IsConsistent (post_item id dataset_id payload) =
      found_lem IsConsistent (get_owned_dataset user dataset_id db) db _ s
        λ d e. commit_lem IsConsistent db _ _ s λ c. items-IsConsistent _ c
  apply-IsConsistent (patch_item_at k payload) = if_lem IsConsistent (nulls_in_item payload) _ _ s (
      found_lem IsConsistent (get_owned_dataset_item user k db) db _ s
        λ i e. commit_lem IsConsistent db _ _ s λ c. items-IsConsistent _ c)
  apply-IsConsistent (delete_item_at k) =
      found_lem IsConsistent (get_owned_dataset_item user k db) db _ s
        λ i e. commit_lem IsConsistent db _ _ s λ c. items-IsConsistent _ c
  apply-IsConsistent (post_variant id project_id payload) =
      found_lem IsConsistent (get_owned_project user project_id db) db _ s λ p e.
        found_lem IsConsistent (check_credential user payload.credential_id db) db _ s λ x g.
          commit_lem IsConsistent db _ _ s λ c.
            add_variant-IsConsistent user db s _
              (checked_credential user db s project_id payload.credential_id x
                (project_row project_id p e) g)
              c
  apply-IsConsistent (patch_variant_at k payload) =
      if_lem IsConsistent (nulls_in_variant payload) _ _ s (
        found_lem IsConsistent (get_owned_variant user k db) db _ s λ w e.
          found_lem IsConsistent (check_credential user (sent payload.credential_id) db) db _ s
            λ x g. commit_lem IsConsistent db _ _ s λ c.
              change_variant-IsConsistent user db s k (patch_variant payload) (patched_id payload)
                (patched_project payload) (patched_variants user db s k w payload x e g) c)
  apply-IsConsistent (delete_variant_at k) =
      found_lem IsConsistent (get_owned_variant user k db) db _ s
        λ w e. commit_lem IsConsistent db _ _ s λ c. remove_variant-IsConsistent user db s k c
