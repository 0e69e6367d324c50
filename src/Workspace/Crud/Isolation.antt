-- ===== src/Workspace/Crud/Isolation.antt =====
-- What one user does leaves everything that another user sees as it is.
use llm_evaluation_platform.Common.{
  ℕ, ◌≡◌, refl, ap, inl, inr, Bool-cases, true, false, ◌&&◌, not, arith, ◌==◌, ==_iff, any, all,
}
use llm_evaluation_platform.Workspace.Models.{
  Project, Dataset, DatasetItem, Variant, RunVariantLink, Database,
}
use llm_evaluation_platform.Workspace.Crud.Integrity.{link_in_project}
use llm_evaluation_platform.Workspace.Database.{
  primary_keys, remove_dataset, remove_variant, remove_item,
}
use llm_evaluation_platform.Workspace.Schemas.{nulls_in_named, nulls_in_item, nulls_in_variant}
use llm_evaluation_platform.Workspace.Ownership.{
  ok, get_owned_project, get_owned_dataset, get_owned_dataset_item, get_owned_variant, owns,
  owns_dataset, owns_run,
}
use llm_evaluation_platform.Workspace.Crud.{
  change_project, change_dataset, patch_project, patch_dataset, patch_item, patch_variant,
  check_credential, sent, create_project, update_project, delete_project, create_dataset,
  update_dataset, delete_dataset, create_dataset_item, update_dataset_item, delete_dataset_item,
  create_variant, update_variant, delete_variant, Request, post_project, patch_project_at,
  delete_project_at, post_dataset, patch_dataset_at, delete_dataset_at, post_item, patch_item_at,
  delete_item_at, post_variant, patch_variant_at, delete_variant_at, apply,
}
use llm_evaluation_platform.Workspace.Tables.{
  filter-remove, filter-change, filter-insert, exclusive, all_mono,
}
use llm_evaluation_platform.Workspace.Crud.Outcomes.{found_lem, commit_lem, if_lem, owned_any}
use llm_evaluation_platform.Workspace.Crud.Views.{
  SameFor, same, views, all_by, item_ids, variant_ids,
}
use llm_evaluation_platform.Workspace.Crud.Hidden.{
  hidden_project, disowned, owns_both, unlinked, hidden_dataset, disowned_dataset,
  owns_dataset_both, remove_project_same,
}

module _ (u v : ℕ) (ne : (v == u) ≡ false) (db : Database) (pk : primary_keys db ≡ true) where
  abbrev Same : Database → Type 0
  Same db' = SameFor u db' db

  project_row :
      (k : ℕ) (p : Project)
      → get_owned_project v k db ≡ ok p
      → any (λ (p : Project). p.id == k && p.owner_id == v) db.projects ≡ true
  unfolding get_owned_project
  project_row k p e = owned_any (λ (p : Project). p.id == k) (λ p. p.owner_id == v) db.projects p e

  dataset_row :
      (k : ℕ) (d : Dataset)
      → get_owned_dataset v k db ≡ ok d
      → any (λ (d : Dataset). d.id == k && owns v db d.project_id) db.datasets ≡ true
  unfolding get_owned_dataset
  dataset_row k d e =
      owned_any (λ (d : Dataset). d.id == k) (λ d. owns v db d.project_id) db.datasets d e

  not_mine : (k : ℕ) (p : Project) → get_owned_project v k db ≡ ok p → owns u db k ≡ false
  not_mine k p e = disowned u v ne db pk k (project_row k p e)

  dataset_not_mine :
      (k : ℕ) (d : Dataset) → get_owned_dataset v k db ≡ ok d → owns_dataset u db k ≡ false
  dataset_not_mine k d e =
      disowned_dataset u v ne db pk k (λ d. owns v db d.project_id)
        (λ d. owns_both u v ne db pk d.project_id) (dataset_row k d e)

  projects-Same :
      (k : ℕ) (f : Project → Project)
      → ((p : Project) → (f p).owner_id ≡ p.owner_id)
      → any (λ (p : Project). p.id == k && p.owner_id == v) db.projects ≡ true
      → Same (change_project k f db)
  projects-Same k f keep h =
      views u (change_project k f db) db
        (filter-change (λ (p : Project). p.owner_id == u) (λ p. p.id == k) f
          (λ p. ap (λ o. o == u) (keep p)) db.projects (hidden_project u v ne db pk k h))
        refl refl refl refl refl refl refl

  datasets-Same :
      (k : ℕ) (f : Dataset → Dataset)
      → ((d : Dataset) → (f d).project_id ≡ d.project_id)
      → any (λ (d : Dataset). d.id == k && owns v db d.project_id) db.datasets ≡ true
      → Same (change_dataset k f db)
  datasets-Same k f keep h =
      views u (change_dataset k f db) db refl
        (filter-change (λ (d : Dataset). owns u db d.project_id) (λ d. d.id == k) f
          (λ d. ap (owns u db) (keep d)) db.datasets
          (hidden_dataset u v ne db pk k (λ d. owns v db d.project_id)
            (λ d. owns_both u v ne db pk d.project_id) h))
        refl refl refl refl refl refl

  remove_dataset-Same :
      (k : ℕ) (d : Dataset) → get_owned_dataset v k db ≡ ok d → Same (remove_dataset k db)
  unfolding remove_dataset
  remove_dataset-Same k d e =
      views u (remove_dataset k db) db refl
        (filter-remove (λ (d : Dataset). owns u db d.project_id) (λ d. d.id == k) db.datasets
          (hidden_dataset u v ne db pk k (λ d. owns v db d.project_id)
            (λ d. owns_both u v ne db pk d.project_id) (dataset_row k d e)))
        (filter-remove (λ (i : DatasetItem). owns_dataset u db i.dataset_id)
          (λ i. i.dataset_id == k) db.dataset_items
          (all_by (λ (i : DatasetItem). not (i.dataset_id == k && owns_dataset u db i.dataset_id))
            (λ i. gone i.dataset_id (dataset_not_mine k d e)) db.dataset_items))
        refl refl refl refl refl
    where
      gone : (j : ℕ) → owns_dataset u db k ≡ false → not (j == k && owns_dataset u db j) ≡ true
      gone j hid = ground (arith, ==_iff j k)

  item_row :
      (k : ℕ) (i : DatasetItem)
      → get_owned_dataset_item v k db ≡ ok i
      → all
          (λ (i : DatasetItem). not (i.id == k && owns_dataset u db i.dataset_id))
          db.dataset_items
        ≡ true
  unfolding get_owned_dataset_item
  item_row k i e =
      exclusive (λ (i : DatasetItem). i.id) k (λ i. owns_dataset v db i.dataset_id)
        (λ i. owns_dataset u db i.dataset_id) (λ i. owns_dataset_both u v ne db pk i.dataset_id)
        db.dataset_items (item_ids db pk)
        (owned_any (λ (i : DatasetItem). i.id == k) (λ i. owns_dataset v db i.dataset_id)
          db.dataset_items i e)

  variant_row :
      (k : ℕ) (w : Variant)
      → get_owned_variant v k db ≡ ok w
      → all (λ (w : Variant). not (w.id == k && owns u db w.project_id)) db.variants ≡ true
  unfolding get_owned_variant
  variant_row k w e =
      exclusive (λ (w : Variant). w.id) k (λ w. owns v db w.project_id)
        (λ w. owns u db w.project_id) (λ w. owns_both u v ne db pk w.project_id) db.variants
        (variant_ids db pk)
        (owned_any (λ (w : Variant). w.id == k) (λ w. owns v db w.project_id) db.variants w e)

  -- A run of a user is not linked to a variant that another user may delete.
  gone_link :
      (k : ℕ) (w : Variant)
      → get_owned_variant v k db ≡ ok w
      → (l : RunVariantLink) → link_in_project db l ≡ true
      → not (l.variant_id == k && owns_run u db l.run_id) ≡ true
  unfolding get_owned_variant
  gone_link k w e l g = elim (Bool-cases (l.variant_id == k)) [
    | inr q ↦ ground (arith, q)
    | inl q ↦
        let h : any (λ (w : Variant). w.id == l.variant_id && owns v db w.project_id) db.variants
            ≡ true =
          rw ((==_iff l.variant_id k).0 q) (
            owned_any (λ (w : Variant). w.id == k) (λ w. owns v db w.project_id) db.variants w e) in
        ground (arith, unlinked u v ne db pk (owns v db) (owns_both u v ne db pk) l g h)
  ]

  -- Nothing that another user's request does to projects, datasets, items and variants shows to a user:
  -- each of the user's tables is the same before and after, where primary keys are unique and runs are
  -- linked to variants of their own projects.
  pub apply-SameFor :
      (q : Request) → all (link_in_project db) db.run_variants ≡ true → SameFor u (apply v q db) db
  unfolding apply create_project update_project delete_project create_dataset update_dataset
      delete_dataset create_dataset_item update_dataset_item delete_dataset_item create_variant
      update_variant delete_variant patch_project patch_dataset patch_item patch_variant remove_item
      remove_variant
  apply-SameFor (post_project id payload) s = commit_lem Same db _ _ (same u db) λ _.
      views u _ db (filter-insert (λ (p : Project). p.owner_id == u) _ db.projects ne) refl refl
        refl refl refl refl refl
  apply-SameFor (patch_project_at k payload) s =
      if_lem Same (nulls_in_named payload) _ _ (same u db) (
        found_lem Same (get_owned_project v k db) db _ (same u db) λ p e.
          commit_lem Same db _ _ (same u db)
            λ _. projects-Same k (patch_project payload) (λ p. refl) (project_row k p e))
  apply-SameFor (delete_project_at k) s =
      found_lem Same (get_owned_project v k db) db _ (same u db) λ p e.
        commit_lem Same db _ _ (same u db)
          λ _. remove_project_same u v ne db pk k s (project_row k p e)
  apply-SameFor (post_dataset id project_id payload) s =
      found_lem Same (get_owned_project v project_id db) db _ (same u db) λ p e.
        commit_lem Same db _ _ (same u db) λ _.
          views u _ db refl
            (filter-insert (λ (d : Dataset). owns u db d.project_id) _ db.datasets
              (not_mine project_id p e))
            refl refl refl refl refl refl
  apply-SameFor (patch_dataset_at k payload) s =
      if_lem Same (nulls_in_named payload) _ _ (same u db) (
        found_lem Same (get_owned_dataset v k db) db _ (same u db) λ d e.
          commit_lem Same db _ _ (same u db)
            λ _. datasets-Same k (patch_dataset payload) (λ d. refl) (dataset_row k d e))
  apply-SameFor (delete_dataset_at k) s =
      found_lem Same (get_owned_dataset v k db) db _ (same u db)
        λ d e. commit_lem Same db _ _ (same u db) λ _. remove_dataset-Same k d e
  apply-SameFor (post_item id dataset_id payload) s =
      found_lem Same (get_owned_dataset v dataset_id db) db _ (same u db) λ d e.
        commit_lem Same db _ _ (same u db) λ _.
          views u _ db refl refl
            (filter-insert (λ (i : DatasetItem). owns_dataset u db i.dataset_id) _ db.dataset_items
              (dataset_not_mine dataset_id d e))
            refl refl refl refl refl
  apply-SameFor (patch_item_at k payload) s = if_lem Same (nulls_in_item payload) _ _ (same u db) (
      found_lem Same (get_owned_dataset_item v k db) db _ (same u db) λ i e.
        commit_lem Same db _ _ (same u db) λ _.
          views u _ db refl refl
            (filter-change (λ (i : DatasetItem). owns_dataset u db i.dataset_id) (λ i. i.id == k)
              (patch_item payload) (λ i. refl) db.dataset_items (item_row k i e))
            refl refl refl refl refl)
  apply-SameFor (delete_item_at k) s =
      found_lem Same (get_owned_dataset_item v k db) db _ (same u db) λ i e.
        commit_lem Same db _ _ (same u db) λ _.
          views u _ db refl refl
            (filter-remove (λ (i : DatasetItem). owns_dataset u db i.dataset_id) (λ i. i.id == k)
              db.dataset_items (item_row k i e))
            refl refl refl refl refl
  apply-SameFor (post_variant id project_id payload) s =
      found_lem Same (get_owned_project v project_id db) db _ (same u db) λ p e.
        found_lem Same (check_credential v payload.credential_id db) db _ (same u db) λ c _.
          commit_lem Same db _ _ (same u db) λ _.
            views u _ db refl refl refl
              (filter-insert (λ (w : Variant). owns u db w.project_id) _ db.variants
                (not_mine project_id p e))
              refl refl refl refl
  apply-SameFor (patch_variant_at k payload) s =
      if_lem Same (nulls_in_variant payload) _ _ (same u db) (
        found_lem Same (get_owned_variant v k db) db _ (same u db) λ w e.
          found_lem Same (check_credential v (sent payload.credential_id) db) db _ (same u db)
            λ c _. commit_lem Same db _ _ (same u db) λ _.
              views u _ db refl refl refl
                (filter-change (λ (w : Variant). owns u db w.project_id) (λ w. w.id == k)
                  (patch_variant payload) (λ w. refl) db.variants (variant_row k w e))
                refl refl refl refl)
  apply-SameFor (delete_variant_at k) s =
      found_lem Same (get_owned_variant v k db) db _ (same u db) λ w e.
        commit_lem Same db _ _ (same u db) λ _.
          views u _ db refl refl refl
            (filter-remove (λ (w : Variant). owns u db w.project_id) (λ w. w.id == k) db.variants
              (variant_row k w e))
            refl refl refl
            (filter-remove (λ (l : RunVariantLink). owns_run u db l.run_id) (λ l. l.variant_id == k)
              db.run_variants
              (all_mono (link_in_project db)
                (λ (l : RunVariantLink). not (l.variant_id == k && owns_run u db l.run_id))
                (λ l g. gone_link k w e l g) db.run_variants s))
