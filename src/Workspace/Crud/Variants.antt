-- ===== src/Workspace/Crud/Variants.antt =====
-- A variant's credential stays one of its project's owner through the requests on variants.
use llm_evaluation_platform.Common.{
  ℕ, ◌≡◌, refl, ◌∙◌, inl, inr, true, false, ◌&&◌, ◌||◌, not, Option, none, some, [], ◌∷◌, arith,
  ◌==◌, Bool-cases, ==_iff, any, all,
}
use llm_evaluation_platform.Runs.Models.{EvaluationRun}
use llm_evaluation_platform.Workspace.Models.{
  Project, Variant, ProviderCredential, RunVariantLink, Database,
}
use llm_evaluation_platform.Workspace.Tables.{remove}
use llm_evaluation_platform.Workspace.Database.{
  constraints, primary_keys, remove_variant, variant_in,
}
use llm_evaluation_platform.Workspace.Schemas.{
  Field, unset, null, value, set_optional, VariantUpdate,
}
use llm_evaluation_platform.Workspace.Ownership.{ok, get_owned_variant, owns}
use llm_evaluation_platform.Workspace.Crud.{
  add_variant, change_variant, patch_variant, check_credential, sent,
}
use llm_evaluation_platform.Workspace.Tables.{
  all_mono, any_mono, all_kept, all_and, all-append, any-append, all-change_each, any-change,
  any-remove, exclusive, any-filter, all-filter,
}
use llm_evaluation_platform.Workspace.Crud.Outcomes.{owned_any, credential_found}
use llm_evaluation_platform.Workspace.Crud.Integrity.{
  IsConsistent, project_owned, credential_owned, link_in_project,
}

links_mono :
    (db db' : Database)
    → db'.runs ≡ db.runs
    → ((j k : ℕ) → variant_in db j k ≡ true → variant_in db' j k ≡ true)
    → (l : RunVariantLink) → link_in_project db l ≡ true
    → link_in_project db' l ≡ true
links_mono db db' e f l h = rw e (
    any_mono (λ (r : EvaluationRun). r.id == l.run_id && variant_in db r.project_id l.variant_id)
      (λ r. r.id == l.run_id && variant_in db' r.project_id l.variant_id)
      (λ r g. ground (arith, f r.project_id l.variant_id)) db.runs h)

module _ (user : ℕ) (db : Database) (s : IsConsistent db) where
  -- A credential that was looked up for the user is good for a project of the user.
  pub checked_credential :
      (project_id : ℕ) (o : Option ℕ) (c : Unit {0})
      → project_owned db project_id user ≡ true
      → check_credential user o db ≡ ok c
      → credential_owned db project_id o ≡ true
  checked_credential project_id none c h e = refl
  checked_credential project_id (some k) c h e =
      any_mono (λ (x : ProviderCredential). x.id == k && x.user_id == user)
        (λ x. x.id == k && project_owned db project_id x.user_id)
        (λ x g. ground (arith, ==_iff x.user_id user)) db.credentials
        (credential_found user k db c e)

  pub add_variant-IsConsistent :
      (v : Variant)
      → credential_owned db v.project_id v.credential_id ≡ true
      → constraints (add_variant v db) ≡ true
      → IsConsistent (add_variant v db)
  add_variant-IsConsistent v h c = record {
    constrained = c;
    credentials_owned = ground (
      arith,
      h,
      s.credentials_owned,
      all-append (λ (w : Variant). credential_owned db w.project_id w.credential_id) db.variants
          (v ∷ []),
    );
    datasets_in_project = s.datasets_in_project;
    variants_in_project =
        all_mono (link_in_project db) (link_in_project (add_variant v db))
          (links_mono db (add_variant v db) refl (λ j k g. ground (
            arith,
            g,
            any-append (λ (w : Variant). w.id == k && w.project_id == j) db.variants (v ∷ []),
          )))
          db.run_variants s.variants_in_project;
  }

  pub change_variant-IsConsistent :
      (k : ℕ) (f : Variant → Variant)
      → ((w : Variant) → (f w).id ≡ w.id)
      → ((w : Variant) → (f w).project_id ≡ w.project_id)
      → all
          (λ (w : Variant).
            not (w.id == k) || credential_owned db (f w).project_id (f w).credential_id)
          db.variants
        ≡ true
      → constraints (change_variant k f db) ≡ true
      → IsConsistent (change_variant k f db)
  change_variant-IsConsistent k f e p h c = record {
    constrained = c;
    credentials_owned =
        all-change_each (λ (w : Variant). credential_owned db w.project_id w.credential_id)
          (λ w. w.id == k) f db.variants s.credentials_owned h;
    datasets_in_project = s.datasets_in_project;
    variants_in_project =
        all_mono (link_in_project db) (link_in_project (change_variant k f db))
          (links_mono db (change_variant k f db) refl (λ i j g.
            any-change (λ (w : Variant). w.id == j && w.project_id == i) (λ w. w.id == k) f
              (λ w. ground (arith, e w, p w)) db.variants
            ∙ g))
          db.run_variants s.variants_in_project;
  }

  pub remove_variant-IsConsistent :
      (k : ℕ) → constraints (remove_variant k db) ≡ true → IsConsistent (remove_variant k db)
  unfolding remove_variant
  remove_variant-IsConsistent k c = record {
    constrained = c;
    credentials_owned =
        all-filter (λ (w : Variant). credential_owned db w.project_id w.credential_id)
          (λ w. not (w.id == k)) db.variants s.credentials_owned;
    datasets_in_project = s.datasets_in_project;
    variants_in_project =
        all_mono (λ (l : RunVariantLink). link_in_project db l && not (l.variant_id == k))
          (link_in_project (remove_variant k db))
          (λ l h.
            any_mono
              (λ (r : EvaluationRun). r.id == l.run_id && variant_in db r.project_id l.variant_id)
              (λ r. r.id == l.run_id && variant_in (remove_variant k db) r.project_id l.variant_id)
              (λ r g. ground (arith, h, g, variant_left r.project_id l.variant_id k)) db.runs
              (ground arith))
          (remove_variant k db).run_variants
          (all_kept (link_in_project db) (λ l. not (l.variant_id == k)) db.run_variants
            s.variants_in_project);
  }
    where
      variant_left :
          (j i k : ℕ)
          → (i == k) ≡ false
          → variant_in db j i ≡ true
          → any
              (λ (w : Variant). w.id == i && w.project_id == j)
              (remove (λ (w : Variant). w.id == k) db.variants)
            ≡ true
      variant_left j i k n h =
          any-remove (λ (w : Variant). w.id == i && w.project_id == j) (λ w. w.id == k)
            (λ w g. ground (arith, ==_iff w.id i)) db.variants h

  -- Every variant with the id that was looked up belongs to the user.
  owned_variants :
      (k : ℕ) (w : Variant)
      → get_owned_variant user k db ≡ ok w
      → all
          (λ (x : Variant). not (x.id == k && not (project_owned db x.project_id user)))
          db.variants
        ≡ true
  unfolding get_owned_variant constraints primary_keys
  owned_variants k w e =
      exclusive (λ (x : Variant). x.id) k (λ x. project_owned db x.project_id user)
        (λ x. not (project_owned db x.project_id user)) (λ x. ground arith) db.variants
        (ground (arith, s.constrained))
        (any_mono (λ (x : Variant). x.id == k && owns user db x.project_id)
          (λ x. x.id == k && project_owned db x.project_id user)
          (λ x g. ground (
            arith,
            g,
            any-filter (λ (p : Project). p.id == x.project_id) (λ p. p.owner_id == user)
                db.projects,
          ))
          db.variants
          (owned_any (λ (x : Variant). x.id == k) (λ x. owns user db x.project_id) db.variants w e))

  pub patched_variants :
      (k : ℕ) (w : Variant) (u : VariantUpdate) (c : Unit {0})
      → get_owned_variant user k db ≡ ok w
      → check_credential user (sent u.credential_id) db ≡ ok c
      → all
          (λ (x : Variant).
            not (x.id == k)
            || credential_owned db (patch_variant u x).project_id (patch_variant u x).credential_id)
          db.variants
        ≡ true
  unfolding patch_variant
  patched_variants k w u c e g =
      all_mono
        (λ (x : Variant).
          credential_owned db x.project_id x.credential_id
          && not (x.id == k && not (project_owned db x.project_id user)))
        (λ x.
          not (x.id == k)
          || credential_owned db x.project_id (set_optional u.credential_id x.credential_id))
        (λ x h. patched x u.credential_id g (ground arith) (ground arith)) db.variants
        (all_and (λ (x : Variant). credential_owned db x.project_id x.credential_id)
          (λ x. not (x.id == k && not (project_owned db x.project_id user))) db.variants
          s.credentials_owned (owned_variants k w e))
    where
      patched :
          (x : Variant) (o : Field ℕ)
          → check_credential user (sent o) db ≡ ok c
          → credential_owned db x.project_id x.credential_id ≡ true
          → not (x.id == k && not (project_owned db x.project_id user)) ≡ true
          → (not (x.id == k) || credential_owned db x.project_id (set_optional o x.credential_id))
            ≡ true
      patched x unset g h n = ground arith
      patched x null g h n = ground arith
      patched x (value j) g h n = elim (Bool-cases (x.id == k)) [
        | inl q ↦
            ground (arith, q, checked_credential x.project_id (some j) c (ground (arith, q, n)) g)
        | inr q ↦ ground arith
      ]
