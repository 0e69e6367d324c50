-- ===== src/Workspace/Crud/Integrity.antt =====
-- What the application keeps beyond the database's constraints: a variant uses a credential of its
-- project's owner, a run's dataset and variants are of the run's project.
use llm_evaluation_platform.Common.{
  ℕ, ◌≡◌, refl, ◌∙◌, Bool, true, false, ◌&&◌, ◌||◌, not, Option, none, some, List, [], ◌∷◌, arith,
  ◌==◌, ==_iff, any, all,
}
use llm_evaluation_platform.Runs.Models.{EvaluationRun}
use llm_evaluation_platform.Workspace.Models.{
  Project, Dataset, Variant, ProviderCredential, RunVariantLink, Database,
}
use llm_evaluation_platform.Workspace.Tables.{remove}
use llm_evaluation_platform.Workspace.Database.{
  constraints, remove_project, dataset_in, variant_in, run_in,
}
use llm_evaluation_platform.Workspace.Crud.{add_project, change_project}
use llm_evaluation_platform.Workspace.Tables.{
  all_mono, any_mono, all_kept, any-append, any-change, any-remove,
}

-- The project belongs to the user.
abbrev pub project_owned : Database → ℕ → ℕ → Bool
project_owned db k user = any (λ (p : Project). p.id == k && p.owner_id == user) db.projects

abbrev pub credential_owned : Database → ℕ → Option ℕ → Bool
credential_owned db project_id none = true
credential_owned db project_id (some c) =
    any (λ (k : ProviderCredential). k.id == c && project_owned db project_id k.user_id)
      db.credentials

abbrev pub link_in_project : Database → RunVariantLink → Bool
link_in_project db l =
    any (λ (r : EvaluationRun). r.id == l.run_id && variant_in db r.project_id l.variant_id) db.runs

pub record IsConsistent (db : Database) : Type 0 where
  pub constrained : constraints db ≡ true
  pub credentials_owned :
      all (λ (v : Variant). credential_owned db v.project_id v.credential_id) db.variants ≡ true
  pub datasets_in_project :
      all (λ (r : EvaluationRun). dataset_in db r.project_id r.dataset_id) db.runs ≡ true
  pub variants_in_project : all (link_in_project db) db.run_variants ≡ true

pub credential_owned_mono :
    (db db' : Database) (k : ℕ) (o : Option ℕ)
    → ((user : ℕ) → project_owned db k user ≡ true → project_owned db' k user ≡ true)
    → db'.credentials ≡ db.credentials
    → credential_owned db k o ≡ true
    → credential_owned db' k o ≡ true
credential_owned_mono db db' k none f e h = refl
credential_owned_mono db db' k (some c) f e h = rw e (
    any_mono (λ (x : ProviderCredential). x.id == c && project_owned db k x.user_id)
      (λ x. x.id == c && project_owned db' k x.user_id) (λ x g. ground (arith, f x.user_id))
      db.credentials h)

module _ (db : Database) (s : IsConsistent db) where
  pub add_project-IsConsistent :
      (p : Project) → constraints (add_project p db) ≡ true → IsConsistent (add_project p db)
  add_project-IsConsistent p c = record {
    constrained = c;
    credentials_owned =
        all_mono (λ (v : Variant). credential_owned db v.project_id v.credential_id)
          (λ v. credential_owned (add_project p db) v.project_id v.credential_id)
          (λ v h.
            credential_owned_mono db (add_project p db) v.project_id v.credential_id
              (λ user g. ground (
                arith,
                g,
                any-append (λ (q : Project). q.id == v.project_id && q.owner_id == user) db.projects
                    (p ∷ []),
              ))
              refl h)
          db.variants s.credentials_owned;
    datasets_in_project = s.datasets_in_project;
    variants_in_project = s.variants_in_project;
  }

  pub change_project-IsConsistent :
      (k : ℕ) (f : Project → Project)
      → ((p : Project) → (f p).id ≡ p.id)
      → ((p : Project) → (f p).owner_id ≡ p.owner_id)
      → constraints (change_project k f db) ≡ true
      → IsConsistent (change_project k f db)
  change_project-IsConsistent k f e o c = record {
    constrained = c;
    credentials_owned =
        all_mono (λ (v : Variant). credential_owned db v.project_id v.credential_id)
          (λ v. credential_owned (change_project k f db) v.project_id v.credential_id)
          (λ v h.
            credential_owned_mono db (change_project k f db) v.project_id v.credential_id
              (λ user g.
                any-change (λ (q : Project). q.id == v.project_id && q.owner_id == user)
                  (λ q. q.id == k) f (λ q. ground (arith, e q, o q)) db.projects
                ∙ g)
              refl h)
          db.variants s.credentials_owned;
    datasets_in_project = s.datasets_in_project;
    variants_in_project = s.variants_in_project;
  }

  owned_after_removal :
      (k j user : ℕ)
      → (j == k) ≡ false
      → project_owned db j user ≡ true
      → project_owned (remove_project k db) j user ≡ true
  unfolding remove_project
  owned_after_removal k j user n h =
      any-remove (λ (p : Project). p.id == j && p.owner_id == user) (λ p. p.id == k)
        (λ p g. ground (arith, ==_iff p.id j)) db.projects h

  dataset_after_removal :
      (k j d : ℕ)
      → (j == k) ≡ false
      → dataset_in db j d ≡ true
      → dataset_in (remove_project k db) j d ≡ true
  unfolding remove_project
  dataset_after_removal k j d n h =
      any-remove (λ (x : Dataset). x.id == d && x.project_id == j) (λ x. x.project_id == k)
        (λ x g. ground (arith, ==_iff x.project_id j)) db.datasets h

  variant_after_removal :
      (k j w : ℕ)
      → (j == k) ≡ false
      → variant_in db j w ≡ true
      → variant_in (remove_project k db) j w ≡ true
  unfolding remove_project
  variant_after_removal k j w n h =
      any-remove (λ (x : Variant). x.id == w && x.project_id == j) (λ x. x.project_id == k)
        (λ x g. ground (arith, ==_iff x.project_id j)) db.variants h

  run_elsewhere :
      (k : ℕ) (l : RunVariantLink) (rs : List EvaluationRun)
      → any (λ (r : EvaluationRun). r.id == l.run_id && r.project_id == k) rs ≡ false
      → any (λ (r : EvaluationRun). r.id == l.run_id && variant_in db r.project_id l.variant_id) rs
        ≡ true
      → any
          (λ (r : EvaluationRun).
            r.id == l.run_id && variant_in (remove_project k db) r.project_id l.variant_id)
          (remove (λ (r : EvaluationRun). r.project_id == k) rs)
        ≡ true
  run_elsewhere k l [] n h = h
  run_elsewhere k l (r ∷ rs) n h =
      ground (arith, run_elsewhere k l rs, variant_after_removal k r.project_id l.variant_id)

  pub remove_project-IsConsistent :
      (k : ℕ) → constraints (remove_project k db) ≡ true → IsConsistent (remove_project k db)
  unfolding remove_project
  remove_project-IsConsistent k c = record {
    constrained = c;
    credentials_owned =
        all_mono
          (λ (v : Variant).
            credential_owned db v.project_id v.credential_id && not (v.project_id == k))
          (λ v. credential_owned (remove_project k db) v.project_id v.credential_id)
          (λ v h.
            credential_owned_mono db (remove_project k db) v.project_id v.credential_id
              (λ user g. owned_after_removal k v.project_id user (ground arith) g) refl
              (ground arith))
          (remove_project k db).variants
          (all_kept (λ (v : Variant). credential_owned db v.project_id v.credential_id)
            (λ v. not (v.project_id == k)) db.variants s.credentials_owned);
    datasets_in_project =
        all_mono
          (λ (r : EvaluationRun).
            dataset_in db r.project_id r.dataset_id && not (r.project_id == k))
          (λ r. dataset_in (remove_project k db) r.project_id r.dataset_id)
          (λ r h. dataset_after_removal k r.project_id r.dataset_id (ground arith) (ground arith))
          (remove_project k db).runs
          (all_kept (λ (r : EvaluationRun). dataset_in db r.project_id r.dataset_id)
            (λ r. not (r.project_id == k)) db.runs s.datasets_in_project);
    variants_in_project =
        all_mono
          (λ (l : RunVariantLink).
            link_in_project db l && not (run_in db k l.run_id || variant_in db k l.variant_id))
          (link_in_project (remove_project k db))
          (λ l h. run_elsewhere k l db.runs (ground arith) (ground arith))
          (remove_project k db).run_variants
          (all_kept (link_in_project db)
            (λ l. not (run_in db k l.run_id || variant_in db k l.variant_id)) db.run_variants
            s.variants_in_project);
  }
