-- ===== src/Workspace/Crud/Views.antt =====
-- What a user sees of the database.
use llm_evaluation_platform.Common.{
  ℕ, ◌≡◌, refl, ap, ◌∙◌, Bool, true, List, [], ◌∷◌, arith, ◌==◌, filter, any, all,
}
use llm_evaluation_platform.Runs.Models.{EvaluationRun}
use llm_evaluation_platform.Workspace.Models.{
  Project, Dataset, DatasetItem, Variant, RunVariantLink, ResultKey, Database,
}
use llm_evaluation_platform.Workspace.Tables.{unique_by, same_key}
use llm_evaluation_platform.Workspace.Database.{primary_keys}
use llm_evaluation_platform.Workspace.Ownership.{
  projects_of, datasets_of, items_of, variants_of, credentials_of, runs_of, run_results_of,
  links_of, owns, owns_dataset, owns_run,
}

-- The two databases show a user the same rows.
pub record SameFor (user : ℕ) (db' db : Database) : Type 0 where
  pub projects : projects_of user db' ≡ projects_of user db
  pub datasets : datasets_of user db' ≡ datasets_of user db
  pub items : items_of user db' ≡ items_of user db
  pub variants : variants_of user db' ≡ variants_of user db
  pub credentials : credentials_of user db' ≡ credentials_of user db
  pub runs : runs_of user db' ≡ runs_of user db
  pub results : run_results_of user db' ≡ run_results_of user db
  pub run_variants : links_of user db' ≡ links_of user db

pub same : (user : ℕ) (db : Database) → SameFor user db db
same user db = record {
  projects = refl;
  datasets = refl;
  items = refl;
  variants = refl;
  credentials = refl;
  runs = refl;
  results = refl;
  run_variants = refl;
}

abbrev in_projects : List Project → ℕ → Bool
in_projects ps k = any (λ (p : Project). p.id == k) ps

abbrev in_datasets : List Dataset → ℕ → Bool
in_datasets ds k = any (λ (d : Dataset). d.id == k) ds

abbrev in_runs : List EvaluationRun → ℕ → Bool
in_runs rs k = any (λ (r : EvaluationRun). r.id == k) rs

-- The views agree if the tables agree where the old views look.
pub views :
    (u : ℕ) (db' db : Database)
    → projects_of u db' ≡ projects_of u db
    → filter (λ (d : Dataset). owns u db d.project_id) db'.datasets ≡ datasets_of u db
    → filter (λ (i : DatasetItem). owns_dataset u db i.dataset_id) db'.dataset_items ≡ items_of u db
    → filter (λ (v : Variant). owns u db v.project_id) db'.variants ≡ variants_of u db
    → credentials_of u db' ≡ credentials_of u db
    → filter (λ (r : EvaluationRun). owns u db r.project_id) db'.runs ≡ runs_of u db
    → filter (λ (s : ResultKey). owns_run u db s.run_id) db'.results ≡ run_results_of u db
    → filter (λ (l : RunVariantLink). owns_run u db l.run_id) db'.run_variants ≡ links_of u db
    → SameFor u db' db
views u db' db p d i v c r s l =
    let rs : runs_of u db' ≡ runs_of u db =
      ap (λ ps. filter (λ (r : EvaluationRun). in_projects ps r.project_id) db'.runs) p ∙ r in
    let ds : datasets_of u db' ≡ datasets_of u db =
      ap (λ ps. filter (λ (d : Dataset). in_projects ps d.project_id) db'.datasets) p ∙ d in
    record {
      projects = p;
      datasets = ds;
      items =
          ap (λ xs. filter (λ (i : DatasetItem). in_datasets xs i.dataset_id) db'.dataset_items) ds
          ∙ i;
      variants =
          ap (λ ps. filter (λ (v : Variant). in_projects ps v.project_id) db'.variants) p ∙ v;
      credentials = c;
      runs = rs;
      results = ap (λ xs. filter (λ (s : ResultKey). in_runs xs s.run_id) db'.results) rs ∙ s;
      run_variants =
          ap (λ xs. filter (λ (l : RunVariantLink). in_runs xs l.run_id) db'.run_variants) rs ∙ l;
    }

pub all_by : {A : Type 0} (p : A → Bool) → ((x : A) → p x ≡ true) → (xs : List A) → all p xs ≡ true
all_by p f [] = refl
all_by p f (x ∷ xs) = ground (arith, all_by p f xs, f x)

pub project_ids :
    (db : Database)
    → primary_keys db ≡ true
    → unique_by (same_key (λ (p : Project). p.id)) db.projects ≡ true
unfolding primary_keys
project_ids db h = ground arith

pub dataset_ids :
    (db : Database)
    → primary_keys db ≡ true
    → unique_by (same_key (λ (d : Dataset). d.id)) db.datasets ≡ true
unfolding primary_keys
dataset_ids db h = ground arith

pub item_ids :
    (db : Database)
    → primary_keys db ≡ true
    → unique_by (same_key (λ (i : DatasetItem). i.id)) db.dataset_items ≡ true
unfolding primary_keys
item_ids db h = ground arith

pub variant_ids :
    (db : Database)
    → primary_keys db ≡ true
    → unique_by (same_key (λ (v : Variant). v.id)) db.variants ≡ true
unfolding primary_keys
variant_ids db h = ground arith

pub run_ids :
    (db : Database)
    → primary_keys db ≡ true
    → unique_by (same_key (λ (r : EvaluationRun). r.id)) db.runs ≡ true
unfolding primary_keys
run_ids db h = ground arith
