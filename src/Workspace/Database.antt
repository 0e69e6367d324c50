-- ===== src/Workspace/Database.antt =====
-- The constraints of the tables and the changes that a transaction commits: `IntegrityError` is a
-- commit whose rows break a constraint. The users' table is not part of it. Deleting a row deletes
-- what its relationships cascade to; any other row that still refers to it breaks a constraint, as a
-- key that the ORM would set to NULL does.
use llm_evaluation_platform.Common.{
  ℕ, Bool, true, ◌&&◌, ◌||◌, Option, none, some, ltb, leb, ◌==◌, str_eq, any, all,
}
use llm_evaluation_platform.Runs.Models.{EvaluationRun}
use llm_evaluation_platform.Workspace.Models.{
  Project, Dataset, DatasetItem, Variant, ProviderCredential, RunVariantLink, ResultKey, Database,
}
use llm_evaluation_platform.Workspace.Tables.{unique_by, has_key, same_key, remove}

abbrev pub has_project : Database → ℕ → Bool
has_project db k = has_key (λ (p : Project). p.id) k db.projects

abbrev pub has_dataset : Database → ℕ → Bool
has_dataset db k = has_key (λ (d : Dataset). d.id) k db.datasets

abbrev pub has_item : Database → ℕ → Bool
has_item db k = has_key (λ (i : DatasetItem). i.id) k db.dataset_items

abbrev pub has_variant : Database → ℕ → Bool
has_variant db k = has_key (λ (v : Variant). v.id) k db.variants

abbrev pub has_credential : Database → ℕ → Bool
has_credential db k = has_key (λ (c : ProviderCredential). c.id) k db.credentials

abbrev pub has_run : Database → ℕ → Bool
has_run db k = has_key (λ (r : EvaluationRun). r.id) k db.runs

unfoldable pub primary_keys : Database → Bool
primary_keys db =
    unique_by (same_key (λ (p : Project). p.id)) db.projects
    && unique_by (same_key (λ (d : Dataset). d.id)) db.datasets
    && unique_by (same_key (λ (i : DatasetItem). i.id)) db.dataset_items
    && unique_by (same_key (λ (v : Variant). v.id)) db.variants
    && unique_by (same_key (λ (c : ProviderCredential). c.id)) db.credentials
    && unique_by (same_key (λ (r : EvaluationRun). r.id)) db.runs
    && unique_by (same_key (λ (s : ResultKey). s.id)) db.results
    && unique_by (λ (l : RunVariantLink) m. m.run_id == l.run_id && m.variant_id == l.variant_id)
        db.run_variants

unfoldable pub unique_constraints : Database → Bool
unique_constraints db =
    unique_by (λ (p : Project) q. q.owner_id == p.owner_id && str_eq q.name p.name) db.projects
    && unique_by (λ (d : Dataset) e. e.project_id == d.project_id && str_eq e.name d.name)
        db.datasets
    && unique_by
        (λ (i : DatasetItem) j. j.dataset_id == i.dataset_id && str_eq j.external_id i.external_id)
        db.dataset_items
    && unique_by (λ (v : Variant) w. w.project_id == v.project_id && str_eq w.name v.name)
        db.variants
    && unique_by
        (λ (c : ProviderCredential) d.
          d.user_id == c.user_id && str_eq d.provider c.provider && str_eq d.name c.name)
        db.credentials
    && unique_by
        (λ (r : ResultKey) s.
          s.run_id == r.run_id
          && s.dataset_item_id == r.dataset_item_id
          && s.variant_id == r.variant_id)
        db.results

abbrev pub refers : Database → Option ℕ → Bool
refers db none = true
refers db (some k) = has_credential db k

unfoldable pub foreign_keys : Database → Bool
foreign_keys db =
    all (λ (d : Dataset). has_project db d.project_id) db.datasets
    && all (λ (i : DatasetItem). has_dataset db i.dataset_id) db.dataset_items
    && all (λ (v : Variant). has_project db v.project_id) db.variants
    && all (λ (v : Variant). refers db v.credential_id) db.variants
    && all (λ (r : EvaluationRun). has_project db r.project_id && has_dataset db r.dataset_id)
        db.runs
    && all (λ (l : RunVariantLink). has_run db l.run_id && has_variant db l.variant_id)
        db.run_variants
    && all
        (λ (s : ResultKey).
          has_run db s.run_id && has_item db s.dataset_item_id && has_variant db s.variant_id)
        db.results

-- The statuses are types here, numbers are not negative, and a timeout is a text.
unfoldable pub check_constraints : Database → Bool
check_constraints db =
    all (λ (r : EvaluationRun). ltb 0 r.concurrency && leb r.completed_tasks r.total_tasks) db.runs

unfoldable pub constraints : Database → Bool
unfolding primary_keys unique_constraints foreign_keys check_constraints
constraints db =
    primary_keys db && (unique_constraints db && (foreign_keys db && check_constraints db))

-- `session.delete` of a project, a dataset and a variant, with what it cascades to.
unfoldable pub remove_dataset : ℕ → Database → Database
remove_dataset k db = record db {
  datasets = remove (λ (d : Dataset). d.id == k) db.datasets;
  dataset_items = remove (λ (i : DatasetItem). i.dataset_id == k) db.dataset_items;
}

unfoldable pub remove_variant : ℕ → Database → Database
remove_variant k db = record db {
  variants = remove (λ (v : Variant). v.id == k) db.variants;
  run_variants = remove (λ (l : RunVariantLink). l.variant_id == k) db.run_variants;
}

unfoldable pub remove_item : ℕ → Database → Database
remove_item k db = record db {
  dataset_items = remove (λ (i : DatasetItem). i.id == k) db.dataset_items;
}

-- Whether a dataset, a variant or a run with this id belongs to the project.
abbrev pub dataset_in : Database → ℕ → ℕ → Bool
dataset_in db project_id k =
    any (λ (d : Dataset). d.id == k && d.project_id == project_id) db.datasets

abbrev pub variant_in : Database → ℕ → ℕ → Bool
variant_in db project_id k =
    any (λ (v : Variant). v.id == k && v.project_id == project_id) db.variants

abbrev pub run_in : Database → ℕ → ℕ → Bool
run_in db project_id k =
    any (λ (r : EvaluationRun). r.id == k && r.project_id == project_id) db.runs

unfoldable pub remove_project : ℕ → Database → Database
remove_project k db = record db {
  projects = remove (λ (p : Project). p.id == k) db.projects;
  datasets = remove (λ (d : Dataset). d.project_id == k) db.datasets;
  dataset_items = remove (λ (i : DatasetItem). dataset_in db k i.dataset_id) db.dataset_items;
  variants = remove (λ (v : Variant). v.project_id == k) db.variants;
  runs = remove (λ (r : EvaluationRun). r.project_id == k) db.runs;
  run_variants =
      remove (λ (l : RunVariantLink). run_in db k l.run_id || variant_in db k l.variant_id)
        db.run_variants;
  results = remove (λ (s : ResultKey). run_in db k s.run_id) db.results;
}
