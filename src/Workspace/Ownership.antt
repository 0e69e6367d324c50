-- ===== src/Workspace/Ownership.antt =====
-- backend/api/ownership.py: every lookup asks for the owner too. A join on a primary key finds one row
-- at most.
use llm_evaluation_platform.Common.{ℕ, Bool, List, ◌==◌, filter, any}
use llm_evaluation_platform.Auth.Models.{no_row, one_row, many_rows, one_or_none}
use llm_evaluation_platform.Runs.Models.{EvaluationRun}
use llm_evaluation_platform.Workspace.Models.{
  Project, Dataset, DatasetItem, Variant, ProviderCredential, RunVariantLink, ResultKey, Database,
}

pub data Answer (A : Type 0) : Type 0 where
  ok : A → Answer A
  not_found : Answer A
  conflict : Answer A
  unprocessable : Answer A
  -- 400
  bad_request : Answer A
  -- 503
  unavailable : Answer A
  server_error : Answer A

abbrev pub owned_or_404 : {A : Type 0} → List A → Answer A
owned_or_404 rows = elim (one_or_none rows) [
  | no_row ↦ not_found
  | one_row x ↦ ok x
  | many_rows ↦ server_error
]

-- What a user can see.
abbrev pub projects_of : ℕ → Database → List Project
projects_of user db = filter (λ (p : Project). p.owner_id == user) db.projects

abbrev pub owns : ℕ → Database → ℕ → Bool
owns user db k = any (λ (p : Project). p.id == k) (projects_of user db)

abbrev pub datasets_of : ℕ → Database → List Dataset
datasets_of user db = filter (λ (d : Dataset). owns user db d.project_id) db.datasets

abbrev pub owns_dataset : ℕ → Database → ℕ → Bool
owns_dataset user db k = any (λ (d : Dataset). d.id == k) (datasets_of user db)

abbrev pub items_of : ℕ → Database → List DatasetItem
items_of user db = filter (λ (i : DatasetItem). owns_dataset user db i.dataset_id) db.dataset_items

abbrev pub variants_of : ℕ → Database → List Variant
variants_of user db = filter (λ (v : Variant). owns user db v.project_id) db.variants

abbrev pub credentials_of : ℕ → Database → List ProviderCredential
credentials_of user db = filter (λ (c : ProviderCredential). c.user_id == user) db.credentials

abbrev pub runs_of : ℕ → Database → List EvaluationRun
runs_of user db = filter (λ (r : EvaluationRun). owns user db r.project_id) db.runs

abbrev pub owns_run : ℕ → Database → ℕ → Bool
owns_run user db k = any (λ (r : EvaluationRun). r.id == k) (runs_of user db)

-- The results of the user's runs, and the variants that these runs are linked to.
abbrev pub run_results_of : ℕ → Database → List ResultKey
run_results_of user db = filter (λ (s : ResultKey). owns_run user db s.run_id) db.results

abbrev pub links_of : ℕ → Database → List RunVariantLink
links_of user db = filter (λ (l : RunVariantLink). owns_run user db l.run_id) db.run_variants

unfoldable pub get_owned_project : ℕ → ℕ → Database → Answer Project
get_owned_project user k db =
    owned_or_404 (filter (λ (p : Project). p.id == k) (projects_of user db))

unfoldable pub get_owned_dataset : ℕ → ℕ → Database → Answer Dataset
get_owned_dataset user k db =
    owned_or_404 (filter (λ (d : Dataset). d.id == k) (datasets_of user db))

unfoldable pub get_owned_dataset_item : ℕ → ℕ → Database → Answer DatasetItem
get_owned_dataset_item user k db =
    owned_or_404 (filter (λ (i : DatasetItem). i.id == k) (items_of user db))

unfoldable pub get_owned_variant : ℕ → ℕ → Database → Answer Variant
get_owned_variant user k db =
    owned_or_404 (filter (λ (v : Variant). v.id == k) (variants_of user db))

unfoldable pub get_owned_provider_credential : ℕ → ℕ → Database → Answer ProviderCredential
get_owned_provider_credential user k db =
    owned_or_404 (filter (λ (c : ProviderCredential). c.id == k) (credentials_of user db))

unfoldable pub get_owned_run : ℕ → ℕ → Database → Answer EvaluationRun
get_owned_run user k db = owned_or_404 (filter (λ (r : EvaluationRun). r.id == k) (runs_of user db))
