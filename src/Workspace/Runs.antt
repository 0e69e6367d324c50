-- ===== src/Workspace/Runs.antt =====
-- `create_evaluation_run` and `list_evaluation_runs` of backend/api/runs.py.
pub mod Inputs
pub mod Accepted
pub mod Preserved
pub mod Isolation
use llm_evaluation_platform.Common.{
  ℕ, ◌+◌, ◌*◌, String, Bool, ◌&&◌, not, Option, none, some, List, [], ◌∷◌, ◌++◌, map, ltb, ◌==◌,
  if◌then◌else◌, length, filter, any,
}
use llm_evaluation_platform.Runs.Models.{EvaluationRun}
use llm_evaluation_platform.Workspace.Models.{Dataset, Variant, RunVariantLink, Database}
use llm_evaluation_platform.Workspace.Tables.{change}
use llm_evaluation_platform.Workspace.Database.{constraints}
use llm_evaluation_platform.Workspace.Ownership.{
  Answer, ok, not_found, conflict, unprocessable, unavailable, server_error, get_owned_project,
  get_owned_dataset, runs_of,
}
use llm_evaluation_platform.Runs.Models.{pending, failed}
use llm_evaluation_platform.Workspace.Crud.{found, items_in, page}
use llm_evaluation_platform.Workspace.Schemas.{EvaluationRunCreate, has_repeat}

-- What the scheduler does: it takes the run, or raises an exception with this text.
pub data Scheduled : Type 0 where
  scheduled : Scheduled
  refused : String → Scheduled

abbrev pub one_of : List ℕ → ℕ → Bool
one_of ks k = any (λ j. j == k) ks

-- `variants_by_id[variant_id]`; `none` is a KeyError.
abbrev pub variant_by_id : ℕ → List Variant → Option Variant
variant_by_id k [] = none
variant_by_id k (v ∷ vs) = let rest = variant_by_id k vs in if v.id == k then some v else rest

abbrev pub join : Option Variant → Option (List Variant) → Option (List Variant)
join (some v) (some vs) = some (v ∷ vs)
join _ _ = none

unfoldable pub in_order : List ℕ → List Variant → Option (List Variant)
in_order [] vs = some []
in_order (k ∷ ks) vs = join (variant_by_id k vs) (in_order ks vs)

abbrev pub link_all : ℕ → List Variant → List RunVariantLink
link_all run_id = map (λ (v : Variant). record { run_id = run_id; variant_id = v.id })

-- `session.add(run)` with its variants.
unfoldable pub add_run : EvaluationRun → List Variant → Database → Database
add_run r vs db = record db {
  runs = db.runs ++ r ∷ [];
  run_variants = db.run_variants ++ link_all r.id vs;
}

abbrev pub change_run : ℕ → (EvaluationRun → EvaluationRun) → Database → Database
change_run k f db = record db { runs = change (λ (r : EvaluationRun). r.id == k) f db.runs }

-- `session.commit()` without a handler for IntegrityError.
abbrev pub commit_or_500 :
    {A : Type 0} → Database → Database → Answer A × Database → Answer A × Database
commit_or_500 db changed next = if constraints changed then next else (server_error, db)

module _ (user : ℕ) where
  abbrev pub new_run : ℕ → EvaluationRunCreate → ℕ → EvaluationRun
  new_run id payload total = record {
    id = id;
    project_id = payload.project_id;
    dataset_id = payload.dataset_id;
    status = pending;
    concurrency = payload.concurrency;
    total_tasks = total;
    completed_tasks = 0;
    started_at = none;
    finished_at = none;
    error = none;
  }

  -- The exception of the scheduler is written to the row.
  abbrev pub fail_run : ℕ → String → EvaluationRun → EvaluationRun
  fail_run now message r = record r {
    status = failed;
    finished_at = some now;
    error = some message;
  }

  -- From the commit of the new row on.
  unfoldable pub save_run :
      EvaluationRun → List Variant → Scheduled → ℕ → Database → Answer EvaluationRun × Database
  unfolding add_run
  save_run r vs answer now db =
      let saved = add_run r vs db in
      commit_or_500 db saved (elim answer [
        | scheduled ↦ (ok r, saved)
        | refused message ↦
            let changed = change_run r.id (fail_run now message) saved in
            commit_or_500 saved changed (unavailable, changed)
      ])

  -- The variants of the project among those that were asked for.
  abbrev pub asked_for : EvaluationRunCreate → Database → List Variant
  asked_for payload db =
      filter
        (λ (v : Variant). one_of payload.variant_ids v.id && v.project_id == payload.project_id)
        db.variants

  -- The checks on the dataset and the variants, in order.
  unfoldable pub check_run : EvaluationRunCreate → Dataset → Database → Answer (List Variant)
  unfolding in_order
  check_run payload dataset db =
      let variants = asked_for payload db in
      if not (dataset.project_id == payload.project_id)
      then conflict
      else if length (items_in user payload.dataset_id db) == 0
      then conflict
      else if not (length variants == length payload.variant_ids)
      then not_found
      else if any (λ (v : Variant). ltb 10 v.max_retries) variants
      then conflict
      else elim (in_order payload.variant_ids variants) [ none ↦ server_error | some vs ↦ ok vs ]

  unfoldable pub create_evaluation_run :
      ℕ → EvaluationRunCreate → Scheduled → ℕ → Database → Answer EvaluationRun × Database
  unfolding save_run check_run
  create_evaluation_run id payload answer now db =
      if has_repeat payload.variant_ids
      then (unprocessable, db)
      else found (get_owned_project user payload.project_id db) db λ p.
        found (get_owned_dataset user payload.dataset_id db) db λ d.
          found (check_run payload d db) db λ vs.
            save_run (new_run id payload (length (items_in user payload.dataset_id db) * length vs))
              vs answer now db

  -- The newest run first; no two runs of a table are created at the same time.
  abbrev pub newest_first : List EvaluationRun → List EvaluationRun → List EvaluationRun
  newest_first seen [] = seen
  newest_first seen (r ∷ rs) = newest_first (r ∷ seen) rs

  unfoldable pub list_evaluation_runs :
      Option ℕ → ℕ → ℕ → Database → Answer (List EvaluationRun) × Database
  list_evaluation_runs none offset limit db =
      (ok (page offset limit (newest_first [] (runs_of user db))), db)
  list_evaluation_runs (some k) offset limit db = found (get_owned_project user k db) db λ p. (
    ok (
        page offset limit
          (filter (λ (r : EvaluationRun). r.project_id == k) (newest_first [] (runs_of user db)))),
    db,
  )
