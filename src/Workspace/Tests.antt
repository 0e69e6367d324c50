-- ===== src/Workspace/Tests.antt =====
-- Requests on a small database of two users, and the theorems at it.
use llm_evaluation_platform.Common.{arith, ℕ, ◌≡◌, refl, true, none, some, [], ◌∷◌, length}
use llm_evaluation_platform.Runs.Models.{pending, EvaluationRun}
use llm_evaluation_platform.Workspace.Models.{Variant, untested, ProviderCredential, Database}
use llm_evaluation_platform.Workspace.Database.{
  constraints, primary_keys, unique_constraints, foreign_keys, check_constraints, remove_dataset,
  remove_project,
}
use llm_evaluation_platform.Workspace.Schemas.{
  unset, null, value, EvaluationRunCreate, nulls_in_variant, has_repeat,
}
use llm_evaluation_platform.Workspace.Ownership.{
  ok, not_found, conflict, get_owned_project, get_owned_dataset, get_owned_variant,
  get_owned_provider_credential,
}
use llm_evaluation_platform.Workspace.Crud.{
  update_variant, delete_dataset, delete_project_at, apply, delete_project,
}
use llm_evaluation_platform.Workspace.Crud.Integrity.{IsConsistent}
use llm_evaluation_platform.Workspace.Crud.Pages.{read_pages, read_pages_complete}
use llm_evaluation_platform.Workspace.Runs.{
  create_evaluation_run, save_run, check_run, add_run, in_order, scheduled,
}
use llm_evaluation_platform.Workspace.Tables.{unique_by}

abbrev credential : ℕ → ℕ → ProviderCredential
credential k user = record {
  id = k;
  user_id = user;
  provider = "openai";
  name = "key";
  encrypted_payload = "x";
  key_hint = "h";
  status = untested;
  last_checked_at = none;
  last_used_at = none;
  updated_at = 0;
}

abbrev variant : Variant
variant = record {
  id = 5;
  project_id = 10;
  credential_id = some 7;
  name = "v";
  model = "m";
  provider = "openai";
  temperature = "0";
  max_tokens = none;
  system_prompt = none;
  timeout_seconds = "30";
  max_retries = 2;
}

abbrev evaluation : EvaluationRun
evaluation = record {
  id = 6;
  project_id = 10;
  dataset_id = 3;
  status = pending;
  concurrency = 2;
  total_tasks = 2;
  completed_tasks = 0;
  started_at = none;
  finished_at = none;
  error = none;
}

-- User 1 has project 10 with dataset 3 of two items, variant 5 and run 6; user 2 has project 20.
abbrev small : Database
small = record {
  projects =
      record { id = 10; owner_id = 1; name = "p"; description = none }
      ∷ record { id = 20; owner_id = 2; name = "p"; description = none }
      ∷ [];
  datasets = record { id = 3; project_id = 10; name = "d"; description = none } ∷ [];
  dataset_items =
      record {
        id = 31;
        dataset_id = 3;
        external_id = "a";
        input = "i";
        expected_output = "o";
        keywords = [];
      }
      ∷ record {
        id = 32;
        dataset_id = 3;
        external_id = "b";
        input = "i";
        expected_output = "o";
        keywords = [];
      }
      ∷ [];
  variants = variant ∷ [];
  credentials = credential 7 1 ∷ credential 8 2 ∷ [];
  runs = evaluation ∷ [];
  run_variants = record { run_id = 6; variant_id = 5 } ∷ [];
  results = [];
}

small_keys : primary_keys small ≡ true
unfolding primary_keys unique_by
small_keys = refl

small-IsConsistent : IsConsistent small
unfolding constraints primary_keys unique_constraints foreign_keys check_constraints unique_by
small-IsConsistent = record {
  constrained = refl;
  credentials_owned = refl;
  datasets_in_project = refl;
  variants_in_project = refl;
}

-- Another user's dataset is not found, and his own project is deleted with all that it has.
foreign_dataset : delete_dataset 2 3 small ≡ (not_found, small)
unfolding delete_dataset get_owned_dataset
foreign_dataset = refl

used_dataset : (delete_dataset 1 3 small).0 ≡ conflict
unfolding delete_dataset get_owned_dataset constraints primary_keys unique_constraints foreign_keys
    check_constraints remove_dataset unique_by
used_dataset = refl

deleted_project : length (apply 1 (delete_project_at 10) small).runs ≡ 0
unfolding apply delete_project get_owned_project constraints primary_keys unique_constraints
    foreign_keys check_constraints remove_project unique_by
deleted_project = refl

-- The credential of another user cannot be attached to a variant.
foreign_credential :
    (update_variant 1 5
      (record {
        name = unset;
        model = unset;
        provider = unset;
        credential_id = value 8;
        temperature = unset;
        max_tokens = null;
        system_prompt = unset;
        timeout_seconds = unset;
        max_retries = unset;
      })
      small).0
    ≡ not_found
unfolding update_variant nulls_in_variant get_owned_variant get_owned_provider_credential
foreign_credential = refl

abbrev order : EvaluationRunCreate
order = record { project_id = 10; dataset_id = 3; variant_ids = 5 ∷ []; concurrency = 4 }

queued_run : length (create_evaluation_run 1 9 order scheduled 0 small).1.runs ≡ 2
unfolding create_evaluation_run save_run check_run add_run in_order has_repeat get_owned_project
    get_owned_dataset constraints primary_keys unique_constraints foreign_keys check_constraints
    unique_by
queued_run = refl

own_dataset :
    get_owned_dataset 1 3 small
    ≡ ok (record { id = 3; project_id = 10; name = "d"; description = none })
unfolding get_owned_dataset
own_dataset = refl

read_pages_complete_example : read_pages 1 3 1 small 3 0 ≡ small.dataset_items
read_pages_complete_example = read_pages_complete 1 3 1 small _ own_dataset (omega arith)
