-- ===== src/Workspace/Import/Tests.antt =====
-- The import of a small file.
use llm_evaluation_platform.Common.{String, ◌≡◌, refl, true, none, some, [], ◌∷◌, str_eq}
use llm_evaluation_platform.Workspace.Models.{Database}
use llm_evaluation_platform.Workspace.Tables.{unique_by}
use llm_evaluation_platform.Workspace.Database.{
  constraints, primary_keys, unique_constraints, foreign_keys, check_constraints,
}
use llm_evaluation_platform.Workspace.Ownership.{get_owned_project}
use llm_evaluation_platform.Workspace.Crud.Integrity.{IsConsistent}
use llm_evaluation_platform.Common.{◌≤◌, ◌⊎◌, length}
use llm_evaluation_platform.Common.Dict.{lookup, insert, erase}
use llm_evaluation_platform.Workspace.Schemas.{DatasetItemCreate}
use llm_evaluation_platform.Workspace.Import.{
  object as raw_object, not_json, Files, done, ParsedDatasetImport, parse_dataset_file,
  parse_json_lines, check_items, validate_items, validate_item, external_ids,
  max_dataset_file_bytes, max_dataset_import_items,
}
use llm_evaluation_platform.Workspace.Import.Accepted.{parse_dataset_file-IsImport}
use llm_evaluation_platform.Workspace.Import.Upload.{
  import_dataset_file, item_rows, insert_by_id, in_id_order, add_import, save_import,
}
use llm_evaluation_platform.Workspace.Import.Stored.{Imported, Refused, import_dataset_file_whole}

-- A file of three lines, the second one blank.
abbrev pub files : Files String
files = record {
  suffix = λ n. ".jsonl";
  stem = λ n. "cases";
  decode = λ bytes. some "ab";
  splitlines = λ t. "a" ∷ "" ∷ "b" ∷ [];
  is_blank = λ t. str_eq t "";
  loads_line = λ t. some (raw_object (("id", t) ∷ []));
  loads = λ t. not_json;
  model_validate = λ fields. elim (lookup "external_id" fields) [
    | none ↦ none
    | some v ↦ some (record { external_id = v; input = "q"; expected_output = "r"; keywords = [] })
  ];
}

abbrev with_project : Database
with_project = record {
  projects = record { id = 10; owner_id = 1; name = "p"; description = none } ∷ [];
  datasets = [];
  dataset_items = [];
  variants = [];
  credentials = [];
  runs = [];
  run_variants = [];
  results = [];
}

with_project-IsConsistent : IsConsistent with_project
unfolding constraints primary_keys unique_constraints foreign_keys check_constraints unique_by
with_project-IsConsistent = record {
  constrained = refl;
  credentials_owned = refl;
  datasets_in_project = refl;
  variants_in_project = refl;
}

abbrev cases : DatasetItemCreate
cases = record { external_id = "a"; input = "q"; expected_output = "r"; keywords = [] }

abbrev parsed : ParsedDatasetImport
parsed = record {
  name = none;
  description = none;
  items = cases ∷ record cases { external_id = "b" } ∷ [];
}

read_file : parse_dataset_file files "cases.jsonl" (1 ∷ []) ≡ done parsed
unfolding parse_dataset_file parse_json_lines check_items validate_items validate_item lookup insert
    erase
read_file = refl

parse_dataset_file-IsImport_example :
    (1 ≤ 1)
    × (1 ≤ max_dataset_file_bytes)
    × (1 ≤ length parsed.items)
    × (length parsed.items ≤ max_dataset_import_items)
    × (unique_by (λ s t. str_eq t s) (external_ids files parsed.items) ≡ true)
parse_dataset_file-IsImport_example =
    parse_dataset_file-IsImport files "cases.jsonl" (1 ∷ []) parsed read_file

import_dataset_file_whole_example :
    ((p : ParsedDatasetImport) × (parse_dataset_file files "cases.jsonl" (1 ∷ []) ≡ done p)
      × Imported files some 1
          (λ n. n)
          with_project
          with_project-IsConsistent
          p
          (import_dataset_file files some 1 20
            (λ n. n)
            10
            (some "cases.jsonl")
            (1 ∷ [])
            none
            none
            with_project))
    ⊎ Refused files some 1
        (λ n. n)
        with_project
        with_project-IsConsistent
        20
        10
        (some "cases.jsonl")
        (1 ∷ [])
        none
        none
        (import_dataset_file files some 1 20
          (λ n. n)
          10
          (some "cases.jsonl")
          (1 ∷ [])
          none
          none
          with_project)
import_dataset_file_whole_example =
    import_dataset_file_whole files some 1 (λ n. n) with_project with_project-IsConsistent 20 10
      (some "cases.jsonl") (1 ∷ []) none none

-- The file has become a dataset with two items.
imported :
    length
      (import_dataset_file files some 1 20
        (λ n. n)
        10
        (some "cases.jsonl")
        (1 ∷ [])
        none
        none
        with_project).1.dataset_items
    ≡ 2
unfolding import_dataset_file save_import item_rows insert_by_id in_id_order add_import
    get_owned_project parse_dataset_file parse_json_lines check_items validate_items validate_item
    lookup insert erase constraints primary_keys unique_constraints foreign_keys check_constraints
    unique_by
imported = refl
