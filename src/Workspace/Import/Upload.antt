-- ===== src/Workspace/Import/Upload.antt =====
-- `import_dataset_file` of backend/api/crud.py: a file becomes a dataset with its items, in one commit.
use llm_evaluation_platform.Common.{
  ℕ, suc, String, Option, none, some, List, [], ◌∷◌, ◌++◌, str_eq, if◌then◌else◌, length, take, ltb,
}
use llm_evaluation_platform.Workspace.Models.{Dataset, DatasetItem, Database}
use llm_evaluation_platform.Workspace.Schemas.{DatasetItemCreate}
use llm_evaluation_platform.Workspace.Ownership.{Answer, unprocessable, get_owned_project}
use llm_evaluation_platform.Workspace.Crud.{commit, found}
use llm_evaluation_platform.Workspace.Import.{
  done, failed, Files, max_dataset_file_bytes, parse_dataset_file, default_dataset_name,
}

pub record DatasetImportRead : Type 0 where
  pub dataset : Dataset
  pub item_count : ℕ

-- `a or b` of texts.
abbrev pub or_text : Option String → String → String
or_text none b = b
or_text (some a) b = if str_eq a "" then b else a

abbrev pub first_text : Option String → Option String → Option String
first_text none b = b
first_text (some a) b = some a

-- The rows of the items, with ids that are drawn for them.
unfoldable pub item_rows : (ℕ → ℕ) → ℕ → ℕ → List DatasetItemCreate → List DatasetItem
item_rows draw n dataset_id [] = []
item_rows draw n dataset_id (i ∷ is) =
    record {
      id = draw n;
      dataset_id = dataset_id;
      external_id = i.external_id;
      input = i.input;
      expected_output = i.expected_output;
      keywords = i.keywords;
    }
    ∷ item_rows draw (suc n) dataset_id is

-- The rows share one time of creation, so that the table lists them by id.
unfoldable pub insert_by_id : DatasetItem → List DatasetItem → List DatasetItem
insert_by_id i [] = i ∷ []
insert_by_id i (j ∷ js) =
    let rest = insert_by_id i js in if ltb j.id i.id then j ∷ rest else i ∷ j ∷ js

unfoldable pub in_id_order : List DatasetItem → List DatasetItem
unfolding insert_by_id
in_id_order [] = []
in_id_order (i ∷ is) = insert_by_id i (in_id_order is)

unfoldable pub add_import : Dataset → List DatasetItem → Database → Database
unfolding in_id_order
add_import d items db = record db {
  datasets = db.datasets ++ d ∷ [];
  dataset_items = db.dataset_items ++ in_id_order items;
}

-- What a row holds of the file.
abbrev pub content : DatasetItem → DatasetItemCreate
content i = record {
  external_id = i.external_id;
  input = i.input;
  expected_output = i.expected_output;
  keywords = i.keywords;
}

-- What the parser and `DatasetCreate` accept; `valid_name` is the check of a name, and either may refuse.
module _ {V : Type 0} (f : Files V) (valid_name : String → Option String) (user : ℕ) where
  unfoldable pub save_import :
      ℕ
      → (ℕ → ℕ)
      → ℕ
      → String
      → Option String
      → List DatasetItemCreate
      → Database
      → Answer DatasetImportRead × Database
  unfolding item_rows add_import
  save_import id draw project_id name description items db =
      let dataset : Dataset = record {
        id = id;
        project_id = project_id;
        name = name;
        description = description;
      } in
      commit db (add_import dataset (item_rows draw 0 id items) db)
        (record { dataset = dataset; item_count = length items })

  -- `none` is a file without a name, or a form field that was not sent.
  unfoldable pub import_dataset_file :
      ℕ
      → (ℕ → ℕ)
      → ℕ
      → Option String
      → List ℕ
      → Option String
      → Option String
      → Database
      → Answer DatasetImportRead × Database
  unfolding save_import
  import_dataset_file id draw project_id upload_name file name description db =
      let filename = or_text upload_name "dataset.jsonl" in
      found (get_owned_project user project_id db) db λ p.
        elim (parse_dataset_file f filename (take (suc max_dataset_file_bytes) file)) [
          | failed e ↦ (unprocessable, db)
          | done parsed ↦
              elim (valid_name
                (or_text name (or_text parsed.name (default_dataset_name f filename)))) [
                  | none ↦ (unprocessable, db)
                  | some n ↦
                      save_import id draw project_id n (first_text description parsed.description)
                        parsed.items db
                ]
        ]
