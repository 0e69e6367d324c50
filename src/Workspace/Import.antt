-- ===== src/Workspace/Import.antt =====
-- backend/dataset_import.py: a file as the items of a dataset. The json module, the text codec, pathlib
-- and the pydantic models are the fields of `Files`; a document is what the code looks at of it, with
-- values of a type `V` that it only passes on.
pub mod Accepted
pub mod Upload
pub mod Rows
pub mod Stored
pub mod Kept
pub mod Tests
use llm_evaluation_platform.Common.{
  ℕ, suc, ◌+◌, ◌*◌, String, Bool, ◌||◌, not, Option, none, some, List, [], ◌∷◌, map, ltb, ◌==◌,
  str_eq, if◌then◌else◌, is_some, length, any,
}
use llm_evaluation_platform.Common.Dict.{Dict, lookup, insert, erase}
use llm_evaluation_platform.Workspace.Schemas.{DatasetItemCreate}

abbrev pub max_dataset_file_bytes : ℕ
max_dataset_file_bytes = 5 * 1024 * 1024

abbrev pub max_dataset_import_items : ℕ
max_dataset_import_items = 1000

-- The reasons of a DatasetImportError; a number is a line or the position of a test case.
pub data DatasetImportError : Type 0 where
  unsupported_extension empty_file too_large not_utf8 invalid_document not_a_dataset
        items_not_a_list :
      DatasetImportError
  no_items too_many_items duplicate_ids name_not_text : DatasetImportError
  invalid_line item_not_an_object invalid_item : ℕ → DatasetImportError

pub data Outcome (A : Type 0) : Type 0 where
  done : A → Outcome A
  failed : DatasetImportError → Outcome A

abbrev pub on_done : {A B : Type 0} → Outcome A → (A → Outcome B) → Outcome B
on_done (done a) k = k a
on_done (failed e) k = failed e

pub data RawItem (V : Type 0) : Type 0 where
  object : Dict V → RawItem V
  no_object : RawItem V

-- The fields `name` and `description`.
pub data TextField : Type 0 where
  no_text other_value : TextField
  text : String → TextField

-- The field `items` of an object.
pub data ItemsField (V : Type 0) : Type 0 where
  no_items_field items_other : ItemsField V
  items_list : List (RawItem V) → ItemsField V

pub data JsonDocument (V : Type 0) : Type 0 where
  not_json no_container : JsonDocument V
  array : List (RawItem V) → JsonDocument V
  mapping : Dict V → ItemsField V → TextField → TextField → JsonDocument V

pub record ParsedDatasetImport : Type 0 where
  pub name : Option String
  pub description : Option String
  pub items : List DatasetItemCreate

pub record Files (V : Type 0) : Type 0 where
  -- `Path(filename).suffix.lower()` and `Path(filename).stem.strip()`
  pub suffix : String → String
  pub stem : String → String
  -- `content.decode("utf-8-sig")` of bytes, `str.splitlines`, and whether `line.strip()` is empty
  pub decode : List ℕ → Option String
  pub splitlines : String → List String
  pub is_blank : String → Bool
  -- `json.loads` of a line, and of a document
  pub loads_line : String → Option (RawItem V)
  pub loads : String → JsonDocument V
  -- `DatasetItemCreate.model_validate`
  pub model_validate : Dict V → Option DatasetItemCreate

abbrev optional_string : TextField → Outcome (Option String)
optional_string no_text = done none
optional_string other_value = failed name_not_text
optional_string (text s) = done (some s)

abbrev pub count_id : String → List String → ℕ
count_id s [] = 0
count_id s (t ∷ ts) = (if str_eq t s then 1 else 0) + count_id s ts

module _ {V : Type 0} (f : Files V) where
  unfoldable pub parse_json_lines : ℕ → List String → Outcome (List (RawItem V))
  parse_json_lines n [] = done []
  parse_json_lines n (line ∷ lines) =
      let rest = parse_json_lines (suc n) lines in
      if f.is_blank line then rest else elim (f.loads_line line) [
        | none ↦ failed (invalid_line n)
        | some i ↦ on_done rest λ items. done (i ∷ items)
      ]

  unfoldable pub parse_json_document : String → Outcome (TextField × TextField × List (RawItem V))
  parse_json_document t = elim (f.loads t) [
    | not_json ↦ failed invalid_document
    | no_container ↦ failed not_a_dataset
    | array items ↦ done (no_text, no_text, items)
    | mapping fields items name description ↦ elim items [
      | items_list xs ↦ done (name, description, xs)
      | items_other ↦ failed items_not_a_list
      | no_items_field ↦
          if is_some (lookup "input" fields)
          then done (no_text, no_text, object fields ∷ [])
          else failed not_a_dataset
    ]
  ]

  -- `id` stands for `external_id` where that is missing.
  abbrev normalized : Dict V → Dict V
  normalized fields = elim (lookup "external_id" fields) [
    | some v ↦ fields
    | none ↦ elim (lookup "id" fields) [
      | none ↦ fields
      | some v ↦ insert "external_id" v (erase "id" fields)
    ]
  ]

  unfoldable pub validate_item : ℕ → RawItem V → Outcome DatasetItemCreate
  validate_item position no_object = failed (item_not_an_object position)
  validate_item position (object fields) = elim (f.model_validate (normalized fields)) [
    | none ↦ failed (invalid_item position)
    | some i ↦ done i
  ]

  unfoldable pub validate_items : ℕ → List (RawItem V) → Outcome (List DatasetItemCreate)
  unfolding validate_item
  validate_items position [] = done []
  validate_items position (x ∷ xs) =
      let rest = validate_items (suc position) xs in
      on_done (validate_item position x) λ i. on_done rest λ items. done (i ∷ items)

  abbrev pub external_ids : List DatasetItemCreate → List String
  external_ids = map (λ (i : DatasetItemCreate). i.external_id)

  abbrev pub has_duplicate : List String → Bool
  has_duplicate ids = any (λ s. ltb 1 (count_id s ids)) ids

  -- The checks on the items, and the name and the description at last.
  unfoldable pub check_items :
      TextField × TextField × List (RawItem V) → Outcome ParsedDatasetImport
  unfolding validate_items
  check_items (name, description, raw_items) =
      if length raw_items == 0
      then failed no_items
      else if ltb max_dataset_import_items (length raw_items)
      then failed too_many_items
      else on_done (validate_items 1 raw_items) λ items.
        if has_duplicate (external_ids items)
        then failed duplicate_ids
        else on_done (optional_string name) λ n.
          on_done (optional_string description)
            λ d. done (record { name = n; description = d; items = items })

  unfoldable pub parse_dataset_file : String → List ℕ → Outcome ParsedDatasetImport
  unfolding parse_json_lines parse_json_document check_items
  parse_dataset_file filename content =
      let extension = f.suffix filename in
      let is_lines = str_eq extension ".jsonl" || str_eq extension ".ndjson" in
      if not (str_eq extension ".json" || is_lines)
      then failed unsupported_extension
      else if length content == 0
      then failed empty_file
      else if ltb max_dataset_file_bytes (length content)
      then failed too_large
      else elim (f.decode content) [
        | none ↦ failed not_utf8
        | some t ↦
            if is_lines
            then on_done (parse_json_lines 1 (f.splitlines t))
                (λ items. check_items (no_text, no_text, items))
            else on_done (parse_json_document t) check_items
      ]

  unfoldable pub default_dataset_name : String → String
  default_dataset_name filename =
      if str_eq (f.stem filename) "" then "Imported dataset" else f.stem filename
