-- ===== src/Workspace/Schemas.antt =====
-- The payloads of backend/schemas.py, as the handlers get them. That a name has 1 to 200 characters,
-- and a number its range, is checked before.
use llm_evaluation_platform.Common.{
  ℕ, String, Bool, true, false, ◌||◌, Option, none, some, List, [], ◌∷◌, ◌==◌, any,
}

-- A field of a PATCH: not sent, sent as null, or sent with a value.
pub data Field (A : Type 0) : Type 0 where
  unset null : Field A
  value : A → Field A

abbrev pub is_null : {A : Type 0} → Field A → Bool
is_null null = true
is_null _ = false

-- `setattr` of a column that takes null, and of one that does not.
abbrev pub set_optional : {A : Type 0} → Field A → Option A → Option A
set_optional unset old = old
set_optional null old = none
set_optional (value a) old = some a

abbrev pub set : {A : Type 0} → Field A → A → A
set (value a) old = a
set _ old = old

-- `ProjectCreate` and `DatasetCreate`
pub record NamedCreate : Type 0 where
  pub name : String
  pub description : Option String

-- `ProjectUpdate` and `DatasetUpdate`
pub record NamedUpdate : Type 0 where
  pub name : Field String
  pub description : Field String

pub record DatasetItemCreate : Type 0 where
  pub external_id : String
  pub input : String
  pub expected_output : String
  pub keywords : List String

pub record DatasetItemUpdate : Type 0 where
  pub external_id : Field String
  pub input : Field String
  pub expected_output : Field String
  pub keywords : Field (List String)

pub record VariantCreate : Type 0 where
  pub name : String
  pub model : String
  pub provider : String
  pub credential_id : Option ℕ
  pub temperature : String
  pub max_tokens : Option ℕ
  pub system_prompt : Option String
  pub timeout_seconds : String
  pub max_retries : ℕ

pub record VariantUpdate : Type 0 where
  pub name : Field String
  pub model : Field String
  pub provider : Field String
  pub credential_id : Field ℕ
  pub temperature : Field String
  pub max_tokens : Field ℕ
  pub system_prompt : Field String
  pub timeout_seconds : Field String
  pub max_retries : Field ℕ

-- `reject_explicit_nulls` of each schema: whether a field that may not be null was sent as null.
unfoldable pub nulls_in_named : NamedUpdate → Bool
nulls_in_named p = is_null p.name

unfoldable pub nulls_in_item : DatasetItemUpdate → Bool
nulls_in_item p =
    is_null p.external_id || is_null p.input || is_null p.expected_output || is_null p.keywords

unfoldable pub nulls_in_variant : VariantUpdate → Bool
nulls_in_variant p =
    is_null p.name
    || is_null p.model
    || is_null p.provider
    || is_null p.temperature
    || is_null p.timeout_seconds
    || is_null p.max_retries

pub record EvaluationRunCreate : Type 0 where
  pub project_id : ℕ
  pub dataset_id : ℕ
  pub variant_ids : List ℕ
  pub concurrency : ℕ

-- `require_unique_variants`
unfoldable pub has_repeat : List ℕ → Bool
has_repeat [] = false
has_repeat (k ∷ ks) = any (λ j. j == k) ks || has_repeat ks
