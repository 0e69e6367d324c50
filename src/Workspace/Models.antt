-- ===== src/Workspace/Models.antt =====
-- The tables of a user's work in backend/db/models.py. A UUID is a number, of which the code only
-- tests equality; a float is a text that the code only passes on. A table lists its rows in the order
-- of `created_at` and `id`; the times of creation and update are left out, but for the credentials'.
use llm_evaluation_platform.Common.{ℕ, String, Option, List}
use llm_evaluation_platform.Runs.Models.{EvaluationRun}

pub record Project : Type 0 where
  pub id : ℕ
  pub owner_id : ℕ
  pub name : String
  pub description : Option String

pub record Dataset : Type 0 where
  pub id : ℕ
  pub project_id : ℕ
  pub name : String
  pub description : Option String

pub record DatasetItem : Type 0 where
  pub id : ℕ
  pub dataset_id : ℕ
  pub external_id : String
  pub input : String
  pub expected_output : String
  pub keywords : List String

pub record Variant : Type 0 where
  pub id : ℕ
  pub project_id : ℕ
  pub credential_id : Option ℕ
  pub name : String
  pub model : String
  pub provider : String
  pub temperature : String
  pub max_tokens : Option ℕ
  pub system_prompt : Option String
  pub timeout_seconds : String
  pub max_retries : ℕ

pub data CredentialStatus : Type 0 where
  untested connected invalid : CredentialStatus

pub record ProviderCredential : Type 0 where
  pub id : ℕ
  pub user_id : ℕ
  pub provider : String
  pub name : String
  pub encrypted_payload : String
  pub key_hint : String
  pub status : CredentialStatus
  pub last_checked_at : Option ℕ
  pub last_used_at : Option ℕ
  pub updated_at : ℕ

-- A row of `evaluation_runs_variants`.
pub record RunVariantLink : Type 0 where
  pub run_id : ℕ
  pub variant_id : ℕ

-- A row of `evaluation_results`, by its keys.
pub record ResultKey : Type 0 where
  pub id : ℕ
  pub run_id : ℕ
  pub dataset_item_id : ℕ
  pub variant_id : ℕ

pub record Database : Type 0 where
  pub projects : List Project
  pub datasets : List Dataset
  pub dataset_items : List DatasetItem
  pub variants : List Variant
  pub credentials : List ProviderCredential
  pub runs : List EvaluationRun
  pub run_variants : List RunVariantLink
  pub results : List ResultKey
