-- ===== src/Evals/Models.antt =====
-- evals/models.py. `F` is the type of Python's floats, of which nothing is assumed here. Names and
-- ids are texts that the code compares; what the code reads character by character (prompts,
-- answers, keywords) is a list of code points.
use llm_evaluation_platform.Common.{ℕ, String, Option, List}

abbrev pub Text : Type 0
Text = List ℕ

pub record DatasetItem : Type 0 where
  pub id : String
  pub input : Text
  pub expected_output : Text
  pub keywords : List Text

pub record Variant (F : Type 0) : Type 0 where
  pub name : String
  pub model : String
  pub provider : String
  pub temperature : F
  pub max_tokens : Option ℕ
  pub system_prompt : Option Text
  pub timeout_seconds : F
  pub max_retries : ℕ
  pub api_key : Option String
  pub api_base : Option String

pub record GenerationResponse (F : Type 0) : Type 0 where
  pub output : Text
  pub input_tokens : Option ℕ
  pub output_tokens : Option ℕ
  pub total_tokens : Option ℕ
  pub estimated_cost : Option F
  pub retry_count : ℕ

pub record MetricScores (F : Type 0) : Type 0 where
  pub exact_match : F
  pub normalized_exact_match : F
  pub keyword_score : F

pub record EvaluationResult (F : Type 0) : Type 0 where
  pub item_id : String
  pub variant_name : String
  pub model : String
  pub provider : String
  pub input : Text
  pub expected_output : Text
  pub output : Option Text
  pub latency_ms : F
  pub metrics : Option (MetricScores F)
  pub input_tokens : Option ℕ
  pub output_tokens : Option ℕ
  pub total_tokens : Option ℕ
  pub estimated_cost : Option F
  pub retry_count : ℕ
  pub error : Option String

-- The float operations that the code uses.
pub record Floats : Type 1 where
  pub F : Type 0
  pub of_ℕ : ℕ → F
  pub add : F → F → F
  -- division by a positive integer
  pub div : F → ℕ → F

-- `MetricScores.quality`
unfoldable pub quality : (fl : Floats) → MetricScores fl.F → fl.F
quality fl m = fl.div (fl.add (fl.add m.exact_match m.normalized_exact_match) m.keyword_score) 3
