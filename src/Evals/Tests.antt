-- ===== src/Evals/Tests.antt =====
-- Runs of the evaluation on small inputs, and the theorems at such inputs.
use llm_evaluation_platform.Common.{
  ℕ, zero, suc, ◌+◌, ◌*◌, ◌/◌, ◌<◌, String, ◌≡◌, refl, Bool, true, false, ◌&&◌, ◌||◌, Option, none,
  some, List, [], ◌∷◌, map, arith, leb, ◌==◌, if◌then◌else◌, length, any,
}
use llm_evaluation_platform.Evals.Models.{
  Text, DatasetItem, Variant, MetricScores, EvaluationResult, Floats,
}
use llm_evaluation_platform.Evals.Metrics.{
  codes, text_eq, strip, lstrip, rstrip, collapse, normalize_text, exact_match,
  normalized_exact_match, calculate_metrics, is_punctuation,
}
use llm_evaluation_platform.Evals.Metrics.Normal.{
  IsCollapsed, HasNoPunctuation, normalize_text_shape,
}
use llm_evaluation_platform.Evals.Provider.{
  text, Completion, Attempt, returned, raised, generate, generate_loop, attempt,
  to_generation_response, is_retryable, error_message, Outcome, response,
}
use llm_evaluation_platform.Evals.Provider.Retries.{Stops, generate-Stops}
use llm_evaluation_platform.Evals.Runner.{
  answered, failed, evaluate_one, Step, ok, results, run_tasks, collect,
}
use llm_evaluation_platform.Evals.Runner.Order.{results_in_order}
use llm_evaluation_platform.Evals.Runner.Summary.{total, summarize_results, summaries_cover_results}

-- Integers in place of floats.
abbrev fl : Floats
fl = record { F = ℕ; of_ℕ = λ n. n; add = λ m n. m + n; div = λ m n. m / n }

abbrev is_space : ℕ → Bool
is_space c = c == 32 || c == 9

abbrev lower_char : ℕ → ℕ
lower_char c = if leb 65 c && leb c 90 then c + 32 else c

abbrev lower : Text → Text
lower t = map lower_char t

abbrev answer : Text
answer = codes " Paris,  of course! "

normal_answer : normalize_text is_space lower answer ≡ codes "paris of course"
unfolding normalize_text strip lstrip rstrip collapse is_punctuation
normal_answer = refl

normalize_text_shape_example :
    let n = normalize_text is_space lower answer in
    HasNoPunctuation is_space n × IsCollapsed is_space false n × (strip is_space n ≡ n)
normalize_text_shape_example = normalize_text_shape is_space lower refl answer

-- The answers differ as they stand, and agree once normalised.
scores :
    (exact_match is_space lower fl answer (codes "paris of course") ≡ 0)
    × (normalized_exact_match is_space lower fl answer (codes "paris of course") ≡ 1)
unfolding exact_match normalized_exact_match text_eq normalize_text strip lstrip rstrip collapse
    is_punctuation
scores = (refl, refl)

abbrev keywords : List Text
keywords = codes "Paris" ∷ codes "London" ∷ []

abbrev variant : String → Variant ℕ
variant name = record {
  name = name;
  model = "m";
  provider = "openai";
  temperature = 0;
  max_tokens = none;
  system_prompt = none;
  timeout_seconds = 30;
  max_retries = 2;
  api_key = some "key";
  api_base = none;
}

-- A provider that times out once and then answers.
abbrev completion : ℕ → Attempt
completion zero = raised (record { type_name = "Timeout"; message = "slow"; transient = false })
completion (suc n) = returned (record { choices = some (text (codes "Paris")) ∷ []; usage = none })

abbrev replace : String → String → String → String
replace message key with = message

abbrev cost : Completion → Option ℕ
cost c = none

abbrev generated : Option (Outcome ℕ × List ℕ)
generated = some (
  response (record {
    output = codes "Paris";
    input_tokens = none;
    output_tokens = none;
    total_tokens = none;
    estimated_cost = none;
    retry_count = 1;
  }),
  1 ∷ [],
)

second_attempt : generate is_space replace cost completion (variant "v") ≡ generated
unfolding generate generate_loop attempt to_generation_response is_retryable error_message
second_attempt = refl

generate-Stops_example :
    Stops is_space replace cost completion
      (variant "v")
      0
      []
      (generate is_space replace cost completion (variant "v"))
generate-Stops_example = generate-Stops is_space replace cost completion (variant "v")

abbrev double : ℕ → ℕ
double n = n * 2

-- A callback that counts the results and never raises.
abbrev on_result : ℕ → ℕ → Step ℕ String
on_result r s = ok (s + 1)

abbrev tasks : List ℕ
tasks = 5 ∷ 6 ∷ []

collects : run_tasks double on_result 2 tasks (1 ∷ 0 ∷ []) 0 ≡ results (10 ∷ 12 ∷ []) 2
unfolding run_tasks collect
collects = refl

covers : (j : ℕ) → j < length tasks → any (λ i. i == j) (1 ∷ 0 ∷ []) ≡ true
covers zero h = refl
covers (suc zero) h = refl
covers (suc (suc j)) h = absurd (omega arith)

results_in_order_example : 10 ∷ 12 ∷ [] ≡ map double tasks
results_in_order_example =
    results_in_order double on_result 2 tasks (1 ∷ 0 ∷ []) 0 2 (10 ∷ 12 ∷ []) covers collects

abbrev item : String → DatasetItem
item id = record { id = id; input = codes "?"; expected_output = codes "Paris"; keywords = [] }

abbrev items : List DatasetItem
items = item "a" ∷ item "b" ∷ []

abbrev variants : List (Variant ℕ)
variants = variant "v" ∷ variant "w" ∷ []

abbrev skipped : List (String × String)
skipped = ("a", "w") ∷ []

abbrev metrics : Text → Text → List Text → MetricScores ℕ
metrics = calculate_metrics is_space lower fl

abbrev all_results : List (EvaluationResult ℕ)
all_results =
    evaluate_one metrics (item "a") (variant "v") (failed "Timeout" "slow" (some 2)) 7
    ∷ evaluate_one metrics (item "a") (variant "w")
        (answered (record {
          output = codes "Paris";
          input_tokens = some 3;
          output_tokens = some 1;
          total_tokens = some 4;
          estimated_cost = none;
          retry_count = 0;
        }))
        9
    ∷ []

summaries_cover_results_example :
    total (λ s. s.result_count) (summarize_results fl all_results variants) ≡ 2
unfolding evaluate_one
summaries_cover_results_example = summaries_cover_results fl all_results variants (refl, (refl, tt))
