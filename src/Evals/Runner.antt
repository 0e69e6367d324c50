-- ===== src/Evals/Runner.antt =====
-- evals/runner.py: the concurrent evaluation of every (item, variant) pair, and its summary.
-- The event loop decides in which order tasks finish: `as_completed` is the list of task numbers in
-- that order. What the tasks compute (the provider's answers and the latencies) is a function of the
-- task. The semaphore only delays tasks, so beyond the check of `concurrency` it is left out.
pub mod Order
pub mod Summary
use llm_evaluation_platform.Common.{
  ℕ, zero, suc, ◌+◌, ◌-◌, ◌*◌, ◌/◌, ◌%◌, ◌^◌, ◌≤◌, ◌<◌, min, max, String, ◌≡◌, refl, sym, ap, ◌∙◌,
  ◌≢◌, ◌↔◌, ◌⊎◌, inl, inr, Bool, true, false, ◌&&◌, ◌||◌, not, Option, none, some, List, [], ◌∷◌,
  ◌++◌, map, arith, eq_iff, ltb, leb, ◌==◌, str_eq, if◌then◌else◌, is_none, is_some, Bool-cases,
  Option-cases, &&-eq-true, ==_iff, length, filter, any, all, get_elem?, take, drop, All,
  length-append, filter-append, length-filter-le, length-take-le,
}
use Prim.Native.String.{◌++◌ as str_append}
use llm_evaluation_platform.Evals.Models.{
  Text, DatasetItem, Variant, GenerationResponse, MetricScores, EvaluationResult, Floats,
}

-- What `generate_function` did for one task: it answered, or raised an exception of this name and
-- text, whose attribute `retry_count`, if it has one, is the last field.
pub data Generated (F : Type 0) : Type 0 where
  answered : GenerationResponse F → Generated F
  failed : String → String → Option ℕ → Generated F

abbrev pub retries_or_zero : Option ℕ → ℕ
retries_or_zero none = 0
retries_or_zero (some n) = n

module _ {F : Type 0} where
  -- `_evaluate_one`; `metrics` is `calculate_metrics`.
  unfoldable pub evaluate_one :
      (Text → Text → List Text → MetricScores F)
      → DatasetItem
      → Variant F
      → Generated F
      → F
      → EvaluationResult F
  evaluate_one metrics item variant (answered g) latency_ms = record {
    item_id = item.id;
    variant_name = variant.name;
    model = variant.model;
    provider = variant.provider;
    input = item.input;
    expected_output = item.expected_output;
    output = some g.output;
    latency_ms = latency_ms;
    metrics = some (metrics g.output item.expected_output item.keywords);
    input_tokens = g.input_tokens;
    output_tokens = g.output_tokens;
    total_tokens = g.total_tokens;
    estimated_cost = g.estimated_cost;
    retry_count = g.retry_count;
    error = none;
  }
  evaluate_one metrics item variant (failed name message retry_count) latency_ms = record {
    item_id = item.id;
    variant_name = variant.name;
    model = variant.model;
    provider = variant.provider;
    input = item.input;
    expected_output = item.expected_output;
    output = none;
    latency_ms = latency_ms;
    metrics = none;
    input_tokens = none;
    output_tokens = none;
    total_tokens = none;
    estimated_cost = none;
    retry_count = retries_or_zero retry_count;
    error = some (str_append name (str_append ": " message));
  }

  -- `(item.id, variant.name) in skipped`
  abbrev pub is_skipped : List (String × String) → DatasetItem → Variant F → Bool
  is_skipped skipped item variant = any (λ p. str_eq p.0 item.id && str_eq p.1 variant.name) skipped

  -- One item with every variant that is not skipped.
  unfoldable pub pairs_of :
      List (String × String) → DatasetItem → List (Variant F) → List (DatasetItem × Variant F)
  pairs_of skipped item [] = []
  pairs_of skipped item (v ∷ vs) =
      let rest = pairs_of skipped item vs in
      if is_skipped skipped item v then rest else (item, v) ∷ rest

  unfoldable pub indexed_inputs :
      List (String × String) → List DatasetItem → List (Variant F) → List (DatasetItem × Variant F)
  unfolding pairs_of
  indexed_inputs skipped [] variants = []
  indexed_inputs skipped (item ∷ items) variants =
      pairs_of skipped item variants ++ indexed_inputs skipped items variants

-- `on_result`, on the caller's state: it returns, or raises.
pub data Step (S E : Type 0) : Type 0 where
  ok : S → Step S E
  raise : E → S → Step S E

-- `ordered_results[index] = result`, out of range it would raise, which no task number is.
abbrev pub set_slot {ℓ} : {R : Type ℓ} → List (Option R) → ℕ → R → List (Option R)
set_slot [] i r = []
set_slot (x ∷ xs) zero r = some r ∷ xs
set_slot (x ∷ xs) (suc i) r = x ∷ set_slot xs i r

-- `[result for result in ordered_results if result is not None]`
abbrev pub present {ℓ} : {R : Type ℓ} → List (Option R) → List R
present [] = []
present (none ∷ xs) = present xs
present (some r ∷ xs) = r ∷ present xs

abbrev pub no_slots {ℓ} : {T R : Type ℓ} → List T → List (Option R)
no_slots [] = []
no_slots (t ∷ ts) = none ∷ no_slots ts

-- How `run_evaluation` ends: with the results, with the callback's exception (the tasks that are not
-- finished are cancelled, and their results are lost), or with `ValueError`.
pub data Evaluated (R S E : Type 0) : Type 0 where
  results : List R → S → Evaluated R S E
  callback_raised : E → S → Evaluated R S E
  value_error : S → Evaluated R S E

module _ {T R S E : Type 0} (evaluate : T → R) (on_result : R → S → Step S E) where
  -- The loop over the finished tasks.
  unfoldable pub collect : List T → List ℕ → List (Option R) → S → Evaluated R S E
  collect tasks [] slots s = results (present slots) s
  collect tasks (i ∷ order) slots s = elim (get_elem? tasks i) [
    | none ↦ collect tasks order slots s
    | some t ↦ elim (on_result (evaluate t) s) [
      | ok s' ↦ collect tasks order (set_slot slots i (evaluate t)) s'
      | raise e s' ↦ callback_raised e s'
    ]
  ]

  -- `run_evaluation` on the tasks of its inputs.
  unfoldable pub run_tasks : ℕ → List T → List ℕ → S → Evaluated R S E
  unfolding collect
  run_tasks concurrency tasks as_completed s =
      if ltb concurrency 1 then value_error s else collect tasks as_completed (no_slots tasks) s

module _ {F S E : Type 0} (metrics : Text → Text → List Text → MetricScores F)
    (generated : DatasetItem × Variant F → Generated F) (latency : DatasetItem × Variant F → F)
    (on_result : EvaluationResult F → S → Step S E) where
  abbrev pub evaluate_task : DatasetItem × Variant F → EvaluationResult F
  evaluate_task (item, variant) =
      evaluate_one metrics item variant (generated (item, variant)) (latency (item, variant))

  unfoldable pub run_evaluation :
      List DatasetItem
      → List (Variant F)
      → ℕ
      → List (String × String)
      → List ℕ
      → S
      → Evaluated (EvaluationResult F) S E
  unfolding run_tasks indexed_inputs
  run_evaluation dataset variants concurrency skip_pairs as_completed s =
      run_tasks evaluate_task on_result concurrency (indexed_inputs skip_pairs dataset variants)
        as_completed s
