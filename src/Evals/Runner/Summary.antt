-- ===== src/Evals/Runner/Summary.antt =====
-- `summarize_results` of evals/runner.py: one summary for each variant.
use llm_evaluation_platform.Common.{
  ℕ, ◌+◌, String, ◌≡◌, refl, ◌∙◌, Bool, Option, none, some, List, [], ◌∷◌, map, arith, str_eq,
  if◌then◌else◌, is_none, is_some, length, filter, All,
}
use llm_evaluation_platform.Evals.Models.{
  Text, DatasetItem, Variant, MetricScores, EvaluationResult, Floats, quality,
}
use llm_evaluation_platform.Evals.Runner.{Generated, answered, failed, evaluate_one}

pub record VariantSummary (F : Type 0) : Type 0 where
  pub variant_name : String
  pub result_count : ℕ
  pub average_exact_match : F
  pub average_normalized_exact_match : F
  pub average_keyword_score : F
  pub average_quality : F
  pub average_latency_ms : F
  pub total_input_tokens : ℕ
  pub total_output_tokens : ℕ
  pub total_tokens : ℕ
  pub total_estimated_cost : F
  pub total_retries : ℕ
  pub error_count : ℕ

-- `sum(f(x) for x in xs)` of integers.
abbrev pub total {ℓ} : {A : Type ℓ} → (A → ℕ) → List A → ℕ
total f [] = 0
total f (x ∷ xs) = f x + total f xs

-- `x or 0`
abbrev pub or_zero : Option ℕ → ℕ
or_zero none = 0
or_zero (some n) = n

module _ (fl : Floats) where
  open fl use {F, of_ℕ, add, div}

  -- `sum` of floats, from the left.
  unfoldable pub sum_from : F → List F → F
  sum_from acc [] = acc
  sum_from acc (x ∷ xs) = sum_from (add acc x) xs

  -- `sum(xs) / len(xs) if xs else 0.0`
  unfoldable pub average : List F → F
  unfolding sum_from
  average [] = of_ℕ 0
  average (x ∷ xs) = div (sum_from (of_ℕ 0) (x ∷ xs)) (length (x ∷ xs))

  abbrev pub cost_or_zero : Option F → F
  cost_or_zero none = of_ℕ 0
  cost_or_zero (some c) = c

  -- The metrics of the results that have them, `successful`.
  unfoldable pub successful : List (EvaluationResult F) → List (MetricScores F)
  successful [] = []
  successful (r ∷ rs) =
      let rest = successful rs in elim r.metrics [ none ↦ rest | some m ↦ m ∷ rest ]

  abbrev pub results_of : String → List (EvaluationResult F) → List (EvaluationResult F)
  results_of name = filter (λ r. str_eq r.variant_name name)

  unfoldable pub summarize_variant : List (EvaluationResult F) → Variant F → VariantSummary F
  unfolding successful average
  summarize_variant results variant =
      let mine = results_of variant.name results in
      let good = successful mine in
      record {
        variant_name = variant.name;
        result_count = length mine;
        average_exact_match = average (map (λ m. m.exact_match) good);
        average_normalized_exact_match = average (map (λ m. m.normalized_exact_match) good);
        average_keyword_score = average (map (λ m. m.keyword_score) good);
        average_quality = average (map (quality fl) good);
        average_latency_ms = average (map (λ r. r.latency_ms) mine);
        total_input_tokens = total (λ r. or_zero r.input_tokens) mine;
        total_output_tokens = total (λ r. or_zero r.output_tokens) mine;
        total_tokens = total (λ r. or_zero r.total_tokens) mine;
        total_estimated_cost = sum_from (of_ℕ 0) (map (λ r. cost_or_zero r.estimated_cost) mine);
        total_retries = total (λ r. r.retry_count) mine;
        error_count = total (λ r. if is_some r.error then 1 else 0) mine;
      }

  unfoldable pub summarize_results :
      List (EvaluationResult F) → List (Variant F) → List (VariantSummary F)
  unfolding summarize_variant
  summarize_results results [] = []
  summarize_results results (v ∷ vs) = summarize_variant results v ∷ summarize_results results vs

  -- A result as the runner makes it: an error, or metrics, and never both.
  abbrev pub IsRunnerResult : EvaluationResult F → Type 0
  IsRunnerResult r = is_none r.metrics ≡ is_some r.error

  pub evaluate_one-IsRunnerResult :
      (metrics : Text → Text → List Text → MetricScores F) (item : DatasetItem) (v : Variant F)
      (g : Generated F) (l : F)
      → IsRunnerResult (evaluate_one metrics item v g l)
  unfolding evaluate_one
  evaluate_one-IsRunnerResult metrics item v (answered g) l = refl
  evaluate_one-IsRunnerResult metrics item v (failed n m r) l = refl

  errors_and_successes :
      (rs : List (EvaluationResult F))
      → All IsRunnerResult rs
      → total (λ r. if is_some r.error then 1 else 0) rs + length (successful rs) ≡ length rs
  unfolding successful
  errors_and_successes [] h = omega arith
  errors_and_successes (r ∷ rs) h = ground (arith, errors_and_successes rs h.1, h.0)

  filter-All :
      (p : EvaluationResult F → Bool) (rs : List (EvaluationResult F))
      → All IsRunnerResult rs
      → All IsRunnerResult (filter p rs)
  filter-All p [] h = tt
  filter-All p (r ∷ rs) h = ground (arith, filter-All p rs h.1)

  -- Of the results that the runner made for a variant, the errors counted and the successes that are
  -- averaged over make up the whole count.
  pub summary_counts :
      (results : List (EvaluationResult F)) (v : Variant F)
      → All IsRunnerResult results
      → let s = summarize_variant results v in
        s.error_count + length (successful (results_of v.name results)) ≡ s.result_count
  unfolding summarize_variant
  summary_counts results v h =
      errors_and_successes (results_of v.name results)
        (filter-All (λ r. str_eq r.variant_name v.name) results h)

  -- The variants with the name of a result.
  abbrev pub named : EvaluationResult F → List (Variant F) → List (Variant F)
  named r = filter (λ v. str_eq r.variant_name v.name)

  abbrev count_by_variant : List (EvaluationResult F) → List (Variant F) → ℕ
  count_by_variant rs = total (λ v. length (results_of v.name rs))

  count-cons :
      (r : EvaluationResult F) (rs : List (EvaluationResult F)) (vs : List (Variant F))
      → count_by_variant (r ∷ rs) vs ≡ length (named r vs) + count_by_variant rs vs
  count-cons r rs [] = omega arith
  count-cons r rs (v ∷ vs) = ground (arith, count-cons r rs vs)

  count-nil : (vs : List (Variant F)) → count_by_variant [] vs ≡ 0
  count-nil [] = refl
  count-nil (v ∷ vs) = omega (arith, count-nil vs)

  count_everything :
      (rs : List (EvaluationResult F)) (vs : List (Variant F))
      → All (λ r. length (named r vs) ≡ 1) rs
      → count_by_variant rs vs ≡ length rs
  count_everything [] vs h = count-nil vs
  count_everything (r ∷ rs) vs h =
      omega (arith, count-cons r rs vs, count_everything rs vs h.1, h.0)

  total-summaries :
      (rs : List (EvaluationResult F)) (vs : List (Variant F))
      → total (λ s. s.result_count) (summarize_results rs vs) ≡ count_by_variant rs vs
  unfolding summarize_results
  total-summaries rs [] = refl
  total-summaries rs (v ∷ vs) = omega (arith, total-summaries rs vs)

  -- Where each result carries the name of exactly one variant, the summaries count every result
  -- once.
  pub summaries_cover_results :
      (rs : List (EvaluationResult F)) (vs : List (Variant F))
      → All (λ r. length (named r vs) ≡ 1) rs
      → total (λ s. s.result_count) (summarize_results rs vs) ≡ length rs
  summaries_cover_results rs vs h = total-summaries rs vs ∙ count_everything rs vs h
