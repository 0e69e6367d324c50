-- ===== src/Evals/Provider/Retries.antt =====
-- The retry loop: it ends within its fuel, and it stops at the first attempt that answers, that
-- fails for good, or that is the last one allowed.
use mathlib.Core.List.{append-nil, append_assoc}
use llm_evaluation_platform.Common.{
  ℕ, zero, suc, ◌+◌, ◌≤◌, ◌<◌, String, ◌≡◌, refl, ◌⊎◌, inl, inr, Bool, true, false, ◌||◌, not,
  Option, some, List, [], ◌∷◌, ◌++◌, arith, leb, Bool-cases,
}
use llm_evaluation_platform.Evals.Models.{Variant, GenerationResponse}
use llm_evaluation_platform.Evals.Provider.{
  Exception, Completion, Attempt, Outcome, response, provider_error, is_retryable, attempt,
  error_message, delay_seconds, generate_loop, generate,
}

-- The waits before the attempts `from`, …, `from + n - 1` are repeated.
unfoldable pub delays : ℕ → ℕ → List ℕ
delays from zero = []
delays from (suc n) = delay_seconds from ∷ delays (from + 1) n

abbrev fails_for_now : {A : Type 0} → Exception ⊎ A → Bool
fails_for_now (inl e) = is_retryable e
fails_for_now (inr _) = false

module _ {F : Type 0} (is_space : ℕ → Bool) (replace : String → String → String → String)
    (cost : Completion → Option F) (completion : ℕ → Attempt) (variant : Variant F) where
  abbrev pub try_at : ℕ → Exception ⊎ GenerationResponse F
  try_at k = attempt is_space cost (completion k) k

  -- Attempts `from`, …, `from + n - 1` all failed in a way that is worth another try.
  abbrev pub AllTransient : ℕ → ℕ → Type 0
  AllTransient from zero = Unit
  AllTransient from (suc n) = (fails_for_now (try_at from) ≡ true) × AllTransient (from + 1) n

  -- How the loop ends at attempt `k`: with the answer, or with an error that names `k` as the number
  -- of retries, if the error is final or no retry is left.
  pub data Ends (k : ℕ) : Outcome F → Type 0 where
    answered : (r : GenerationResponse F) → try_at k ≡ inr r → Ends k (response r)
    gave_up :
        (e : Exception)
        → try_at k ≡ inl e
        → (leb variant.max_retries k || not (is_retryable e)) ≡ true
        → Ends k (provider_error (error_message replace variant.api_key e) k)

  -- The loop made `retries` retries from attempt `from` on and ended at attempt `last`.
  pub record Stops (from : ℕ) (slept : List ℕ) (result : Option (Outcome F × List ℕ)) : Type 0 where
    pub retries : ℕ
    pub last : ℕ
    pub outcome : Outcome F
    pub last_is : last ≡ from + retries
    pub result_is : result ≡ some (outcome, slept ++ delays from retries)
    pub within : last ≤ variant.max_retries
    pub transient : AllTransient from retries
    pub ending : Ends last outcome

  loop_step :
      (fuel from : ℕ) (slept : List ℕ) (r : Exception ⊎ GenerationResponse F)
      → from ≤ variant.max_retries
      → try_at from ≡ r
      → ((from < variant.max_retries)
          → Stops (from + 1) (slept ++ delay_seconds from ∷ []) (
              generate_loop is_space replace cost completion variant fuel
                (from + 1)
                (slept ++ delay_seconds from ∷ [])))
      → Stops from slept
          (generate_loop is_space replace cost completion variant (suc fuel) from slept)
  unfolding generate_loop delays
  loop_step fuel from slept (inr r) p e ih = record {
    retries = 0;
    last = from;
    outcome = response r;
    last_is = omega arith;
    result_is = ground (arith, append-nil slept);
    within = p;
    transient = tt;
    ending = answered r e;
  }
  loop_step fuel from slept (inl x) p e ih =
      elim (Bool-cases (leb variant.max_retries from || not (is_retryable x))) [
        | inl stop ↦ record {
          retries = 0;
          last = from;
          outcome = provider_error (error_message replace variant.api_key x) from;
          last_is = omega arith;
          result_is = ground (arith, append-nil slept);
          within = p;
          transient = tt;
          ending = gave_up x e stop;
        }
        | inr more ↦
            let rest = ih (ground arith) in
            record {
              retries = suc rest.retries;
              last = rest.last;
              outcome = rest.outcome;
              last_is = omega (arith, rest.last_is);
              result_is = ground (
                arith,
                rest.result_is,
                append_assoc slept (delay_seconds from ∷ []) (delays (from + 1) rest.retries),
              );
              within = rest.within;
              transient = (rw e (ground arith), rest.transient);
              ending = rest.ending;
            }
      ]

  loop-Stops :
      (fuel from : ℕ) (slept : List ℕ)
      → variant.max_retries < from + fuel
      → from ≤ variant.max_retries
      → Stops from slept (generate_loop is_space replace cost completion variant fuel from slept)
  loop-Stops zero from slept h p = absurd (omega arith)
  loop-Stops (suc fuel) from slept h p = loop_step fuel from slept (try_at from) p refl (λ q.
      loop-Stops fuel (from + 1) (slept ++ delay_seconds from ∷ []) (omega arith) (omega arith))

  -- `generate` always ends. It makes some number of retries, at most `max_retries`, each after an
  -- attempt that failed in a retryable way and after a wait of 1, 2, 4 and then 8 seconds; it ends
  -- with the answer of its last attempt, or with that attempt's error if the error is final or no
  -- retry is left, and reports that number.
  pub generate-Stops : Stops 0 [] (generate is_space replace cost completion variant)
  unfolding generate
  generate-Stops = loop-Stops (suc variant.max_retries) 0 [] (omega arith) (omega arith)
