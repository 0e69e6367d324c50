-- ===== src/Evals/Provider.antt =====
-- evals/providers.py: `LiteLLMProvider.generate`, the retry loop around one completion.
-- LiteLLM is a parameter: `completion k` is what its call number `k` (from 0) did, and `cost` what
-- its price function returned. The sleeps are listed as they are made.
pub mod Retries
use llm_evaluation_platform.Common.{
  ℕ, zero, suc, ◌+◌, ◌-◌, ◌*◌, ◌/◌, ◌%◌, ◌^◌, ◌≤◌, ◌<◌, min, max, String, ◌≡◌, refl, sym, ap, ◌∙◌,
  ◌≢◌, ◌↔◌, ◌⊎◌, inl, inr, Bool, true, false, ◌&&◌, ◌||◌, not, Option, none, some, List, [], ◌∷◌,
  ◌++◌, map, arith, eq_iff, ltb, leb, ◌==◌, str_eq, if◌then◌else◌, is_none, is_some, Bool-cases,
  Option-cases, &&-eq-true, ==_iff, length, filter, any, all, get_elem?, take, drop, All,
  length-append, filter-append, length-filter-le, length-take-le,
}
use Prim.Native.String.{◌++◌ as str_append}
use llm_evaluation_platform.Evals.Models.{Text, Variant, GenerationResponse}

-- An exception: what `isinstance` and `type(exc).__name__` tell of it, and `str(exc)`.
pub record Exception : Type 0 where
  pub type_name : String
  pub message : String
  -- `isinstance(exc, (TimeoutError, ConnectionError, InvalidProviderResponseError))`
  pub transient : Bool

-- A field of a response: absent, a text, or a value of another type.
pub data Content : Type 0 where
  absent other : Content
  text : Text → Content

pub record Usage : Type 0 where
  pub prompt_tokens : Option ℕ
  pub completion_tokens : Option ℕ
  pub total_tokens : Option ℕ

-- A completion of LiteLLM: the message content of each choice (`none` without a message), and the
-- usage, if any.
pub record Completion : Type 0 where
  pub choices : List (Option Content)
  pub usage : Option Usage

pub data Attempt : Type 0 where
  returned : Completion → Attempt
  raised : Exception → Attempt

pub record Message : Type 0 where
  pub role : String
  pub content : Text

-- `_build_messages`: an empty system prompt is left out.
unfoldable pub build_messages : Text → Option Text → List Message
build_messages prompt none = record { role = "user"; content = prompt } ∷ []
build_messages prompt (some []) = record { role = "user"; content = prompt } ∷ []
build_messages prompt (some (c ∷ cs)) =
    record { role = "system"; content = c ∷ cs } ∷ record { role = "user"; content = prompt } ∷ []

abbrev pub retryable_names : List String
retryable_names =
    "APIConnectionError" ∷ "APITimeoutError" ∷ "InternalServerError" ∷ "RateLimitError"
    ∷ "ServiceUnavailableError" ∷ "Timeout" ∷ []

unfoldable pub is_retryable : Exception → Bool
is_retryable e = e.transient || any (λ n. str_eq n e.type_name) retryable_names

abbrev pub invalid_response : String → Exception
invalid_response m = record {
  type_name = "InvalidProviderResponseError";
  message = m;
  transient = true;
}

-- `min(2**retry_count, 8)`
abbrev pub delay_seconds : ℕ → ℕ
delay_seconds retry_count = min (2 ^ retry_count) 8

pub data Outcome (F : Type 0) : Type 0 where
  response : GenerationResponse F → Outcome F
  -- `ProviderExecutionError`, with its message and retry count
  provider_error : String → ℕ → Outcome F

-- The text of the first choice, or `InvalidProviderResponseError`.
abbrev pub first_text : (ℕ → Bool) → List (Option Content) → Exception ⊎ Text
first_text is_space [] = inl (invalid_response "Response contains no choices")
first_text is_space (some (text t) ∷ _) =
    if all is_space t then inl (invalid_response "Response contains no assistant text") else inr t
first_text is_space (_ ∷ _) = inl (invalid_response "Response contains no assistant text")

abbrev pub tokens : (Usage → Option ℕ) → Option Usage → Option ℕ
tokens field none = none
tokens field (some u) = field u

-- The message of the error, with the key blanked; `replace` is `str.replace`.
unfoldable pub error_message :
    (String → String → String → String) → Option String → Exception → String
error_message replace api_key e =
    let message = str_append e.type_name (str_append ": " e.message) in
    elim api_key [ none ↦ message | some key ↦ replace message key "[Filtered]" ]

module _ {F : Type 0} where
  -- `_to_generation_response`; `cost` is `none` where the price function raises.
  unfoldable pub to_generation_response :
      (ℕ → Bool) → (Completion → Option F) → Completion → ℕ → Exception ⊎ GenerationResponse F
  to_generation_response is_space cost c retry_count = elim (first_text is_space c.choices) [
    | inl e ↦ inl e
    | inr output ↦ inr (record {
      output = output;
      input_tokens = tokens (λ u. u.prompt_tokens) c.usage;
      output_tokens = tokens (λ u. u.completion_tokens) c.usage;
      total_tokens = tokens (λ u. u.total_tokens) c.usage;
      estimated_cost = cost c;
      retry_count = retry_count;
    })
  ]

  -- The body of the `try`.
  unfoldable pub attempt :
      (ℕ → Bool) → (Completion → Option F) → Attempt → ℕ → Exception ⊎ GenerationResponse F
  unfolding to_generation_response
  attempt is_space cost (returned c) retry_count =
      to_generation_response is_space cost c retry_count
  attempt is_space cost (raised e) retry_count = inl e

  module _ (is_space : ℕ → Bool) (replace : String → String → String → String)
      (cost : Completion → Option F) (completion : ℕ → Attempt) (variant : Variant F) where
    -- `while True`, with fuel: `none` means that the fuel ran out.
    unfoldable pub generate_loop : ℕ → ℕ → List ℕ → Option (Outcome F × List ℕ)
    generate_loop zero retry_count slept = none
    generate_loop (suc fuel) retry_count slept =
        let retry =
          generate_loop fuel (retry_count + 1) (slept ++ delay_seconds retry_count ∷ []) in
        elim (attempt is_space cost (completion retry_count) retry_count) [
          | inr r ↦ some (response r, slept)
          | inl e ↦
              if leb variant.max_retries retry_count || not (is_retryable e)
              then some
                  (provider_error (error_message replace variant.api_key e) retry_count, slept)
              else retry
        ]

    -- At most `max_retries + 1` rounds are made.
    unfoldable pub generate : Option (Outcome F × List ℕ)
    unfolding generate_loop
    generate = generate_loop (suc variant.max_retries) 0 []
