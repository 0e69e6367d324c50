-- ===== src/Catalog/Requests.antt =====
-- The requests for a provider's list of models: `_litellm_provider`, `_model_request` and
-- `_live_models` of backend/services/model_catalog.py. URLs and API bases are lists of code points.
use llm_evaluation_platform.Common.{
  String, ◌≡◌, refl, ◌⊎◌, inl, inr, Bool, true, false, ◌&&◌, ◌||◌, not, Option, none, some, List,
  [], ◌∷◌, ◌++◌, arith, eq_iff, ◌==◌, str_eq, if◌then◌else◌, Bool-cases,
}
use Prim.Native.String.{◌++◌ as str_append}
use mathlib.Core.List.{append_assoc}
use llm_evaluation_platform.Evals.Models.{Text}
use llm_evaluation_platform.Evals.Metrics.{codes, text_eq, rstrip}
use llm_evaluation_platform.Evals.Metrics.Scores.{text_eq_iff}
use llm_evaluation_platform.Common.Dict.{Dict, lookup}
use llm_evaluation_platform.Catalog.Names.{Value, Document, model_ids}

unfoldable pub litellm_provider : String → String
litellm_provider provider =
    if str_eq provider "custom"
    then "openai"
    else if str_eq provider "cohere"
    then "cohere_chat"
    else provider

abbrev pub openai_compatible_model_urls : Dict String
openai_compatible_model_urls =
    ("groq", "https://api.groq.com/openai/v1/models")
    ∷ ("openai", "https://api.openai.com/v1/models")
    ∷ ("openrouter", "https://openrouter.ai/api/v1/models")
    ∷ ("mistral", "https://api.mistral.ai/v1/models")
    ∷ ("deepseek", "https://api.deepseek.com/models")
    ∷ ("xai", "https://api.x.ai/v1/models")
    ∷ ("together_ai", "https://api.together.xyz/v1/models")
    ∷ ("fireworks_ai", "https://api.fireworks.ai/inference/v1/models")
    ∷ ("cerebras", "https://api.cerebras.ai/v1/models")
    ∷ ("sambanova", "https://api.sambanova.ai/v1/models")
    ∷ []

-- `str.endswith`
unfoldable pub ends_with : Text → Text → Bool
unfolding text_eq
ends_with s [] = text_eq s []
ends_with s (c ∷ t) = text_eq s (c ∷ t) || ends_with s t

-- `str.rstrip("/")`
abbrev pub strip_slashes : Text → Text
strip_slashes = rstrip (λ c. c == 47)

abbrev pub custom_url : Text → Text
custom_url normalized_base =
    if ends_with (codes "/v1") normalized_base
    then normalized_base ++ codes "/models"
    else normalized_base ++ codes "/v1/models"

-- A URL and its headers.
abbrev pub ModelRequest : Type 0
ModelRequest = Text × List (String × String)

abbrev pub bearer : String → List (String × String)
bearer api_key = ("Authorization", str_append "Bearer " api_key) ∷ []

abbrev pub custom_request : String → Option Text → Option ModelRequest
custom_request api_key none = none
custom_request api_key (some []) = none
custom_request api_key (some (c ∷ base)) =
    some (custom_url (strip_slashes (c ∷ base)), bearer api_key)

unfoldable pub model_request : String → String → Option Text → Option ModelRequest
unfolding ends_with rstrip lookup
model_request provider api_key api_base =
    if str_eq provider "custom"
    then custom_request api_key api_base
    else if str_eq provider "gemini"
    then some (
      codes "https://generativelanguage.googleapis.com/v1beta/models",
      ("x-goog-api-key", api_key) ∷ [],
    )
    else if str_eq provider "anthropic"
    then some (
      codes "https://api.anthropic.com/v1/models",
      ("x-api-key", api_key) ∷ ("anthropic-version", "2023-06-01") ∷ [],
    )
    else if str_eq provider "cohere"
    then some (codes "https://api.cohere.com/v1/models", bearer api_key)
    else elim (lookup provider openai_compatible_model_urls) [
      | none ↦ none
      | some url ↦ some (codes url, bearer api_key)
    ]

-- `validate_provider_endpoint` accepts or raises; the request and the reading of its JSON answer give a
-- document, or raise, in which case the result here is `none`.
unfoldable pub live_models :
    (Text → Bool)
    → (ModelRequest → Option (Option Document))
    → String
    → Option String
    → Option Text
    → Option (List Value)
unfolding model_request
live_models is_valid_endpoint fetch provider none api_base = some []
live_models is_valid_endpoint fetch provider (some api_key) api_base =
    if str_eq api_key "" then some [] else elim (model_request provider api_key api_base) [
      | none ↦ some []
      | some request ↦
          if str_eq provider "custom" && not (is_valid_endpoint request.0)
          then none
          else elim (fetch request) [ none ↦ none | some document ↦ some (model_ids document) ]
    ]

ends_with-split : (s t : Text) → ends_with s t ≡ true → (a : Text) × (t ≡ a ++ s)
unfolding ends_with
ends_with-split s [] h = ([], ground (arith, text_eq_iff s []))
ends_with-split s (c ∷ t) h = elim (Bool-cases (text_eq s (c ∷ t))) [
  | inl q ↦ ([], ground (arith, text_eq_iff s (c ∷ t)))
  | inr q ↦ let (a, e) = ends_with-split s t (ground arith) in (c ∷ a, ground arith)
]

custom_url_ending : (base : Text) → (a : Text) × (custom_url base ≡ a ++ codes "/v1/models")
custom_url_ending base = elim (Bool-cases (ends_with (codes "/v1") base)) [
  | inl q ↦
      let (a, e) = ends_with-split (codes "/v1") base q in
      (a, ground (arith, e, append_assoc a (codes "/v1") (codes "/models")))
  | inr q ↦ (base, ground arith)
]

-- The API base is read for a custom provider only, and then the request goes to a path that ends in
-- "/v1/models", whether the base ends in "/v1" or not.
pub model_request_url :
    (provider api_key : String) (base base' : Option Text) (r : ModelRequest)
    → model_request provider api_key base ≡ some r
    → (model_request provider api_key base' ≡ some r)
      ⊎ ((provider ≡ "custom") × ((a : Text) × (r.0 ≡ a ++ codes "/v1/models")))
unfolding model_request
model_request_url provider api_key base base' r e = elim (Bool-cases (str_eq provider "custom")) [
  | inr q ↦ inl (ground (arith, e, q))
  | inl q ↦ inr ((eq_iff provider "custom").0 q, custom_ending base (ground (arith, e, q)))
]
  where
    custom_ending :
        (base : Option Text)
        → custom_request api_key base ≡ some r
        → (a : Text) × (r.0 ≡ a ++ codes "/v1/models")
    custom_ending none h = absurd (ground arith)
    custom_ending (some []) h = absurd (ground arith)
    custom_ending (some (c ∷ b)) h =
        let (a, u) = custom_url_ending (strip_slashes (c ∷ b)) in (a, ground (arith, u, h))

-- A custom endpoint that is not valid is never asked: whatever the answer would have been, the loader
-- raises, or has nothing to ask for.
live_models_guard :
    (is_valid_endpoint : Text → Bool) (fetch fetch' : ModelRequest → Option (Option Document))
    (api_key : Option String) (base : Option Text)
    → ((url : Text) → is_valid_endpoint url ≡ false)
    → live_models is_valid_endpoint fetch "custom" api_key base
      ≡ live_models is_valid_endpoint fetch' "custom" api_key base
unfolding live_models
live_models_guard valid fetch fetch' none base h = refl
live_models_guard valid fetch fetch' (some key) base h =
    guard (model_request "custom" key base) refl
  where
    guard :
        (o : Option ModelRequest)
        → model_request "custom" key base ≡ o
        → live_models valid fetch "custom" (some key) base
          ≡ live_models valid fetch' "custom" (some key) base
    guard none e = ground (arith, e)
    guard (some r) e = ground (arith, e, h r.0, eq_iff "custom" "custom")
