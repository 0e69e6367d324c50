-- ===== src/Catalog/Names.antt =====
-- The names of models and providers: backend/provider_catalog.py and the functions of
-- backend/services/model_catalog.py that read a provider's answer. A text is a list of code points.
use llm_evaluation_platform.Common.{
  ℕ, ◌+◌, ◌≤◌, String, ◌≡◌, refl, Bool, true, false, ◌||◌, Option, none, some, List, [], ◌∷◌, ◌++◌,
  arith, ltb, str_eq, if◌then◌else◌, length, any, drop, length-append,
}
use Prim.Native.String.{◌++◌ as str_append}
use mathlib.Core.Path.{subst}
use llm_evaluation_platform.Evals.Models.{Text}
use llm_evaluation_platform.Evals.Metrics.{codes, begins_with, strip}

pub record ProviderDefinition : Type 0 where
  pub slug : String
  pub model_prefix : String
  pub supports_custom_base_url : Bool

abbrev plain : String → String → ProviderDefinition
plain slug model_prefix = record {
  slug = slug;
  model_prefix = model_prefix;
  supports_custom_base_url = false;
}

-- The labels and the placeholders are left out.
unfoldable pub provider_catalog : List ProviderDefinition
provider_catalog =
    plain "groq" "groq/"
    ∷ plain "openai" "openai/"
    ∷ plain "anthropic" "anthropic/"
    ∷ plain "gemini" "gemini/"
    ∷ plain "openrouter" "openrouter/"
    ∷ plain "mistral" "mistral/"
    ∷ plain "deepseek" "deepseek/"
    ∷ plain "xai" "xai/"
    ∷ plain "cohere" "cohere_chat/"
    ∷ plain "together_ai" "together_ai/"
    ∷ plain "fireworks_ai" "fireworks_ai/"
    ∷ plain "perplexity" "perplexity/"
    ∷ plain "cerebras" "cerebras/"
    ∷ plain "sambanova" "sambanova/"
    ∷ record { slug = "custom"; model_prefix = "openai/"; supports_custom_base_url = true }
    ∷ []

abbrev pub find_definition : String → List ProviderDefinition → Option ProviderDefinition
find_definition slug [] = none
find_definition slug (p ∷ ps) =
    let rest = find_definition slug ps in if str_eq p.slug slug then some p else rest

unfoldable pub get_provider_definition : String → Option ProviderDefinition
unfolding provider_catalog
get_provider_definition slug = find_definition slug provider_catalog

unfoldable pub prefix_of : String → Text
unfolding get_provider_definition
prefix_of provider = codes (elim (get_provider_definition provider) [
  | none ↦ str_append provider "/"
  | some p ↦ p.model_prefix
])

-- A value of a loader's list: a string, or something else.
pub data Value : Type 0 where
  str : Text → Value
  other : Value

-- `model.removeprefix("models/")`
abbrev pub remove_models : Text → Text
remove_models t = if begins_with (codes "models/") t then drop 7 t else t

abbrev pub is_empty_text : Text → Bool
is_empty_text [] = true
is_empty_text (c ∷ t) = false

abbrev pub is_refused : Text → Bool
is_refused m = is_empty_text m || ltb 300 (length m) || any (λ c. ltb c 32) m

-- The name of a text that was stripped, under a prefix.
unfoldable pub with_prefix : Text → Text → Option Text
with_prefix prefix m =
    if is_refused m then none else if begins_with prefix m then some m else some (prefix ++ m)

unfoldable pub normalize_model : (ℕ → Bool) → String → Value → Option Text
unfolding prefix_of with_prefix strip
normalize_model is_space provider other = none
normalize_model is_space provider (str value) =
    with_prefix (prefix_of provider) (remove_models (strip is_space value))

-- A parsed JSON document, as far as it is read.
pub record Record : Type 0 where
  -- `supportedGenerationMethods`, if it is a list
  pub supported_methods : Option (List String)
  -- the fields `id` and `name`; `none` is also a value that counts as false, but for the empty text
  pub id : Option Value
  pub name : Option Value

-- An element of the list: an object, or something else.
pub data Element : Type 0 where
  object : Record → Element
  no_object : Element

pub record Document : Type 0 where
  -- the field `data` and the field `models`, if they are lists
  pub data_field : Option (List Element)
  pub models_field : Option (List Element)

-- `record.get("id") or record.get("name")`
abbrev pub first_value : Option Value → Option Value → Option Value
first_value none name = name
first_value (some (str [])) name = name
first_value (some v) name = some v

abbrev pub generates : Record → Bool
generates r = elim r.supported_methods [
  | none ↦ true
  | some ms ↦ any (λ m. str_eq m "generateContent") ms
]

abbrev pub value_of : Option Value → List Value → List Value
value_of (some (str t)) rest = str t ∷ rest
value_of (some other) rest = rest
value_of none rest = rest

unfoldable pub ids : List Element → List Value
ids [] = []
ids (no_object ∷ rs) = ids rs
ids (object r ∷ rs) =
    let rest = ids rs in if generates r then value_of (first_value r.id r.name) rest else rest

-- `_model_ids`; `none` is a document that is no object.
unfoldable pub model_ids : Option Document → List Value
unfolding ids
model_ids none = []
model_ids (some d) = elim d.data_field [
  | some rs ↦ ids rs
  | none ↦ elim d.models_field [ some rs ↦ ids rs | none ↦ [] ]
]

begins_with_append : (p t : Text) → begins_with p (p ++ t) ≡ true
unfolding begins_with
begins_with_append [] t = refl
begins_with_append (c ∷ p) t = ground (arith, begins_with_append p t)

abbrev IsNamed : Text → Option Text → Type 0
IsNamed prefix none = Unit
IsNamed prefix (some m) = (begins_with prefix m ≡ true) × (length m ≤ length prefix + 300)

with_prefix-IsNamed : (prefix m : Text) → IsNamed prefix (with_prefix prefix m)
unfolding with_prefix
with_prefix-IsNamed prefix m = ground (arith, begins_with_append prefix m, length-append prefix m)

-- A normalised name carries its provider's prefix and is longer than that by at most 300 characters.
normalize_model_prefix :
    (is_space : ℕ → Bool) (provider : String) (v : Value) (m : Text)
    → normalize_model is_space provider v ≡ some m
    → (begins_with (prefix_of provider) m ≡ true) × (length m ≤ length (prefix_of provider) + 300)
unfolding normalize_model
normalize_model_prefix is_space provider other m e = cc
normalize_model_prefix is_space provider (str value) m e =
    subst (IsNamed (prefix_of provider)) e
      (with_prefix-IsNamed (prefix_of provider) (remove_models (strip is_space value)))
