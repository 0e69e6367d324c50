-- ===== src/Catalog/Discovery.antt =====
-- `ProviderModelCatalog` of backend/services/model_catalog.py: `_result`, `_run_loader` and `discover`.
-- The loaders are parameters, an exception or a timeout of one is `none`. Where names differ only by
-- case, Python leaves their order to the set; here they stay in the order of the loader.
pub mod Results
pub mod Reuse
use llm_evaluation_platform.Common.{
  ℕ, ◌-◌, String, Bool, true, false, ◌&&◌, ◌||◌, not, Option, none, some, List, [], ◌∷◌, ltb, ◌==◌,
  str_eq, if◌then◌else◌, any, take,
}
use llm_evaluation_platform.Common.Dict.{lookup}
use llm_evaluation_platform.Evals.Models.{Text}
use llm_evaluation_platform.Evals.Metrics.{text_eq}
use llm_evaluation_platform.Catalog.Names.{Value, normalize_model}
use llm_evaluation_platform.Catalog.Cache.{
  CatalogSource, provider, litellm, manual, ModelCatalogResult, Cache, store,
}

abbrev pub Loader : Type 0
Loader = String → Option String → Option String → Option (List Value)

pub record CredentialPayload : Type 0 where
  pub api_key : String
  pub api_base : Option String

pub record Config : Type 0 where
  pub live_loader : Loader
  pub fallback_loader : Loader
  pub cache_ttl_seconds : ℕ
  pub maximum_models : ℕ
  pub maximum_cache_entries : ℕ
  pub is_space : ℕ → Bool
  pub casefold : Text → Text

-- The order of texts by code points.
unfoldable pub text_leb : Text → Text → Bool
text_leb [] t = true
text_leb (x ∷ s) [] = false
text_leb (x ∷ s) (y ∷ t) = ltb x y || (x == y && text_leb s t)

abbrev pub has_text : Text → List Text → Bool
has_text s = any (λ t. text_eq t s)

-- The normalised names, each once.
unfoldable pub names : (Value → Option Text) → List Value → List Text
names normalize [] = []
names normalize (v ∷ vs) =
    let rest = names normalize vs in
    elim (normalize v) [ none ↦ rest | some m ↦ if has_text m rest then rest else m ∷ rest ]

-- `sorted` with the key `casefold`.
unfoldable pub insert_name : (Text → Text) → Text → List Text → List Text
unfolding text_leb
insert_name casefold m [] = m ∷ []
insert_name casefold m (n ∷ ns) =
    let rest = insert_name casefold m ns in
    if text_leb (casefold m) (casefold n) then m ∷ n ∷ ns else n ∷ rest

unfoldable pub sort_names : (Text → Text) → List Text → List Text
unfolding insert_name
sort_names casefold [] = []
sort_names casefold (m ∷ ms) = insert_name casefold m (sort_names casefold ms)

abbrev pub is_blank {ℓ} : {A : Type ℓ} → List A → Bool
is_blank [] = true
is_blank (x ∷ xs) = false

module _ (c : Config) where
  -- `_result`
  unfoldable pub result_of :
      String → List Value → CatalogSource → Option String → ℕ → ModelCatalogResult
  unfolding names sort_names
  result_of slug models source warning time = record {
    models =
        take c.maximum_models
          (sort_names c.casefold (names (normalize_model c.is_space slug) models));
    source = source;
    cached = false;
    refreshed_at = time;
    warning = warning;
  }

  -- `payload["api_key"] or None`
  abbrev pub key_or_none : String → Option String
  key_or_none key = if str_eq key "" then none else some key

  unfoldable pub run_loader : Loader → String → CredentialPayload → List Value
  run_loader loader slug payload =
      elim (loader slug (key_or_none payload.api_key) payload.api_base) [ none ↦ [] | some vs ↦ vs ]

  -- The result where the cache has no answer.
  unfoldable pub load_models : String → CredentialPayload → ℕ → ModelCatalogResult
  unfolding run_loader result_of
  load_models slug payload time =
      let live_models = run_loader c.live_loader slug payload in
      if not (is_blank live_models)
      then result_of slug live_models provider none time
      else (let fallback_models =
            run_loader c.fallback_loader slug (record { api_key = ""; api_base = none }) in
          if is_blank fallback_models
          then result_of slug fallback_models manual
              (some "This provider did not return a model catalog; enter a model ID manually.") time
          else result_of slug fallback_models litellm
              (some "Live discovery is unavailable; showing LiteLLM's built-in catalog.") time)

  -- A cached result that has not expired.
  unfoldable pub cached_result : String → ℕ → Cache → Option ModelCatalogResult
  cached_result key now cache = elim (lookup key cache) [
    | none ↦ none
    | some e ↦ if ltb now e.expires_at then some (record e.result { cached = true }) else none
  ]

  -- `discover`, in one step: other calls while a loader is awaited are not modelled. With the times of the monotonic clock and of the result; `none` is the `ValueError` of
  -- a cache without room.
  unfoldable pub discover :
      String
      → CredentialPayload
      → String
      → Bool
      → ℕ
      → ℕ
      → Cache
      → Option (ModelCatalogResult × Cache)
  unfolding cached_result load_models
  discover slug payload key force_refresh now time cache =
      elim (if force_refresh then none else cached_result key now cache) [
        | some r ↦ some (r, cache)
        | none ↦
            elim (store c.cache_ttl_seconds c.maximum_cache_entries key
              (load_models slug payload time) now cache) [
                | none ↦ none
                | some cache' ↦ some (load_models slug payload time, cache')
              ]
      ]
