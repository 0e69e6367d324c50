-- ===== src/Catalog/Tests.antt =====
-- Discoveries with a small cache, and the theorems at them.
use llm_evaluation_platform.Common.{
  ℕ, ◌≤◌, String, ◌≡◌, refl, ◌≢◌, Bool, true, false, none, some, [], ◌∷◌, arith, eq_iff, ◌==◌,
  length, All,
}
use llm_evaluation_platform.Common.Dict.{lookup, insert, erase}
use llm_evaluation_platform.Evals.Metrics.{codes, begins_with, strip, lstrip, rstrip, text_eq}
use llm_evaluation_platform.Catalog.Names.{
  str, other, normalize_model, prefix_of, get_provider_definition, provider_catalog, with_prefix,
}
use llm_evaluation_platform.Catalog.Requests.{ModelRequest, model_request, bearer, ends_with}
use llm_evaluation_platform.Catalog.Cache.{
  ModelCatalogResult, CachedCatalog, Cache, provider, oldest_from, make_room, store,
}
use llm_evaluation_platform.Catalog.Cache.Bounds.{store_fits, LivesAfter}
use llm_evaluation_platform.Catalog.Cache.Youngest.{store_drops_oldest}
use llm_evaluation_platform.Catalog.Discovery.{
  Config, CredentialPayload, Loader, result_of, names, sort_names, insert_name, text_leb,
  run_loader, load_models, discover,
}
use llm_evaluation_platform.Catalog.Discovery.Reuse.{discover_returns, discover_again}

abbrev is_space : ℕ → Bool
is_space c = c == 32

abbrev live_loader : Loader
live_loader slug key base =
    some (str (codes " models/b ") ∷ other ∷ str (codes "groq/a") ∷ str (codes "b") ∷ [])

abbrev no_loader : Loader
no_loader slug key base = none

abbrev config : Config
config = record {
  live_loader = live_loader;
  fallback_loader = no_loader;
  cache_ttl_seconds = 300;
  maximum_models = 5;
  maximum_cache_entries = 2;
  is_space = is_space;
  casefold = λ t. t;
}

abbrev payload : CredentialPayload
payload = record { api_key = "k"; api_base = none }

abbrev loaded : ModelCatalogResult
loaded = record {
  models = codes "groq/a" ∷ codes "groq/b" ∷ [];
  source = provider;
  cached = false;
  refreshed_at = 7;
  warning = none;
}

abbrev entry : ℕ → CachedCatalog
entry t = record { result = loaded; expires_at = t }

-- One entry is expired at 100, and one of the others has to go.
abbrev cache : Cache
cache = ("x", entry 90) ∷ ("y", entry 150) ∷ ("z", entry 120) ∷ []

abbrev stored : Cache
stored = ("y", entry 150) ∷ ("new", entry 400) ∷ []

is_stored : store 300 2 "new" loaded 100 cache ≡ some stored
unfolding store make_room oldest_from erase insert
is_stored = refl

store_fits_example :
    (d : Cache) × (store 300 2 "new" loaded 100 cache ≡ some d)
    × (length d ≤ 2)
    × (lookup "new" d ≡ some (entry 400))
    × All (LivesAfter 100) d
store_fits_example = store_fits 300 2 "new" loaded 100 cache (omega arith) (omega arith)

y_differs : ◌≢◌ {A = String} "y" "new"
y_differs e = cc ((eq_iff "y" "new").1 e)

store_drops_oldest_example : (lookup "y" cache ≡ some (entry 150)) × (120 ≤ 150)
unfolding lookup
store_drops_oldest_example =
    store_drops_oldest 300 2 "new" loaded 100 cache stored "y" "z" (entry 150) (entry 120)
      (refl, (refl, (refl, tt))) (omega arith) is_stored y_differs refl refl (omega arith) refl

normal_b : normalize_model is_space "groq" (str (codes " models/b ")) ≡ some (codes "groq/b")
unfolding normalize_model with_prefix prefix_of get_provider_definition provider_catalog strip
    lstrip rstrip begins_with
normal_b = refl

discover_returns_example :
    (r : ModelCatalogResult) × (cache' : Cache) × (discover config "groq" payload "new" true 100 7
        stored
      ≡ some (r, cache'))
    × (length cache' ≤ 2)
discover_returns_example =
    discover_returns config (omega arith) (omega arith) "groq" payload "new" 100 7 stored true
      (omega arith)

discovers : discover config "groq" payload "new" true 100 7 cache ≡ some (loaded, stored)
unfolding discover load_models run_loader result_of names sort_names insert_name text_leb text_eq
    store make_room oldest_from erase insert normalize_model with_prefix prefix_of
    get_provider_definition provider_catalog strip lstrip rstrip begins_with
discovers = refl

discover_again_example :
    discover (record config { live_loader = no_loader }) "groq" payload "new" false 399 8 stored
    ≡ some (record loaded { cached = true }, stored)
discover_again_example =
    discover_again config (record config { live_loader = no_loader }) "groq" "groq" payload payload
      "new" 100 7 399 8 cache stored loaded (omega arith) (omega arith) discovers (omega arith)

abbrev custom_models : ModelRequest
custom_models = (codes "https://h/v1/models", bearer "k")

custom_request_url : model_request "custom" "k" (some (codes "https://h/v1/")) ≡ some custom_models
unfolding model_request ends_with rstrip text_eq
custom_request_url = refl
