-- ===== src/Catalog/Discovery/Reuse.antt =====
-- When a result is answered from the cache.
use llm_evaluation_platform.Common.{
  ℕ, ◌+◌, ◌≤◌, ◌<◌, String, ◌≡◌, refl, Bool, true, false, Option, none, some, arith, if◌then◌else◌,
  length,
}
use llm_evaluation_platform.Catalog.Cache.{ModelCatalogResult, Cache}
use llm_evaluation_platform.Catalog.Cache.Bounds.{store_fits}
use llm_evaluation_platform.Catalog.Discovery.{
  Config, CredentialPayload, load_models, cached_result, discover,
}

module _ (c : Config) (room : 1 ≤ c.maximum_cache_entries) (ttl : 1 ≤ c.cache_ttl_seconds)
    (slug : String) (payload : CredentialPayload) (key : String) (now time : ℕ)
    (cache : Cache) where
  discover_by :
      (o : Option ModelCatalogResult) (force : Bool)
      → (if force then none else cached_result c key now cache) ≡ o
      → length cache ≤ c.maximum_cache_entries
      → (r : ModelCatalogResult) × (cache' : Cache) × (discover c slug payload key force now time
            cache
          ≡ some (r, cache'))
        × (length cache' ≤ c.maximum_cache_entries)
  unfolding discover
  discover_by (some r) force e h = (r, cache, ground (arith, e), h)
  discover_by none force e h =
      let (d, s, n, found, live) =
        store_fits c.cache_ttl_seconds c.maximum_cache_entries key (load_models c slug payload time)
          now cache ttl room in
      (load_models c slug payload time, d, ground (arith, e, s), n)

  -- With a positive time to live and room in the cache, a discovery always answers, whatever the
  -- loaders do, and keeps the cache within its bound.
  pub discover_returns :
      (force : Bool)
      → length cache ≤ c.maximum_cache_entries
      → (r : ModelCatalogResult) × (cache' : Cache) × (discover c slug payload key force now time
            cache
          ≡ some (r, cache'))
        × (length cache' ≤ c.maximum_cache_entries)
  discover_returns force h =
      discover_by (if force then none else cached_result c key now cache) force refl h

-- With a positive time to live and room in the cache, what a forced discovery loaded is answered
-- again, marked as cached and by no loader, until its time to live is over: the second
-- configuration may have other loaders and the second payload another key.
pub discover_again :
    (c c' : Config) (slug slug' : String) (payload payload' : CredentialPayload) (key : String)
    (now time now' time' : ℕ) (cache cache' : Cache) (r : ModelCatalogResult)
    → 1 ≤ c.maximum_cache_entries
    → 1 ≤ c.cache_ttl_seconds
    → discover c slug payload key true now time cache ≡ some (r, cache')
    → now' < now + c.cache_ttl_seconds
    → discover c' slug' payload' key false now' time' cache'
      ≡ some (record r { cached = true }, cache')
unfolding discover cached_result
discover_again c c' slug slug' payload payload' key now time now' time' cache cache' r m t e l =
    let (d, s, n, found, live) =
      store_fits c.cache_ttl_seconds c.maximum_cache_entries key (load_models c slug payload time)
        now cache t m in
    ground (arith, e, s, found)
