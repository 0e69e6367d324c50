-- ===== src/Catalog/Cache.antt =====
-- The cache of discovered catalogues: `_store` of backend/services/model_catalog.py. Times are of the
-- monotonic clock; a negative time to live is like 0.
pub mod Bounds
pub mod Youngest
use llm_evaluation_platform.Common.{
  ℕ, zero, suc, ◌+◌, String, Bool, Option, none, some, List, [], ◌∷◌, ltb, ◌==◌, if◌then◌else◌,
  length, filter,
}
use llm_evaluation_platform.Common.Dict.{Dict, insert, erase}

pub data CatalogSource : Type 0 where
  provider litellm manual : CatalogSource

pub record ModelCatalogResult : Type 0 where
  pub models : List (List ℕ)
  pub source : CatalogSource
  pub cached : Bool
  pub refreshed_at : ℕ
  pub warning : Option String

pub record CachedCatalog : Type 0 where
  pub result : ModelCatalogResult
  pub expires_at : ℕ

abbrev pub Cache : Type 0
Cache = Dict CachedCatalog

-- The entries that are not expired.
abbrev pub not_expired : ℕ → Cache → Cache
not_expired now = filter (λ p. ltb now p.1.expires_at)

-- `min` over the keys by their time: the first of the least, from the best key so far.
unfoldable pub oldest_from : String × ℕ → Cache → String × ℕ
oldest_from best [] = best
oldest_from best ((k, e) ∷ c) =
    oldest_from (if ltb e.expires_at best.1 then (k, e.expires_at) else best) c

-- The loop that makes room, with the number of entries as fuel; `none` is the `ValueError` of `min`
-- without keys.
unfoldable pub make_room : ℕ → ℕ → Cache → Option Cache
unfolding oldest_from
make_room maximum zero c = if ltb (length c) maximum then some c else none
make_room maximum (suc fuel) [] = if ltb 0 maximum then some [] else none
make_room maximum (suc fuel) ((k, e) ∷ c) =
    let rest = make_room maximum fuel (erase (oldest_from (k, e.expires_at) c).0 ((k, e) ∷ c)) in
    if ltb (length ((k, e) ∷ c)) maximum then some ((k, e) ∷ c) else rest

-- `_store`
unfoldable pub store : ℕ → ℕ → String → ModelCatalogResult → ℕ → Cache → Option Cache
unfolding make_room
store ttl maximum key result now c =
    if ttl == 0
    then some c
    else (let live = not_expired now c in
        elim (make_room maximum (length live) live) [
          | none ↦ none
          | some d ↦ some (insert key (record { result = result; expires_at = now + ttl }) d)
        ])
