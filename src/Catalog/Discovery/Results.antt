-- ===== src/Catalog/Discovery/Results.antt =====
-- What the models of a result are.
use llm_evaluation_platform.Common.{
  ℕ, zero, suc, ◌≤◌, String, ◌≡◌, refl, true, false, ◌||◌, Option, List, [], ◌∷◌, arith, length,
  take, length-take-le,
}
use llm_evaluation_platform.Evals.Models.{Text}
use llm_evaluation_platform.Evals.Metrics.{text_eq}
use llm_evaluation_platform.Evals.Metrics.Scores.{text_eq_iff}
use llm_evaluation_platform.Catalog.Names.{Value, normalize_model}
use llm_evaluation_platform.Catalog.Cache.{CatalogSource}
use llm_evaluation_platform.Catalog.Discovery.{
  Config, text_leb, has_text, names, insert_name, sort_names, result_of,
}

text_leb_total : (s t : Text) → text_leb s t ≡ false → text_leb t s ≡ true
unfolding text_leb
text_leb_total [] t h = cc
text_leb_total (x ∷ s) [] h = refl
text_leb_total (x ∷ s) (y ∷ t) h = ground (arith, text_leb_total s t)

abbrev pub IsSortedBy : (Text → Text) → List Text → Type 0
IsSortedBy casefold [] = Unit
IsSortedBy casefold (m ∷ []) = Unit
IsSortedBy casefold (m ∷ n ∷ ns) =
    (text_leb (casefold m) (casefold n) ≡ true) × IsSortedBy casefold (n ∷ ns)

abbrev pub HasNoRepeat : List Text → Type 0
HasNoRepeat [] = Unit
HasNoRepeat (m ∷ ms) = (has_text m ms ≡ false) × HasNoRepeat ms

module _ (casefold : Text → Text) where
  insert_name-IsSortedBy :
      (m : Text) (ns : List Text)
      → IsSortedBy casefold ns
      → IsSortedBy casefold (insert_name casefold m ns)
  unfolding insert_name
  insert_name-IsSortedBy m [] h = tt
  insert_name-IsSortedBy m (n ∷ []) h = ground (arith, text_leb_total (casefold m) (casefold n))
  insert_name-IsSortedBy m (n ∷ p ∷ ns) h =
      ground
        (arith, text_leb_total (casefold m) (casefold n), insert_name-IsSortedBy m (p ∷ ns) h.1)

  has_text-insert_name :
      (s m : Text) (ns : List Text)
      → has_text s (insert_name casefold m ns) ≡ (text_eq m s || has_text s ns)
  unfolding insert_name
  has_text-insert_name s m [] = refl
  has_text-insert_name s m (n ∷ ns) = ground (arith, has_text-insert_name s m ns)

  insert_name-HasNoRepeat :
      (m : Text) (ns : List Text)
      → has_text m ns ≡ false
      → HasNoRepeat ns
      → HasNoRepeat (insert_name casefold m ns)
  unfolding insert_name
  insert_name-HasNoRepeat m [] f h = (refl, tt)
  insert_name-HasNoRepeat m (n ∷ ns) f h = ground (
    arith,
    insert_name-HasNoRepeat m ns,
    has_text-insert_name n m ns,
    text_eq_iff m n,
    text_eq_iff n m,
  )

  sort_names-IsSortedBy : (ms : List Text) → IsSortedBy casefold (sort_names casefold ms)
  unfolding sort_names
  sort_names-IsSortedBy [] = tt
  sort_names-IsSortedBy (m ∷ ms) =
      insert_name-IsSortedBy m (sort_names casefold ms) (sort_names-IsSortedBy ms)

  has_text-sort_names :
      (s : Text) (ms : List Text) → has_text s (sort_names casefold ms) ≡ has_text s ms
  unfolding sort_names
  has_text-sort_names s [] = refl
  has_text-sort_names s (m ∷ ms) =
      ground (arith, has_text-insert_name s m (sort_names casefold ms), has_text-sort_names s ms)

  sort_names-HasNoRepeat : (ms : List Text) → HasNoRepeat ms → HasNoRepeat (sort_names casefold ms)
  unfolding sort_names
  sort_names-HasNoRepeat [] h = tt
  sort_names-HasNoRepeat (m ∷ ms) h =
      insert_name-HasNoRepeat m (sort_names casefold ms)
        (ground (arith, has_text-sort_names m ms, h.0)) (sort_names-HasNoRepeat ms h.1)

names-HasNoRepeat : (f : Value → Option Text) (vs : List Value) → HasNoRepeat (names f vs)
unfolding names
names-HasNoRepeat f [] = tt
names-HasNoRepeat f (v ∷ vs) = ground (arith, names-HasNoRepeat f vs)

take-IsSortedBy :
    (casefold : Text → Text) (n : ℕ) (ms : List Text)
    → IsSortedBy casefold ms
    → IsSortedBy casefold (take n ms)
take-IsSortedBy casefold zero ms h = tt
take-IsSortedBy casefold (suc n) [] h = tt
take-IsSortedBy casefold (suc zero) (m ∷ ms) h = tt
take-IsSortedBy casefold (suc (suc n)) (m ∷ []) h = tt
take-IsSortedBy casefold (suc (suc n)) (m ∷ p ∷ ms) h =
    (h.0, take-IsSortedBy casefold (suc n) (p ∷ ms) h.1)

has_text-take :
    (s : Text) (n : ℕ) (ms : List Text) → has_text s ms ≡ false → has_text s (take n ms) ≡ false
has_text-take s zero ms h = refl
has_text-take s (suc n) [] h = h
has_text-take s (suc n) (m ∷ ms) h = ground (arith, has_text-take s n ms)

take-HasNoRepeat : (n : ℕ) (ms : List Text) → HasNoRepeat ms → HasNoRepeat (take n ms)
take-HasNoRepeat zero ms h = tt
take-HasNoRepeat (suc n) [] h = tt
take-HasNoRepeat (suc n) (m ∷ ms) h = (has_text-take m n ms h.0, take-HasNoRepeat n ms h.1)

-- The models of a result are sorted without regard to case, none occurs twice, and there are at most
-- as many as the configuration allows.
pub result_of_lem :
    (c : Config) (slug : String) (vs : List Value) (source : CatalogSource)
    (warning : Option String) (time : ℕ)
    → let ms = (result_of c slug vs source warning time).models in
      IsSortedBy c.casefold ms × HasNoRepeat ms × (length ms ≤ c.maximum_models)
unfolding result_of
result_of_lem c slug vs source warning time =
    let all_names = names (normalize_model c.is_space slug) vs in
    let sorted = sort_names c.casefold all_names in
    (
      take-IsSortedBy c.casefold c.maximum_models sorted
          (sort_names-IsSortedBy c.casefold all_names),
      take-HasNoRepeat c.maximum_models sorted (
          sort_names-HasNoRepeat c.casefold all_names
            (names-HasNoRepeat (normalize_model c.is_space slug) vs)),
      length-take-le c.maximum_models sorted,
    )
