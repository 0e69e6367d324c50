-- ===== src/Workspace/Crud/Pages.antt =====
-- Pages: a client that follows `has_more` reads every row once and in order.
use llm_evaluation_platform.Common.{
  ℕ, zero, suc, ◌+◌, ◌-◌, ◌≤◌, ◌<◌, min, ◌≡◌, refl, sym, ap, ◌∙◌, inl, inr, List, [], ◌∷◌, ◌++◌,
  arith, ltb, if◌then◌else◌, Bool-cases, length, take, drop,
}
use llm_evaluation_platform.Workspace.Models.{Dataset, DatasetItem, Database}
use llm_evaluation_platform.Workspace.Ownership.{Answer, ok, get_owned_dataset}
use llm_evaluation_platform.Workspace.Crud.{page, DatasetItemPage, items_in, get_dataset_item_page}

module _ {A : Type 0} where
  take_all : (n : ℕ) (xs : List A) → length xs ≤ n → take n xs ≡ xs
  take_all zero [] h = refl
  take_all zero (x ∷ xs) h = absurd (omega arith)
  take_all (suc n) [] h = refl
  take_all (suc n) (x ∷ xs) h = ap (λ r. x ∷ r) (take_all n xs (omega arith))

  length-drop : (n : ℕ) (xs : List A) → length (drop n xs) ≡ length xs - n
  length-drop zero xs = omega arith
  length-drop (suc n) [] = omega arith
  length-drop (suc n) (x ∷ xs) = omega (arith, length-drop n xs)

  length-take : (n : ℕ) (xs : List A) → length (take n xs) ≡ min n (length xs)
  length-take zero xs = omega arith
  length-take (suc n) [] = omega arith
  length-take (suc n) (x ∷ xs) = omega (arith, length-take n xs)

  drop-nil : (n : ℕ) → drop {A = A} n [] ≡ []
  drop-nil zero = refl
  drop-nil (suc n) = refl

  drop-drop : (m n : ℕ) (xs : List A) → drop n (drop m xs) ≡ drop (m + n) xs
  drop-drop zero n xs = ap (λ k. drop k xs) (omega arith)
  drop-drop (suc m) n [] = drop-nil n ∙ sym (drop-nil (suc m + n))
  drop-drop (suc m) n (x ∷ xs) =
      let e : suc (m + n) ≡ suc m + n = omega arith in
      drop-drop m n xs ∙ ap (λ k. drop k (x ∷ xs)) e

  take-drop : (n : ℕ) (xs : List A) → take n xs ++ drop n xs ≡ xs
  take-drop zero xs = refl
  take-drop (suc n) [] = refl
  take-drop (suc n) (x ∷ xs) = ap (λ r. x ∷ r) (take-drop n xs)

module _ (user dataset_id limit : ℕ) (db : Database) where
  abbrev page_at : ℕ → Answer DatasetItemPage
  page_at offset = (get_dataset_item_page user dataset_id offset limit db).0

  -- A client that asks for pages, from an offset on, as long as there is more.
  unfoldable pub read_pages : ℕ → ℕ → List DatasetItem
  read_pages zero offset = []
  read_pages (suc fuel) offset =
      let rest = read_pages fuel (offset + limit) in
      elim (page_at offset) [ ok p ↦ if p.has_more then p.items ++ rest else p.items | _ ↦ [] ]

  abbrev rows : List DatasetItem
  rows = items_in user dataset_id db

  read_pages_lem :
      (d : Dataset) (fuel offset : ℕ)
      → get_owned_dataset user dataset_id db ≡ ok d
      → 1 ≤ limit
      → length rows < offset + fuel
      → read_pages fuel offset ≡ drop offset rows
  unfolding read_pages get_dataset_item_page
  read_pages_lem d zero offset e l h = none_left offset rows (omega arith)
    where
      none_left : (n : ℕ) (xs : List DatasetItem) → length xs < n → [] ≡ drop n xs
      none_left zero xs h = absurd (omega arith)
      none_left (suc n) [] h = refl
      none_left (suc n) (x ∷ xs) h = none_left n xs (omega arith)
  read_pages_lem d (suc fuel) offset e l h =
      let items = page offset limit rows in
      rw (e, read_pages, get_dataset_item_page)
        (elim (Bool-cases (ltb (offset + length items) (length rows))) [
          | inl more ↦ rw more (
              rw (read_pages_lem d fuel (offset + limit) e l (omega arith)) (
                ap (λ r. items ++ r) (sym (drop-drop offset limit rows))
                ∙ take-drop limit (drop offset rows)))
          | inr last ↦ rw last (
              take_all limit (drop offset rows) (
                grind (arith, last, length-take limit (drop offset rows), length-drop offset rows)))
        ])

  -- Whoever reads a dataset of his own page by page, as long as the pages say that there is more, gets
  -- all its items, each once and in order.
  pub read_pages_complete :
      (d : Dataset)
      → get_owned_dataset user dataset_id db ≡ ok d
      → 1 ≤ limit
      → read_pages (suc (length rows)) 0 ≡ rows
  read_pages_complete d e l = read_pages_lem d (suc (length rows)) 0 e l (omega arith)
