-- ===== src/Workspace/Tables.antt =====
-- Tables as lists of rows: the tests of constraints, changes of rows, and what they leave alone.
use llm_evaluation_platform.Common.{
  ℕ, ◌≡◌, refl, inl, inr, Bool, true, false, ◌&&◌, ◌||◌, not, List, [], ◌∷◌, ◌++◌, arith, ◌==◌,
  if◌then◌else◌, Bool-cases, ==_iff, filter, any, all,
}

module _ {A : Type 0} where
  -- No two rows clash, in a primary key or a unique constraint.
  unfoldable pub unique_by : (A → A → Bool) → List A → Bool
  unique_by same [] = true
  unique_by same (x ∷ xs) = not (any (same x) xs) && unique_by same xs

  -- UPDATE … SET … WHERE
  abbrev pub change : (A → Bool) → (A → A) → List A → List A
  change where_ f [] = []
  change where_ f (x ∷ xs) =
      let rest = change where_ f xs in if where_ x then f x ∷ rest else x ∷ rest

  -- DELETE … WHERE
  abbrev pub remove : (A → Bool) → List A → List A
  remove where_ = filter (λ x. not (where_ x))

  pub all_mono :
      (p q : A → Bool)
      → ((x : A) → p x ≡ true → q x ≡ true)
      → (xs : List A) → all p xs ≡ true
      → all q xs ≡ true
  all_mono p q f [] h = refl
  all_mono p q f (x ∷ xs) h = ground (arith, all_mono p q f xs, f x)

  pub any_mono :
      (p q : A → Bool)
      → ((x : A) → p x ≡ true → q x ≡ true)
      → (xs : List A) → any p xs ≡ true
      → any q xs ≡ true
  any_mono p q f [] h = h
  any_mono p q f (x ∷ xs) h = ground (arith, any_mono p q f xs, f x)

  pub all-filter : (p q : A → Bool) (xs : List A) → all p xs ≡ true → all p (filter q xs) ≡ true
  all-filter p q [] h = refl
  all-filter p q (x ∷ xs) h = ground (arith, all-filter p q xs)

  -- Every row that a filter keeps passes its test.
  pub all_kept :
      (p q : A → Bool) (xs : List A) → all p xs ≡ true → all (λ x. p x && q x) (filter q xs) ≡ true
  all_kept p q [] h = refl
  all_kept p q (x ∷ xs) h = ground (arith, all_kept p q xs)

  pub all-append : (p : A → Bool) (xs ys : List A) → all p (xs ++ ys) ≡ (all p xs && all p ys)
  all-append p [] ys = refl
  all-append p (x ∷ xs) ys = ground (arith, all-append p xs ys)

  pub any-append : (p : A → Bool) (xs ys : List A) → any p (xs ++ ys) ≡ (any p xs || any p ys)
  any-append p [] ys = refl
  any-append p (x ∷ xs) ys = ground (arith, any-append p xs ys)

  pub all-change :
      (p w : A → Bool) (f : A → A)
      → ((x : A) → p x ≡ true → p (f x) ≡ true)
      → (xs : List A) → all p xs ≡ true
      → all p (change w f xs) ≡ true
  all-change p w f k [] h = refl
  all-change p w f k (x ∷ xs) h = ground (arith, all-change p w f k xs, k x)

  -- The changed rows have to pass a test one by one.
  pub all-change_each :
      (p w : A → Bool) (f : A → A) (xs : List A)
      → all p xs ≡ true
      → all (λ x. not (w x) || p (f x)) xs ≡ true
      → all p (change w f xs) ≡ true
  all-change_each p w f [] h k = refl
  all-change_each p w f (x ∷ xs) h k = ground (arith, all-change_each p w f xs)

  pub any-change :
      (p w : A → Bool) (f : A → A)
      → ((x : A) → p (f x) ≡ p x)
      → (xs : List A) → any p (change w f xs) ≡ any p xs
  any-change p w f k [] = refl
  any-change p w f k (x ∷ xs) = ground (arith, any-change p w f k xs, k x)

  -- A deletion or a change of rows that a view does not show leaves the view alone.
  pub filter-remove :
      (q w : A → Bool) (xs : List A)
      → all (λ x. not (w x && q x)) xs ≡ true
      → filter q (remove w xs) ≡ filter q xs
  filter-remove q w [] h = refl
  filter-remove q w (x ∷ xs) h = ground (arith, filter-remove q w xs)

  pub filter-change :
      (q w : A → Bool) (f : A → A)
      → ((x : A) → q (f x) ≡ q x)
      → (xs : List A) → all (λ x. not (w x && q x)) xs ≡ true
      → filter q (change w f xs) ≡ filter q xs
  filter-change q w f k [] h = refl
  filter-change q w f k (x ∷ xs) h = ground (arith, filter-change q w f k xs, k x)

  pub filter-insert :
      (q : A → Bool) (x : A) (xs : List A) → q x ≡ false → filter q (xs ++ x ∷ []) ≡ filter q xs
  filter-insert q x [] h = ground arith
  filter-insert q x (y ∷ xs) h = ground (arith, filter-insert q x xs)

  -- A row that a deletion does not mean is still found.
  pub any-remove :
      (p w : A → Bool)
      → ((x : A) → p x ≡ true → w x ≡ false)
      → (xs : List A) → any p xs ≡ true
      → any p (remove w xs) ≡ true
  any-remove p w k [] h = h
  any-remove p w k (x ∷ xs) h = ground (arith, any-remove p w k xs, k x)

  pub all_and :
      (p q : A → Bool) (xs : List A)
      → all p xs ≡ true
      → all q xs ≡ true
      → all (λ x. p x && q x) xs ≡ true
  all_and p q [] h k = refl
  all_and p q (x ∷ xs) h k = ground (arith, all_and p q xs)

  pub any-filter : (p q : A → Bool) (xs : List A) → any p (filter q xs) ≡ any (λ x. p x && q x) xs
  any-filter p q [] = refl
  any-filter p q (x ∷ xs) = ground (arith, any-filter p q xs)

  pub filter-false : (q : A → Bool) → ((x : A) → q x ≡ false) → (xs : List A) → filter q xs ≡ []
  filter-false q k [] = refl
  filter-false q k (x ∷ xs) = ground (arith, filter-false q k xs, k x)

module _ {A : Type 0} (key : A → ℕ) where
  abbrev pub has_key : ℕ → List A → Bool
  has_key k = any (λ x. key x == k)

  abbrev pub same_key : A → A → Bool
  same_key x y = key y == key x

  none_at :
      (k : ℕ) (b : A → Bool) (xs : List A)
      → has_key k xs ≡ false
      → all (λ y. not (key y == k && b y)) xs ≡ true
  none_at k b [] h = refl
  none_at k b (x ∷ xs) h = ground (arith, none_at k b xs)

  has_of :
      (k : ℕ) (a : A → Bool) (xs : List A)
      → any (λ x. key x == k && a x) xs ≡ true
      → has_key k xs ≡ true
  has_of k a [] h = h
  has_of k a (x ∷ xs) h = ground (arith, has_of k a xs)

  -- Where keys are unique, a key of a row with `a` is the key of no row with `b`, if no row has both.
  pub exclusive :
      (k : ℕ) (a b : A → Bool)
      → ((x : A) → (a x && b x) ≡ false)
      → (xs : List A) → unique_by same_key xs ≡ true
      → any (λ x. key x == k && a x) xs ≡ true
      → all (λ y. not (key y == k && b y)) xs ≡ true
  unfolding unique_by
  exclusive k a b n [] u h = refl
  exclusive k a b n (x ∷ xs) u h = elim (Bool-cases (key x == k)) [
    | inl q ↦
        let e : key x ≡ k = (==_iff (key x) k).0 q in
        let fresh : has_key k xs ≡ false = rw (← e) (ground arith) in
        ground (arith, none_at k b xs fresh, has_of k a xs, n x)
    | inr q ↦ ground (arith, exclusive k a b n xs)
  ]
