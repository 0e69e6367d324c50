-- ===== src/Evals/Runner/Order.antt =====
-- The results come back in the order of the inputs, whatever the order in which the tasks finish,
-- and the inputs are the pairs that are not skipped.
use llm_evaluation_platform.Common.{
  ℕ, zero, suc, ◌+◌, ◌*◌, ◌≤◌, ◌<◌, String, ◌≡◌, refl, inl, inr, Bool, true, false, ◌||◌, Option,
  none, some, List, [], ◌∷◌, map, arith, ◌==◌, if◌then◌else◌, Option-cases, length, any, get_elem?,
  All, All-append, length-append,
}
use llm_evaluation_platform.Evals.Models.{DatasetItem, Variant}
use llm_evaluation_platform.Evals.Runner.{
  Step, ok, raise, set_slot, present, no_slots, results, collect, run_tasks, is_skipped, pairs_of,
  indexed_inputs,
}

get_elem?-none :
    {A : Type 0} (xs : List A) (i j : ℕ) → get_elem? xs i ≡ none → j < length xs → (i == j) ≡ false
get_elem?-none [] i j e h = absurd (omega arith)
get_elem?-none (x ∷ xs) zero j e h = cc
get_elem?-none (x ∷ xs) (suc i) zero e h = ground arith
get_elem?-none (x ∷ xs) (suc i) (suc j) e h = ground (arith, get_elem?-none xs i j e (omega arith))

module _ {T R : Type 0} (evaluate : T → R) where
  -- The slots hold the results of the tasks that `done` marks, and nothing else.
  Holds : List T → List (Option R) → (ℕ → Bool) → Type 0
  Holds [] [] done = Unit
  Holds (t ∷ ts) (x ∷ xs) done =
      (x ≡ (if done 0 then some (evaluate t) else none)) × Holds ts xs (λ i. done (suc i))
  Holds _ _ done = ⊥

  Holds-no_slots : (ts : List T) → Holds ts (no_slots ts) (λ _. false)
  unfolding Holds
  Holds-no_slots [] = tt
  Holds-no_slots (t ∷ ts) = (refl, Holds-no_slots ts)

  Holds-same :
      (ts : List T) (xs : List (Option R)) (p q : ℕ → Bool)
      → ((i : ℕ) → p i ≡ q i)
      → Holds ts xs p
      → Holds ts xs q
  unfolding Holds
  Holds-same [] [] p q e h = tt
  Holds-same (t ∷ ts) (x ∷ xs) p q e h =
      (rw (← e 0) h.0, Holds-same ts xs (λ i. p (suc i)) (λ i. q (suc i)) (λ i. e (suc i)) h.1)
  Holds-same [] (x ∷ xs) p q e h = h
  Holds-same (t ∷ ts) [] p q e h = h

  Holds-set_slot :
      (ts : List T) (xs : List (Option R)) (done : ℕ → Bool) (i : ℕ) (t : T)
      → get_elem? ts i ≡ some t
      → Holds ts xs done
      → Holds ts (set_slot xs i (evaluate t)) (λ j. done j || i == j)
  unfolding Holds
  Holds-set_slot [] xs done i t e h = cc
  Holds-set_slot (u ∷ ts) [] done i t e h = h
  Holds-set_slot (u ∷ ts) (x ∷ xs) done zero t e h = (
    ground arith,
    Holds-same ts xs (λ j. done (suc j)) (λ j. done (suc j) || 0 == suc j) (λ j. ground arith) h.1,
  )
  Holds-set_slot (u ∷ ts) (x ∷ xs) done (suc i) t e h = (
    ground arith,
    Holds-same ts (set_slot xs i (evaluate t)) (λ j. done (suc j) || i == j)
        (λ j. done (suc j) || suc i == suc j) (λ j. ground arith)
        (Holds-set_slot ts xs (λ j. done (suc j)) i t e h.1),
  )

  Holds-present :
      (ts : List T) (xs : List (Option R)) (done : ℕ → Bool)
      → ((j : ℕ) → j < length ts → done j ≡ true)
      → Holds ts xs done
      → present xs ≡ map evaluate ts
  unfolding Holds
  Holds-present [] [] done all_done h = refl
  Holds-present [] (x ∷ xs) done all_done h = absurd h
  Holds-present (t ∷ ts) [] done all_done h = absurd h
  Holds-present (t ∷ ts) (x ∷ xs) done all_done h =
      let rest =
        Holds-present ts xs (λ j. done (suc j)) (λ j p. all_done (suc j) (omega arith)) h.1 in
      ground (arith, all_done 0 (omega arith), h.0)

  module _ {S E : Type 0} (on_result : R → S → Step S E) where
    collect_next :
        (ts : List T) (i : ℕ) (order : List ℕ) (xs : List (Option R)) (s s' : S) (rs : List R)
        (t : T)
        → get_elem? ts i ≡ some t
        → collect evaluate on_result ts (i ∷ order) xs s ≡ results rs s'
        → (s1 : S) × (collect evaluate on_result ts order (set_slot xs i (evaluate t)) s1
            ≡ results rs s')
    unfolding collect
    collect_next ts i order xs s s' rs t found e = go (on_result (evaluate t) s) refl
      where
        go :
            (r : Step S E)
            → on_result (evaluate t) s ≡ r
            → (s1 : S) × (collect evaluate on_result ts order (set_slot xs i (evaluate t)) s1
                ≡ results rs s')
        go (ok s1) q = (s1, ground arith)
        go (raise x s1) q = absurd (ground arith)

    collect_returns :
        (ts : List T) (order : List ℕ) (xs : List (Option R)) (next : R → S → S) (s : S)
        → ((r : R) (s : S) → on_result r s ≡ ok (next r s))
        → (rs : List R) × (s' : S) × (collect evaluate on_result ts order xs s ≡ results rs s')
    unfolding collect
    collect_returns ts [] xs next s always = (present xs, s, refl)
    collect_returns ts (i ∷ order) xs next s always = elim (Option-cases (get_elem? ts i)) [
      | inl missing ↦
          let (rs, s', e) = collect_returns ts order xs next s always in (rs, s', ground arith)
      | inr (t, found) ↦
          let (rs, s', e) =
            collect_returns ts order (set_slot xs i (evaluate t)) next (next (evaluate t) s)
              always in
          (rs, s', ground (arith, always (evaluate t) s))
    ]

    collect-map :
        (ts : List T) (order : List ℕ) (xs : List (Option R)) (done : ℕ → Bool) (s s' : S)
        (rs : List R)
        → Holds ts xs done
        → ((j : ℕ) → j < length ts → (done j || any (λ i. i == j) order) ≡ true)
        → collect evaluate on_result ts order xs s ≡ results rs s'
        → rs ≡ map evaluate ts
    unfolding collect
    collect-map ts [] xs done s s' rs h cover e =
        let p = Holds-present ts xs done (λ j q. ground (arith, cover j q)) h in ground arith
    collect-map ts (i ∷ order) xs done s s' rs h cover e = elim (Option-cases (get_elem? ts i)) [
      | inl missing ↦
          collect-map ts order xs done s s' rs h
            (λ j q. ground (arith, cover j q, get_elem?-none ts i j missing q)) (ground arith)
      | inr (t, found) ↦
          let (s1, e1) = collect_next ts i order xs s s' rs t found e in
          collect-map ts order (set_slot xs i (evaluate t)) (λ j. done j || i == j) s1 s' rs
            (Holds-set_slot ts xs done i t found h) (λ j q. ground (arith, cover j q)) e1
    ]

    -- Where every task finishes, and the run returns because the callback lets every result pass,
    -- the results are those of the inputs in order: the order in which the tasks finish does not
    -- show.
    pub results_in_order :
        (concurrency : ℕ) (ts : List T) (as_completed : List ℕ) (s s' : S) (rs : List R)
        → ((j : ℕ) → j < length ts → any (λ i. i == j) as_completed ≡ true)
        → run_tasks evaluate on_result concurrency ts as_completed s ≡ results rs s'
        → rs ≡ map evaluate ts
    unfolding run_tasks
    results_in_order c ts order s s' rs cover e =
        collect-map ts order (no_slots ts) (λ _. false) s s' rs (Holds-no_slots ts) cover
          (ground arith)

    -- A run whose callback never raises, with a concurrency of at least 1, returns results.
    run_tasks_returns :
        (concurrency : ℕ) (ts : List T) (as_completed : List ℕ) (next : R → S → S) (s : S)
        → 1 ≤ concurrency
        → ((r : R) (s : S) → on_result r s ≡ ok (next r s))
        → (rs : List R) × (s' : S) × (run_tasks evaluate on_result concurrency ts as_completed s
            ≡ results rs s')
    unfolding run_tasks
    run_tasks_returns c ts order next s p always =
        let (rs, s', e) = collect_returns ts order (no_slots ts) next s always in
        (rs, s', ground (arith, e))

module _ {F : Type 0} where
  -- The pairs that are left out.
  abbrev pub skipped_count : List (String × String) → DatasetItem → List (Variant F) → ℕ
  skipped_count skipped item [] = 0
  skipped_count skipped item (v ∷ vs) =
      let rest = skipped_count skipped item vs in
      if is_skipped skipped item v then suc rest else rest

  pairs_count :
      (skipped : List (String × String)) (item : DatasetItem) (vs : List (Variant F))
      → length (pairs_of skipped item vs) + skipped_count skipped item vs ≡ length vs
  unfolding pairs_of
  pairs_count skipped item [] = omega arith
  pairs_count skipped item (v ∷ vs) = ground (arith, pairs_count skipped item vs)

  abbrev pub all_skipped : List (String × String) → List DatasetItem → List (Variant F) → ℕ
  all_skipped skipped [] vs = 0
  all_skipped skipped (item ∷ items) vs =
      skipped_count skipped item vs + all_skipped skipped items vs

  inputs_count :
      (skipped : List (String × String)) (items : List DatasetItem) (vs : List (Variant F))
      → length (indexed_inputs skipped items vs) + all_skipped skipped items vs
        ≡ length items * length vs
  unfolding indexed_inputs
  inputs_count skipped [] vs = omega arith
  inputs_count skipped (item ∷ items) vs = omega (
    arith,
    length-append (pairs_of skipped item vs) (indexed_inputs skipped items vs),
    pairs_count skipped item vs,
    inputs_count skipped items vs,
  )

  abbrev pub IsWanted : List (String × String) → DatasetItem × Variant F → Type 0
  IsWanted skipped p = is_skipped skipped p.0 p.1 ≡ false

  pairs-IsWanted :
      (skipped : List (String × String)) (item : DatasetItem) (vs : List (Variant F))
      → All (IsWanted skipped) (pairs_of skipped item vs)
  unfolding pairs_of
  pairs-IsWanted skipped item [] = tt
  pairs-IsWanted skipped item (v ∷ vs) = ground (arith, pairs-IsWanted skipped item vs)

  inputs-IsWanted :
      (skipped : List (String × String)) (items : List DatasetItem) (vs : List (Variant F))
      → All (IsWanted skipped) (indexed_inputs skipped items vs)
  unfolding indexed_inputs
  inputs-IsWanted skipped [] vs = tt
  inputs-IsWanted skipped (item ∷ items) vs =
      All-append (IsWanted skipped) (pairs_of skipped item vs) (indexed_inputs skipped items vs)
        (pairs-IsWanted skipped item vs) (inputs-IsWanted skipped items vs)

  -- None of the tasks is a skipped pair of an item and a variant, and with the skipped pairs the
  -- tasks are as many as all pairs.
  inputs_split :
      (skipped : List (String × String)) (items : List DatasetItem) (vs : List (Variant F))
      → All (IsWanted skipped) (indexed_inputs skipped items vs)
        × (length (indexed_inputs skipped items vs) + all_skipped skipped items vs
            ≡ length items * length vs)
  inputs_split skipped items vs = (inputs-IsWanted skipped items vs, inputs_count skipped items vs)
