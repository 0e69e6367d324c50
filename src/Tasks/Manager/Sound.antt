-- ===== src/Tasks/Manager/Sound.antt =====
-- The invariant of the registry, and the changes of tasks that keep it.
use llm_evaluation_platform.Common.{
  ℕ, suc, ◌≡◌, refl, ap, inl, inr, Bool, true, false, ◌&&◌, ◌||◌, not, Option, none, some, List, [],
  ◌∷◌, arith, ltb, ◌==◌, Bool-cases, length, all,
}
use llm_evaluation_platform.Workspace.Tables.{unique_by, same_key, has_key}
use llm_evaluation_platform.Tasks.Manager.{
  Task, Manager, lookup_run, change_task, request_cancel, registered_task, cancel_all,
}

abbrev pub is_task : Option ℕ → ℕ → Bool
is_task none t = false
is_task (some k) t = k == t

abbrev pub is_kept : List (ℕ × ℕ) → Task → Bool
is_kept m x = x.is_done || is_task (lookup_run x.run_id m) x.id

-- Every unfinished task is the one that is registered for its run; the ids of tasks are distinct and
-- below their number.
pub record IsSound (m : Manager) : Type 0 where
  pub kept : all (is_kept m.registered) m.tasks ≡ true
  pub distinct : unique_by (same_key (λ (x : Task). x.id)) m.tasks ≡ true
  pub below : all (λ (x : Task). ltb x.id (length m.tasks)) m.tasks ≡ true

-- Changes that keep ids and runs and finish tasks at most.
pub data IsProgress : List Task → List Task → Type 0 where
  nothing : IsProgress [] []
  next :
      (x y : Task) (xs ys : List Task)
      → y.id ≡ x.id
      → y.run_id ≡ x.run_id
      → (not x.is_done || y.is_done) ≡ true
      → IsProgress xs ys
      → IsProgress (x ∷ xs) (y ∷ ys)

progress_kept :
    (m : List (ℕ × ℕ)) (xs ys : List Task)
    → IsProgress xs ys
    → all (is_kept m) xs ≡ true
    → all (is_kept m) ys ≡ true
progress_kept m xs ys nothing h = refl
progress_kept m xs ys (next x y us vs i r d p) h =
    let rest = progress_kept m us vs p (ground arith) in
    ground (
      arith,
      rest,
      h,
      d,
      ap (λ k. is_task (lookup_run k m) x.id) r,
      ap (is_task (lookup_run y.run_id m)) i,
    )

progress_ids :
    (k : ℕ) (xs ys : List Task)
    → IsProgress xs ys
    → has_key (λ (x : Task). x.id) k ys ≡ has_key (λ (x : Task). x.id) k xs
progress_ids k xs ys nothing = refl
progress_ids k xs ys (next x y us vs i r d p) =
    ground (arith, progress_ids k us vs p, ap (λ j. j == k) i)

progress_distinct :
    (xs ys : List Task)
    → IsProgress xs ys
    → unique_by (same_key (λ (x : Task). x.id)) xs ≡ true
    → unique_by (same_key (λ (x : Task). x.id)) ys ≡ true
unfolding unique_by
progress_distinct xs ys nothing h = refl
progress_distinct xs ys (next x y us vs i r d p) h = ground (
  arith,
  progress_distinct us vs p,
  h,
  progress_ids x.id us vs p,
  ap (λ j. has_key (λ (z : Task). z.id) j vs) i,
)

progress_below :
    (n : ℕ) (xs ys : List Task)
    → IsProgress xs ys
    → all (λ (x : Task). ltb x.id n) xs ≡ true
    → all (λ (x : Task). ltb x.id n) ys ≡ true
progress_below n xs ys nothing h = refl
progress_below n xs ys (next x y us vs i r d p) h =
    ground (arith, progress_below n us vs p, h, ap (λ j. ltb j n) i)

progress_length : (xs ys : List Task) → IsProgress xs ys → length ys ≡ length xs
progress_length xs ys nothing = refl
progress_length xs ys (next x y us vs i r d p) = ap suc (progress_length us vs p)

pub progress-IsSound :
    (m : List (ℕ × ℕ)) (xs ys : List Task)
    → IsProgress xs ys
    → IsSound (record { registered = m; tasks = xs })
    → IsSound (record { registered = m; tasks = ys })
progress-IsSound m xs ys p s = record {
  kept = progress_kept m xs ys p s.kept;
  distinct = progress_distinct xs ys p s.distinct;
  below = rw (progress_length xs ys p) (progress_below (length xs) xs ys p s.below);
}

pub requested-IsProgress :
    (t : ℕ) (xs : List Task) → IsProgress xs (change_task t request_cancel xs)
requested-IsProgress t [] = nothing
requested-IsProgress t (x ∷ xs) =
    let rest = requested-IsProgress t xs in
    elim (Bool-cases (x.id == t)) [
      | inl q ↦ rw q (next x (request_cancel x) xs _ refl refl (ground arith) rest)
      | inr q ↦ rw q (next x x xs _ refl refl (ground arith) rest)
    ]

pub ended-IsProgress :
    (t : ℕ) (xs : List Task) → IsProgress xs (change_task t (λ x. record x { is_done = true }) xs)
ended-IsProgress t [] = nothing
ended-IsProgress t (x ∷ xs) =
    let rest = ended-IsProgress t xs in
    elim (Bool-cases (x.id == t)) [
      | inl q ↦ rw q (next x (record x { is_done = true }) xs _ refl refl (ground arith) rest)
      | inr q ↦ rw q (next x x xs _ refl refl (ground arith) rest)
    ]

pub cancelled-IsProgress : (m : List (ℕ × ℕ)) (xs : List Task) → IsProgress xs (cancel_all m xs)
cancelled-IsProgress m [] = nothing
cancelled-IsProgress m (x ∷ xs) =
    let rest = cancelled-IsProgress m xs in
    elim (Bool-cases (registered_task x.id m && not x.is_done)) [
      | inl q ↦ rw q (next x (request_cancel x) xs _ refl refl (ground arith) rest)
      | inr q ↦ rw q (next x x xs _ refl refl (ground arith) rest)
    ]
