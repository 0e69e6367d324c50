-- ===== src/Tasks/Manager/Single.antt =====
-- No run has two unfinished tasks.
use llm_evaluation_platform.Common.{
  ℕ, suc, ◌≤◌, ◌≡◌, refl, sym, ap, ◌∙◌, inl, inr, Bool, true, false, ◌&&◌, ◌||◌, not, Option, none,
  some, List, [], ◌∷◌, ◌++◌, arith, ltb, ◌==◌, ==_iff, if◌then◌else◌, Bool-cases, length, filter,
  all,
}
use llm_evaluation_platform.Workspace.Tables.{
  unique_by, same_key, has_key, all_mono, all-append, any-append,
}
use llm_evaluation_platform.Tasks.Manager.{
  Task, Manager, lookup_run, forget, change_task, is_done_task, request_cancel, start, cancel,
  end_task, discard, shutdown, Event, start_run, cancel_run, task_ends, callback, shut_down, manage,
  manage_all, empty_manager,
}
use llm_evaluation_platform.Tasks.Manager.Sound.{
  is_task, is_kept, IsSound, progress-IsSound, requested-IsProgress, ended-IsProgress,
  cancelled-IsProgress,
}

-- A task that is done is the only one with its id.
done_only :
    (t : ℕ) (xs : List Task)
    → unique_by (same_key (λ (x : Task). x.id)) xs ≡ true
    → is_done_task t xs ≡ true
    → all (λ (x : Task). not (x.id == t) || x.is_done) xs ≡ true
unfolding unique_by
done_only t [] u h = refl
done_only t (x ∷ xs) u h = elim (Bool-cases (x.id == t)) [
  | inl q ↦
      let fresh : has_key (λ (y : Task). y.id) t xs ≡ false =
        rw (← (==_iff x.id t).0 q) (ground arith) in
      ground (arith, q, h, absent xs fresh)
  | inr q ↦ ground (arith, q, h, done_only t xs)
]
  where
    absent :
        (ys : List Task)
        → has_key (λ (y : Task). y.id) t ys ≡ false
        → all (λ (y : Task). not (y.id == t) || y.is_done) ys ≡ true
    absent [] g = refl
    absent (y ∷ ys) g = ground (arith, absent ys)

lookup-forget :
    (r k : ℕ) (m : List (ℕ × ℕ)) → (k == r) ≡ false → lookup_run k (forget r m) ≡ lookup_run k m
lookup-forget r k [] h = refl
lookup-forget r k ((j, t) ∷ m) h = ground (arith, lookup-forget r k m h, ==_iff j r, ==_iff j k)

discarded :
    (r t : ℕ) (m : List (ℕ × ℕ)) (xs : List Task)
    → lookup_run r m ≡ some t
    → all (is_kept m) xs ≡ true
    → all (λ (x : Task). not (x.id == t) || x.is_done) xs ≡ true
    → all (is_kept (forget r m)) xs ≡ true
discarded r t m [] e h d = refl
discarded r t m (x ∷ xs) e h d =
    let rest = discarded r t m xs e (ground arith) (ground arith) in
    elim (Bool-cases (x.run_id == r)) [
      | inl q ↦
          let same : lookup_run x.run_id m ≡ some t =
            ap (λ k. lookup_run k m) ((==_iff x.run_id r).0 q) ∙ e in
          ground (arith, rest, h, d, same, ==_iff t x.id, ==_iff x.id t)
      | inr q ↦ ground (arith, rest, h, lookup-forget r x.run_id m q)
    ]

discard-IsSound :
    (r t : ℕ) (m : Manager) → is_done_task t m.tasks ≡ true → IsSound m → IsSound (discard r t m)
unfolding discard
discard-IsSound r t m d s = of_found (lookup_run r m.registered) refl
  where
    of_found :
        (o : Option ℕ)
        → lookup_run r m.registered ≡ o
        → IsSound (elim o as (λ _. Manager) [
          | none ↦ m
          | some k ↦ if k == t then record m { registered = forget r m.registered } else m
        ])
    of_found none e = s
    of_found (some k) e = elim (Bool-cases (k == t)) [
      | inr q ↦ rw q s
      | inl q ↦
          let same : lookup_run r m.registered ≡ some t = e ∙ ap some ((==_iff k t).0 q) in
          rw q (record {
            kept =
                discarded r t m.registered m.tasks same s.kept (done_only t m.tasks s.distinct d);
            distinct = s.distinct;
            below = s.below;
          })
    ]

fresh_id :
    (n : ℕ) (xs : List Task)
    → all (λ (x : Task). ltb x.id n) xs ≡ true
    → has_key (λ (x : Task). x.id) n xs ≡ false
fresh_id n [] h = refl
fresh_id n (x ∷ xs) h = ground (arith, fresh_id n xs)

append_distinct :
    (x : Task) (xs : List Task)
    → unique_by (same_key (λ (x : Task). x.id)) xs ≡ true
    → has_key (λ (x : Task). x.id) x.id xs ≡ false
    → unique_by (same_key (λ (x : Task). x.id)) (xs ++ x ∷ []) ≡ true
unfolding unique_by
append_distinct x [] u h = refl
append_distinct x (y ∷ xs) u h = ground (
  arith,
  u,
  h,
  append_distinct x xs,
  any-append (λ (z : Task). z.id == y.id) xs (x ∷ []),
  ==_iff x.id y.id,
  ==_iff y.id x.id,
)

registered_kept :
    (r n : ℕ) (m : List (ℕ × ℕ)) (xs : List Task)
    → lookup_run r m ≡ none
    → all (is_kept m) xs ≡ true
    → all (is_kept ((r, n) ∷ m)) xs ≡ true
registered_kept r n m [] e h = refl
registered_kept r n m (x ∷ xs) e h =
    let rest = registered_kept r n m xs e (ground arith) in
    elim (Bool-cases (r == x.run_id)) [
      | inl q ↦
          let none_there : lookup_run x.run_id m ≡ none =
            ap (λ k. lookup_run k m) (sym ((==_iff r x.run_id).0 q)) ∙ e in
          ground (arith, rest, h, none_there)
      | inr q ↦ ground (arith, rest, h, q)
    ]

length_snoc : (x : Task) (xs : List Task) → length (xs ++ x ∷ []) ≡ suc (length xs)
length_snoc x [] = refl
length_snoc x (y ∷ xs) = ap suc (length_snoc x xs)

abbrev fresh_task : ℕ → ℕ → Task
fresh_task n r = record { id = n; run_id = r; is_done = false; cancel_requested = false }

start-IsSound : (r : ℕ) (m : Manager) → IsSound m → IsSound (start r m).1
unfolding start
start-IsSound r m s = of_found (lookup_run r m.registered) refl
  where
    of_found :
        (o : Option ℕ)
        → lookup_run r m.registered ≡ o
        → IsSound
            (elim o as (λ _. Bool × Manager) [
              | some t ↦ (false, m)
              | none ↦ (
                true,
                record {
                  registered = ((r, length m.tasks) ∷ m.registered);
                  tasks = m.tasks ++ fresh_task (length m.tasks) r ∷ [];
                },
              )
            ]).1
    of_found (some t) e = s
    of_found none e = record {
      kept =
          all-append (is_kept ((r, length m.tasks) ∷ m.registered)) m.tasks
            (fresh_task (length m.tasks) r ∷ [])
          ∙ ground (
            arith,
            registered_kept r (length m.tasks) m.registered m.tasks e s.kept,
            ==_iff r r,
            ==_iff (length m.tasks) (length m.tasks),
          );
      distinct =
          append_distinct (fresh_task (length m.tasks) r) m.tasks s.distinct
            (fresh_id (length m.tasks) m.tasks s.below);
      below =
          all-append
            (λ (x : Task). ltb x.id (length (m.tasks ++ fresh_task (length m.tasks) r ∷ [])))
            m.tasks (fresh_task (length m.tasks) r ∷ [])
          ∙ ground (
            arith,
            length_snoc (fresh_task (length m.tasks) r) m.tasks,
            all_mono (λ (x : Task). ltb x.id (length m.tasks))
                (λ x. ltb x.id (length (m.tasks ++ fresh_task (length m.tasks) r ∷ [])))
                (λ x h. ground (arith, length_snoc (fresh_task (length m.tasks) r) m.tasks)) m.tasks
                s.below,
          );
    }

cancel-IsSound : (r : ℕ) (m : Manager) → IsSound m → IsSound (cancel r m).1
unfolding cancel
cancel-IsSound r m s = of_found (lookup_run r m.registered)
  where
    requested : (t : ℕ) → IsSound (record m { tasks = change_task t request_cancel m.tasks })
    requested t =
        progress-IsSound m.registered m.tasks (change_task t request_cancel m.tasks)
          (requested-IsProgress t m.tasks) s

    of_task :
        (t : ℕ) (b : Bool)
        → IsSound
            (if◌then◌else◌ {A = Bool × Manager} b
              (false, m)
              (true, record m { tasks = change_task t request_cancel m.tasks })).1
    of_task t true = s
    of_task t false = requested t

    of_found :
        (o : Option ℕ)
        → IsSound
            (elim o as (λ _. Bool × Manager) [
              | none ↦ (false, m)
              | some t ↦
                  if is_done_task t m.tasks
                  then (false, m)
                  else (true, record m { tasks = change_task t request_cancel m.tasks })
            ]).1
    of_found none = s
    of_found (some t) = of_task t (is_done_task t m.tasks)

manage-IsSound : (m : Manager) (e : Event) → IsSound m → IsSound (manage m e)
unfolding manage end_task shutdown
manage-IsSound m (start_run r) s = start-IsSound r m s
manage-IsSound m (cancel_run r) s = cancel-IsSound r m s
manage-IsSound m (task_ends t) s =
    progress-IsSound m.registered m.tasks _ (ended-IsProgress t m.tasks) s
manage-IsSound m shut_down s =
    progress-IsSound m.registered m.tasks _ (cancelled-IsProgress m.registered m.tasks) s
manage-IsSound m (callback r t) s = elim (Bool-cases (is_done_task t m.tasks)) [
  | inl q ↦ rw q (discard-IsSound r t m q s)
  | inr q ↦ rw q s
]

manage_all-IsSound : (es : List Event) (m : Manager) → IsSound m → IsSound (manage_all m es)
unfolding manage_all
manage_all-IsSound [] m s = s
manage_all-IsSound (e ∷ es) m s = manage_all-IsSound es (manage m e) (manage-IsSound m e s)

abbrev pub is_running : ℕ → Task → Bool
is_running r x = not x.is_done && x.run_id == r

task_of : (o : Option ℕ) (t : ℕ) → is_task o t ≡ true → o ≡ some t
task_of none t h = absurd (ground arith)
task_of (some k) t h = ap some ((==_iff k t).0 h)

none_running :
    (r i : ℕ) (m : List (ℕ × ℕ)) (xs : List Task)
    → lookup_run r m ≡ some i
    → all (is_kept m) xs ≡ true
    → has_key (λ (x : Task). x.id) i xs ≡ false
    → length (filter (is_running r) xs) ≡ 0
none_running r i m [] e h n = refl
none_running r i m (x ∷ xs) e h n =
    let rest = none_running r i m xs e (ground arith) (ground arith) in
    elim (Bool-cases (x.run_id == r)) [
      | inl q ↦
          let same : lookup_run x.run_id m ≡ some i =
            ap (λ k. lookup_run k m) ((==_iff x.run_id r).0 q) ∙ e in
          ground (arith, rest, h, n, same, ==_iff i x.id, ==_iff x.id i)
      | inr q ↦ ground (arith, rest, q)
    ]

one_running :
    (r : ℕ) (m : List (ℕ × ℕ)) (xs : List Task)
    → all (is_kept m) xs ≡ true
    → unique_by (same_key (λ (x : Task). x.id)) xs ≡ true
    → length (filter (is_running r) xs) ≤ 1
unfolding unique_by
one_running r m [] h u = omega arith
one_running r m (x ∷ xs) h u = elim (Bool-cases (is_running r x)) [
  | inr q ↦ rw q (one_running r m xs (ground arith) (ground arith))
  | inl q ↦
      let same : lookup_run r m ≡ some x.id =
        ap (λ k. lookup_run k m) (sym ((==_iff x.run_id r).0 (ground arith)))
        ∙ task_of (lookup_run x.run_id m) x.id (ground arith) in
      rw q (ground (arith, none_running r x.id m xs same (ground arith) (ground arith)))
]

empty-IsSound : IsSound empty_manager
unfolding unique_by
empty-IsSound = record { kept = refl; distinct = refl; below = refl }

-- However starts, cancellations, ends of tasks, late callbacks and a shutdown follow each other, no run has
-- two tasks that are not done.
pub manage_all-single :
    (es : List Event) (r : ℕ)
    → length (filter (is_running r) (manage_all empty_manager es).tasks) ≤ 1
manage_all-single es r =
    let s = manage_all-IsSound es empty_manager empty-IsSound in
    one_running r (manage_all empty_manager es).registered (manage_all empty_manager es).tasks
      s.kept s.distinct
