-- ===== src/Tasks/Manager.antt =====
-- `RunTaskManager` as a machine. Tasks are numbered in the order of their creation. One event is what
-- happens between two awaits: a call of a method up to its await, a task that ends, and the callback
-- that the event loop makes some time after that.
pub mod Sound
pub mod Single
use llm_evaluation_platform.Common.{
  ℕ, ◌+◌, Bool, true, false, ◌&&◌, not, Option, none, some, List, [], ◌∷◌, ◌++◌, ◌==◌,
  if◌then◌else◌, length, filter, any,
}

pub record Task : Type 0 where
  pub id : ℕ
  pub run_id : ℕ
  pub is_done : Bool
  pub cancel_requested : Bool

-- `_tasks`, from runs to tasks, and the tasks of the event loop.
pub record Manager : Type 0 where
  pub registered : List (ℕ × ℕ)
  pub tasks : List Task

abbrev pub lookup_run : ℕ → List (ℕ × ℕ) → Option ℕ
lookup_run r [] = none
lookup_run r ((k, t) ∷ m) = let rest = lookup_run r m in if k == r then some t else rest

abbrev pub forget : ℕ → List (ℕ × ℕ) → List (ℕ × ℕ)
forget r = filter (λ (p : ℕ × ℕ). not (p.0 == r))

-- Changes of the tasks with an id.
abbrev pub change_task : ℕ → (Task → Task) → List Task → List Task
change_task t f [] = []
change_task t f (x ∷ xs) =
    let rest = change_task t f xs in if x.id == t then f x ∷ rest else x ∷ rest

abbrev pub is_done_task : ℕ → List Task → Bool
is_done_task t [] = false
is_done_task t (x ∷ xs) = let rest = is_done_task t xs in if x.id == t then x.is_done else rest

-- Whether the run was scheduled; `false` is the RuntimeError.
unfoldable pub start : ℕ → Manager → Bool × Manager
start r m = elim (lookup_run r m.registered) [
  | some t ↦ (false, m)
  | none ↦ (
    true,
    record {
      registered = (r, length m.tasks) ∷ m.registered;
      tasks =
          m.tasks
          ++ record { id = length m.tasks; run_id = r; is_done = false; cancel_requested = false }
            ∷ [];
    },
  )
]

abbrev pub request_cancel : Task → Task
request_cancel x = record x { cancel_requested = true }

-- `cancel` up to its await.
unfoldable pub cancel : ℕ → Manager → Bool × Manager
cancel r m = elim (lookup_run r m.registered) [
  | none ↦ (false, m)
  | some t ↦
      if is_done_task t m.tasks
      then (false, m)
      else (true, record m { tasks = change_task t request_cancel m.tasks })
]

-- A task that returns, fails or was cancelled.
unfoldable pub end_task : ℕ → Manager → Manager
end_task t m = record m { tasks = change_task t (λ x. record x { is_done = true }) m.tasks }

-- `_discard`
unfoldable pub discard : ℕ → ℕ → Manager → Manager
discard r t m = elim (lookup_run r m.registered) [
  | none ↦ m
  | some k ↦ if k == t then record m { registered = forget r m.registered } else m
]

abbrev pub registered_task : ℕ → List (ℕ × ℕ) → Bool
registered_task t = any (λ (p : ℕ × ℕ). p.1 == t)

abbrev pub cancel_all : List (ℕ × ℕ) → List Task → List Task
cancel_all m [] = []
cancel_all m (x ∷ xs) =
    let rest = cancel_all m xs in
    if registered_task x.id m && not x.is_done then request_cancel x ∷ rest else x ∷ rest

-- `shutdown` up to its await.
unfoldable pub shutdown : Manager → Manager
shutdown m = record m { tasks = cancel_all m.registered m.tasks }

pub data Event : Type 0 where
  start_run : ℕ → Event
  cancel_run : ℕ → Event
  task_ends : ℕ → Event
  callback : ℕ → ℕ → Event
  shut_down : Event

unfoldable pub manage : Manager → Event → Manager
unfolding start cancel end_task discard shutdown
manage m (start_run r) = (start r m).1
manage m (cancel_run r) = (cancel r m).1
manage m (task_ends t) = end_task t m
-- A callback is made for a task that is done.
manage m (callback r t) = if is_done_task t m.tasks then discard r t m else m
manage m shut_down = shutdown m

unfoldable pub manage_all : Manager → List Event → Manager
unfolding manage
manage_all m [] = m
manage_all m (e ∷ es) = manage_all (manage m e) es

abbrev pub empty_manager : Manager
empty_manager = record { registered = []; tasks = [] }
