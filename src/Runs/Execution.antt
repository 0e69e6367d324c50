-- ===== src/Runs/Execution.antt =====
-- `execute_evaluation_run` of backend/services/run_execution.py, one database transaction or read at
-- a time, so that the cancel endpoint can come in between. `World` is the run's row, its results and
-- where the worker stands; an `Event` that does not fit the worker's phase changes nothing. A failed
-- decryption, an unsafe endpoint or any other exception is the event `fail`, with its message; the
-- death of the worker is `crash`, after which the task is delivered anew.
-- SQLAlchemy writes only the columns that differ from the worker's copy of the row. Log lines and
-- metrics are left out.
pub mod Pairs
pub mod Sound
pub mod Preserved
pub mod Progress
pub mod Cancellation
use llm_evaluation_platform.Common.{
  ℕ, zero, suc, ◌+◌, ◌*◌, String, Bool, true, false, ◌||◌, not, Option, none, some, List, [], ◌∷◌,
  ◌++◌, ◌==◌, if◌then◌else◌, is_none, is_some, length, filter, any, get_elem?,
}
use llm_evaluation_platform.Runs.Models.{
  Status, pending, running, completed, failed, cancelled, EvaluationRun, same_status, Pair,
  is_member,
}

-- A variant of the run, with the owner of its credential, if it has one.
pub record RunVariant : Type 0 where
  pub name : String
  pub credential_owner : Option ℕ

-- What the run is about; its dataset and its variants stay as they are while it runs.
pub record Inputs : Type 0 where
  pub owner_id : ℕ
  pub items : List String
  pub variants : List RunVariant

pub data Phase : Type 0 where
  -- before `_prepare_run`
  idle : Phase
  -- after its query, with the copy of the row, before its commit
  loaded : EvaluationRun → Phase
  -- between two results
  executing : Phase
  -- `persist_result` has refreshed its copy and found the run not cancelled
  writing : Pair → ℕ → Phase
  -- the last refresh found the run not cancelled
  finishing : Phase
  -- on the way to `_set_terminal_state`
  cancelling : Phase
  failing : String → Phase
  -- returned
  stopped : Phase

pub record World : Type 0 where
  pub run : EvaluationRun
  pub results : List Pair
  pub credentials_used_at : Option ℕ
  pub remaining : List Pair
  pub phase : Phase

pub data Event : Type 0 where
  -- the endpoint's atomic UPDATE
  cancel : ℕ → Event
  load : Event
  start : ℕ → Event
  -- the task at this place among the remaining ones has finished
  refresh : ℕ → Event
  write : Event
  last_refresh : Event
  finish : ℕ → Event
  -- an exception, and the cancellation of the asyncio task
  fail : String → Event
  task_cancelled : Event
  terminate : ℕ → Event
  crash : Event
  deliver : Event

abbrev pub product_row : String → List RunVariant → List Pair
product_row item [] = []
product_row item (v ∷ vs) = (item, v.name) ∷ product_row item vs

unfoldable pub product : List String → List RunVariant → List Pair
product [] vs = []
product (item ∷ items) vs = product_row item vs ++ product items vs

-- `variant.credential is not None and variant.credential.user_id != run.project.owner_id`
abbrev pub is_foreign : ℕ → RunVariant → Bool
is_foreign owner_id v = elim v.credential_owner [ none ↦ false | some u ↦ not (u == owner_id) ]

abbrev pub is_empty {ℓ} : {A : Type ℓ} → List A → Bool
is_empty [] = true
is_empty (x ∷ xs) = false

unfoldable pub inputs_error : Inputs → Option String
inputs_error i =
    if is_empty i.items || is_empty i.variants
    then some "RuntimeError: Run inputs are no longer available"
    else if any (is_foreign i.owner_id) i.variants
    then some "RuntimeError: Run contains a credential owned by another user"
    else none

abbrev pub or_now : Option ℕ → ℕ → Option ℕ
or_now none now = some now
or_now (some t) now = some t

-- A column of the row after an assignment, by the value in the worker's copy.
abbrev pub store_status : Status → Status → Status → Status
store_status copy new row = if same_status copy new then row else new

abbrev pub store_no_error : Option String → Option String → Option String
store_no_error copy row = if is_none copy then row else none

abbrev pub remove_at {ℓ} : {A : Type ℓ} → ℕ → List A → List A
remove_at i [] = []
remove_at zero (x ∷ xs) = xs
remove_at (suc i) (x ∷ xs) = x ∷ remove_at i xs

abbrev pub at : World → Phase → World
at w p = record w { phase = p }

-- The endpoint's UPDATE … WHERE status IN ('pending', 'running').
unfoldable pub cancel_run : ℕ → EvaluationRun → EvaluationRun
cancel_run now r =
    if same_status r.status pending || same_status r.status running
    then record r { status = cancelled; finished_at = some now; error = some "Cancelled by user" }
    else r

module _ (i : Inputs) where
  -- `_prepare_run` up to its commit.
  unfoldable pub prepare : World → World
  unfolding inputs_error
  prepare w =
      if same_status w.run.status completed || same_status w.run.status cancelled
      then at w stopped
      else elim (inputs_error i) [ none ↦ at w (loaded w.run) | some m ↦ at w (failing m) ]

  unfoldable pub start_run : EvaluationRun → ℕ → World → World
  unfolding product
  start_run copy now w =
      let r = w.run in
      record w {
        run = record r {
          status = store_status copy.status running r.status;
          started_at = or_now copy.started_at now;
          total_tasks = length i.items * length i.variants;
          completed_tasks = length w.results;
          error = store_no_error copy.error r.error;
        };
        credentials_used_at =
            if any (λ v. is_some v.credential_owner) i.variants
            then some now
            else w.credentials_used_at;
        remaining = filter (λ p. not (is_member p w.results)) (product i.items i.variants);
        phase = executing;
      }

  -- `session.refresh` and the check of `persist_result`, for the task that has finished.
  unfoldable pub refresh_result : ℕ → World → World
  refresh_result k w = elim (get_elem? w.remaining k) [
    | none ↦ w
    | some p ↦ if same_status w.run.status cancelled then at w cancelling else record w {
      remaining = remove_at k w.remaining;
      phase = writing p w.run.completed_tasks;
    }
  ]

  -- The commit of `persist_result`, under the unique index on run, item and variant.
  unfoldable pub write_result : Pair → ℕ → World → World
  write_result p count w =
      let r = w.run in
      if is_member p w.results then at w (failing "IntegrityError") else record w {
        run = record r { completed_tasks = count + 1 };
        results = p ∷ w.results;
        phase = executing;
      }

  unfoldable pub refresh_last : World → World
  refresh_last w =
      if is_empty w.remaining
      then (if same_status w.run.status cancelled then at w cancelling else at w finishing)
      else w

  -- The copy's error is already `None`, so the row's is left.
  unfoldable pub finish_run : ℕ → World → World
  finish_run now w =
      let r = w.run in
      record w { run = record r { status = completed; finished_at = some now }; phase = stopped }

  -- `_set_terminal_state`
  unfoldable pub set_terminal_state : Status → String → ℕ → World → World
  set_terminal_state s message now w =
      let r = w.run in
      record w {
        run = record r { status = s; finished_at = some now; error = some message };
        phase = stopped;
      }

  -- What the worker does next, by its phase.
  unfoldable pub dispatch : Phase → Event → World → World
  dispatch idle load w = prepare w
  dispatch (loaded copy) (start now) w = start_run copy now w
  dispatch (loaded copy) (fail m) w = at w (failing m)
  dispatch (loaded copy) task_cancelled w = at w cancelling
  dispatch executing (refresh k) w = refresh_result k w
  dispatch executing last_refresh w = refresh_last w
  dispatch executing (fail m) w = at w (failing m)
  dispatch executing task_cancelled w = at w cancelling
  dispatch (writing p count) write w = write_result p count w
  dispatch (writing p count) (fail m) w = at w (failing m)
  dispatch (writing p count) task_cancelled w = at w cancelling
  dispatch finishing (finish now) w = finish_run now w
  dispatch finishing (fail m) w = at w (failing m)
  dispatch finishing task_cancelled w = at w cancelling
  dispatch cancelling (terminate now) w = set_terminal_state cancelled "Cancelled by user" now w
  dispatch (failing m) (terminate now) w = set_terminal_state failed m now w
  dispatch stopped deliver w = at w idle
  dispatch _ crash w = at w idle
  dispatch _ (cancel now) w = record w { run = cancel_run now w.run }
  dispatch _ _ w = w

  unfoldable pub step : World → Event → World
  unfolding dispatch
  step w e = dispatch w.phase e w

  unfoldable pub run_events : World → List Event → World
  run_events w [] = w
  run_events w (e ∷ es) = run_events (step w e) es
