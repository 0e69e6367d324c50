-- ===== src/Runs/Tests.antt =====
-- Runs of the worker on a small project, and the theorems at such runs.
use llm_evaluation_platform.Common.{◌≤◌, ◌≡◌, refl, true, none, some, List, [], ◌∷◌, length}
use llm_evaluation_platform.Runs.Endpoints.{
  Answer, reply, Meanwhile, cancel_evaluation_run, confirm_cancel, get_owned_run, IsHonest,
  cancel_answers, cancel_confirmed,
}
use llm_evaluation_platform.Runs.Models.{pending, running, completed, cancelled, EvaluationRun}
use llm_evaluation_platform.Runs.Execution.{
  Inputs, idle, loaded, executing, writing, finishing, stopped, World, Event, cancel, load, start,
  refresh, write, last_refresh, finish, terminate, crash, deliver, product, inputs_error,
  cancel_run, prepare, start_run, refresh_result, write_result, refresh_last, finish_run,
  set_terminal_state, dispatch, step, run_events,
}
use llm_evaluation_platform.Runs.Execution.Pairs.{IsDistinct, IsSubset}
use llm_evaluation_platform.Runs.Execution.Sound.{IsSound, task_count, wanted}
use llm_evaluation_platform.Runs.Execution.Progress.{progress_bounded, completed_is_complete}
use llm_evaluation_platform.Runs.Execution.Cancellation.{
  cancel_holds, cancel_lost_at_finish, cancel_lost_at_start,
}

abbrev inputs : Inputs
inputs = record {
  owner_id = 1;
  items = "a" ∷ "b" ∷ [];
  variants = record { name = "v"; credential_owner = some 1 } ∷ [];
}

abbrev row : EvaluationRun
row = record {
  id = 1;
  project_id = 2;
  dataset_id = 3;
  status = pending;
  concurrency = 2;
  total_tasks = 2;
  completed_tasks = 0;
  started_at = none;
  finished_at = none;
  error = none;
}

abbrev queued : World
queued = record {
  run = row;
  results = [];
  credentials_used_at = none;
  remaining = [];
  phase = idle;
}

queued-IsSound : IsSound inputs queued
queued-IsSound = record {
  counted = refl;
  distinct = tt;
  known = tt;
  in_phase = tt;
  if_completed = tt;
}

-- Both tasks finish, the second one first, and the worker is restarted once on the way.
abbrev whole_run : List Event
whole_run =
    deliver
    ∷ load
    ∷ start 1
    ∷ refresh 1
    ∷ write
    ∷ crash
    ∷ load
    ∷ start 2
    ∷ refresh 0
    ∷ write
    ∷ last_refresh
    ∷ finish 9
    ∷ []

whole_run_completes : (run_events inputs queued whole_run).run.status ≡ completed
unfolding run_events step dispatch prepare inputs_error start_run product refresh_result
    write_result refresh_last finish_run
whole_run_completes = refl

progress_bounded_example :
    let w = run_events inputs queued whole_run in
    (w.run.completed_tasks ≡ length w.results)
    × (w.run.completed_tasks ≤ task_count inputs)
    × IsDistinct w.results
progress_bounded_example = progress_bounded inputs queued whole_run queued-IsSound

completed_is_complete_example :
    let w = run_events inputs queued whole_run in
    IsSubset (wanted inputs) w.results × (w.run.completed_tasks ≡ w.run.total_tasks)
unfolding product
completed_is_complete_example =
    completed_is_complete inputs queued whole_run queued-IsSound (refl, (refl, tt))
      whole_run_completes

-- The worker has refreshed its copy for the first result when the run is cancelled.
abbrev cancelled_row : EvaluationRun
cancelled_row = record row {
  status = cancelled;
  started_at = some 1;
  finished_at = some 3;
  error = some "Cancelled by user";
}

abbrev cancelled_world : World
cancelled_world = record {
  run = cancelled_row;
  results = [];
  credentials_used_at = some 1;
  remaining = ("b", "v") ∷ [];
  phase = writing ("a", "v") 0;
}

cancel_holds_example :
    let w = run_events inputs cancelled_world (write ∷ refresh 0 ∷ terminate 5 ∷ []) in
    (w.run.status ≡ cancelled) × (length w.results ≤ 1)
cancel_holds_example =
    cancel_holds inputs cancelled_world (write ∷ refresh 0 ∷ terminate 5 ∷ [])
      (refl, (refl, (refl, tt))) (refl, refl)

abbrev last_world : World
last_world = record {
  run = record row { status = running; completed_tasks = 2 };
  results = ("a", "v") ∷ ("b", "v") ∷ [];
  credentials_used_at = some 1;
  remaining = [];
  phase = finishing;
}

cancel_lost_at_finish_example :
    ((step inputs last_world (cancel 8)).run.status ≡ cancelled)
    × ((run_events inputs last_world (cancel 8 ∷ finish 9 ∷ [])).run.status ≡ completed)
cancel_lost_at_finish_example = cancel_lost_at_finish inputs last_world 8 9 refl refl

abbrev loaded_world : World
loaded_world = record queued { phase = loaded row }

cancel_lost_at_start_example :
    ((step inputs loaded_world (cancel 8)).run.status ≡ cancelled)
    × ((run_events inputs loaded_world (cancel 8 ∷ start 9 ∷ [])).run.status ≡ running)
    × ((run_events inputs loaded_world (cancel 8 ∷ start 9 ∷ [])).phase ≡ executing)
cancel_lost_at_start_example = cancel_lost_at_start inputs loaded_world row 8 9 refl refl refl

abbrev completed_world : World
completed_world = record last_world {
  run = record row { status = completed; completed_tasks = 2 };
  phase = stopped;
}

-- The worker is between two results when the UPDATE comes, and then finds the run cancelled.
abbrev running_world : World
running_world = record {
  run = record row { status = running; started_at = some 1 };
  results = [];
  credentials_used_at = some 1;
  remaining = ("a", "v") ∷ ("b", "v") ∷ [];
  phase = executing;
}

abbrev meanwhile : Meanwhile
meanwhile = record {
  owned_at_first = true;
  owned_at_update = true;
  owned_at_last = true;
  before_update = refresh 0 ∷ write ∷ [];
  after_update = refresh 0 ∷ terminate 5 ∷ [];
}

abbrev answered : Answer × World
answered = cancel_evaluation_run inputs meanwhile 4 running_world

abbrev answered_run : EvaluationRun
answered_run = answered.1.run

is_answered :
    cancel_evaluation_run inputs meanwhile 4 running_world ≡ (reply answered_run, answered.1)
unfolding cancel_evaluation_run confirm_cancel get_owned_run run_events step dispatch refresh_result
    write_result set_terminal_state cancel_run
is_answered = refl

cancel_answers_example : IsHonest inputs meanwhile 4 running_world answered.1 (reply answered_run)
cancel_answers_example =
    cancel_answers inputs meanwhile 4 running_world answered.1 (reply answered_run) is_answered

cancel_confirmed_example : answered_run.status ≡ cancelled
unfolding run_events step dispatch refresh_result write_result cancel_run
cancel_confirmed_example =
    cancel_confirmed inputs meanwhile 4 running_world answered.1 answered_run is_answered
      (refl, (refl, tt)) refl
