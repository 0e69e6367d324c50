-- ===== src/Tasks/Tests.antt =====
-- A run that is started, refused a second start, ended, discarded and started again.
use llm_evaluation_platform.Common.{◌≤◌, ◌≡◌, refl, List, [], ◌∷◌, length, filter}
use llm_evaluation_platform.Tasks.Manager.{
  start, cancel, end_task, discard, shutdown, Event, start_run, cancel_run, task_ends, callback,
  shut_down, manage, manage_all, empty_manager,
}
use llm_evaluation_platform.Tasks.Manager.Single.{is_running, manage_all-single}

abbrev events : List Event
events =
    start_run 7
    ∷ start_run 7
    ∷ cancel_run 7
    ∷ task_ends 0
    ∷ start_run 7
    ∷ callback 7 0
    ∷ start_run 7
    ∷ callback 7 0
    ∷ shut_down
    ∷ []

-- Of four starts, the first and the last have made a task.
two_tasks : length (manage_all empty_manager events).tasks ≡ 2
unfolding manage_all manage start cancel end_task discard shutdown
two_tasks = refl

still_registered : (manage_all empty_manager events).registered ≡ (7, 1) ∷ []
unfolding manage_all manage start cancel end_task discard shutdown
still_registered = refl

manage_all-single_example :
    length (filter (is_running 7) (manage_all empty_manager events).tasks) ≤ 1
manage_all-single_example = manage_all-single events 7
