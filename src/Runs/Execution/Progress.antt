-- ===== src/Runs/Execution/Progress.antt =====
-- The run's progress: the counter is the number of results, a pair has one result at most, and a
-- completed run has a result for every pair.
use llm_evaluation_platform.Common.{ℕ, ◌≤◌, ◌≡◌, List, [], ◌∷◌, arith, length}
use llm_evaluation_platform.Runs.Models.{
  Status, pending, running, completed, failed, cancelled, Pair,
}
use llm_evaluation_platform.Runs.Execution.{
  Inputs, Phase, idle, loaded, executing, writing, finishing, cancelling, failing, stopped, World,
  Event, cancel, load, start, refresh, write, last_refresh, finish, fail, task_cancelled, terminate,
  crash, deliver, dispatch, step, run_events,
}
use llm_evaluation_platform.Runs.Execution.Pairs.{IsDistinct, IsSubset, length-le_of_subset}
use llm_evaluation_platform.Runs.Execution.Sound.{
  length-product, wanted, InPhase, IfCompleted, IsSound, moved-IsSound, task_count,
}
use llm_evaluation_platform.Runs.Execution.Preserved.{
  start-IsSound, refresh-IsSound, write-IsSound, last-IsSound, finish-IsSound, cancel-IsSound,
  terminal-IsSound, prepare-IsSound,
}

module _ (i : Inputs) where
  dispatch-IsSound :
      (p : Phase) (e : Event) (w : World)
      → InPhase i p w.results w.remaining w.run.total_tasks
      → IsSound i w
      → IsSound i (dispatch i p e w)
  unfolding dispatch
  dispatch-IsSound idle load w h s = prepare-IsSound i w s
  dispatch-IsSound (loaded copy) (start now) w h s = start-IsSound i copy now w s
  dispatch-IsSound (loaded copy) (fail m) w h s = moved-IsSound i (failing m) w tt s
  dispatch-IsSound (loaded copy) task_cancelled w h s = moved-IsSound i cancelling w tt s
  dispatch-IsSound executing (refresh k) w h s = refresh-IsSound i k w h s
  dispatch-IsSound executing last_refresh w h s = last-IsSound i w h s
  dispatch-IsSound executing (fail m) w h s = moved-IsSound i (failing m) w tt s
  dispatch-IsSound executing task_cancelled w h s = moved-IsSound i cancelling w tt s
  dispatch-IsSound (writing p count) write w h s = write-IsSound i p count w h s
  dispatch-IsSound (writing p count) (fail m) w h s = moved-IsSound i (failing m) w tt s
  dispatch-IsSound (writing p count) task_cancelled w h s = moved-IsSound i cancelling w tt s
  dispatch-IsSound finishing (finish now) w h s = finish-IsSound i now w h s
  dispatch-IsSound finishing (fail m) w h s = moved-IsSound i (failing m) w tt s
  dispatch-IsSound finishing task_cancelled w h s = moved-IsSound i cancelling w tt s
  dispatch-IsSound cancelling (terminate now) w h s =
      terminal-IsSound i cancelled "Cancelled by user" now w tt s
  dispatch-IsSound (failing m) (terminate now) w h s = terminal-IsSound i failed m now w tt s
  dispatch-IsSound stopped deliver w h s = moved-IsSound i idle w tt s
  dispatch-IsSound _ crash w h s = moved-IsSound i idle w tt s
  dispatch-IsSound _ (cancel now) w h s = cancel-IsSound i now w s
  dispatch-IsSound _ _ w h s = s

  run_events-IsSound : (w : World) (es : List Event) → IsSound i w → IsSound i (run_events i w es)
  unfolding run_events step
  run_events-IsSound w [] s = s
  run_events-IsSound w (e ∷ es) s =
      run_events-IsSound (dispatch i w.phase e w) es (dispatch-IsSound w.phase e w s.in_phase s)

  -- From a sound world on, however the worker's steps, cancellations, failures and crashes follow one
  -- another, the progress counter is the number of stored results, which never exceeds the number of
  -- pairs of an item and a variant, and no pair has two results.
  pub progress_bounded :
      (w : World) (es : List Event)
      → IsSound i w
      → ((run_events i w es).run.completed_tasks ≡ length (run_events i w es).results)
        × ((run_events i w es).run.completed_tasks ≤ (task_count i))
        × IsDistinct (run_events i w es).results
  progress_bounded w es s =
      let t = run_events-IsSound w es s in
      (
        t.counted,
        omega (
          arith,
          t.counted,
          length-le_of_subset (run_events i w es).results (wanted i) t.distinct t.known,
          length-product i.items i.variants,
        ),
        t.distinct,
      )

  completed-facts :
      (st : Status) (rs : List Pair) (total : ℕ)
      → st ≡ completed
      → IfCompleted i st rs total
      → IfCompleted i completed rs total
  completed-facts completed rs total e h = h
  completed-facts pending rs total e h = cc
  completed-facts running rs total e h = cc
  completed-facts failed rs total e h = cc
  completed-facts cancelled rs total e h = cc

  -- From a sound world on, where no two tasks are the same pair, a run that ends up completed has a
  -- result for every pair of an item and a variant, and its counter is its total, whatever happened
  -- before.
  pub completed_is_complete :
      (w : World) (es : List Event)
      → IsSound i w
      → IsDistinct (wanted i)
      → (run_events i w es).run.status ≡ completed
      → IsSubset (wanted i) (run_events i w es).results
        × ((run_events i w es).run.completed_tasks ≡ (run_events i w es).run.total_tasks)
  completed_is_complete w es s d e =
      let w' = run_events i w es in
      let t = run_events-IsSound w es s in
      let done = completed-facts w'.run.status w'.results w'.run.total_tasks e t.if_completed in
      (
        done.0,
        omega (
          arith,
          t.counted,
          done.1,
          length-le_of_subset w'.results (wanted i) t.distinct t.known,
          length-le_of_subset (wanted i) w'.results d done.0,
          length-product i.items i.variants,
        ),
      )
