-- ===== src/Runs/Endpoints.antt =====
-- `cancel_evaluation_run` of backend/api/runs.py, with what the worker does between its queries. Whether
-- the run is found among those of the caller is a flag for each query. A scheduler that fails to revoke
-- the task is only logged.
use llm_evaluation_platform.Common.{
  ℕ, ◌≡◌, refl, ◌⊎◌, Bool, true, false, ◌&&◌, ◌||◌, not, Option, none, some, List, [], ◌∷◌, ◌++◌,
  arith, if◌then◌else◌,
}
use llm_evaluation_platform.Runs.Models.{
  Status, pending, running, cancelled, EvaluationRun, same_status,
}
use llm_evaluation_platform.Runs.Execution.{
  Inputs, Phase, World, Event, cancel, cancel_run, dispatch, step, run_events,
}
use llm_evaluation_platform.Runs.Execution.Cancellation.{HasNoFailure, IsDoomed, cancel_holds}

pub data Answer : Type 0 where
  reply : EvaluationRun → Answer
  -- 409 with the status in its text
  conflict : Status → Answer
  not_found : Answer

abbrev pub is_open : EvaluationRun → Bool
is_open r = same_status r.status pending || same_status r.status running

-- `get_owned_run`
unfoldable pub get_owned_run : Bool → EvaluationRun → Option EvaluationRun
get_owned_run owned r = if owned then some r else none

-- The flags of the three queries; the worker's steps after the first and after the UPDATE.
pub record Meanwhile : Type 0 where
  pub owned_at_first : Bool
  pub owned_at_update : Bool
  pub owned_at_last : Bool
  pub before_update : List Event
  pub after_update : List Event

module _ (i : Inputs) (m : Meanwhile) where
  abbrev pub at_update : World → World
  at_update w = run_events i w m.before_update

  -- The UPDATE has met no row, or has met it.
  unfoldable pub refuse : World → Answer × World
  unfolding get_owned_run
  refuse w =
      let w' = run_events i w m.after_update in
      (
        elim (get_owned_run m.owned_at_last w'.run) [
          | none ↦ not_found
          | some r ↦ conflict r.status
        ],
        w',
      )

  unfoldable pub confirm_cancel : ℕ → World → Answer × World
  unfolding get_owned_run
  confirm_cancel now w =
      let w' = run_events i (step i w (cancel now)) m.after_update in
      (elim (get_owned_run m.owned_at_last w'.run) [ none ↦ not_found | some r ↦ reply r ], w')

  unfoldable pub cancel_evaluation_run : ℕ → World → Answer × World
  unfolding refuse confirm_cancel
  cancel_evaluation_run now w = elim (get_owned_run m.owned_at_first w.run) [
    | none ↦ (not_found, w)
    | some r ↦
        if not (is_open r)
        then (conflict r.status, w)
        else if m.owned_at_update && is_open (at_update w).run
        then confirm_cancel now (at_update w)
        else refuse (at_update w)
  ]

  run_events_append :
      (es fs : List Event) (w : World)
      → run_events i w (es ++ fs) ≡ run_events i (run_events i w es) fs
  unfolding run_events
  run_events_append [] fs w = refl
  run_events_append (e ∷ es) fs w = run_events_append es fs (step i w e)

  cancels :
      (now : ℕ) (w : World) → is_open w.run ≡ true → (step i w (cancel now)).run.status ≡ cancelled
  unfolding step dispatch cancel_run
  cancels now w h = phase_cancels w.phase
    where
      phase_cancels : (p : Phase) → (dispatch i p (cancel now) w).run.status ≡ cancelled
      phase_cancels p = ground (arith, h)

  -- What the worlds before and after have to do with the answer: a reply follows an UPDATE; a conflict
  -- none; a 404 is one of the first query, or one of the last, after an UPDATE that met no row or one.
  abbrev pub IsHonest : ℕ → World → World → Answer → Type 0
  IsHonest now w w' (reply r) =
      (m.owned_at_first ≡ true)
      × (is_open w.run ≡ true)
      × (m.owned_at_update ≡ true)
      × (is_open (at_update w).run ≡ true)
      × (m.owned_at_last ≡ true)
      × ((step i (at_update w) (cancel now)).run.status ≡ cancelled)
      × (w' ≡ run_events i (step i (at_update w) (cancel now)) m.after_update)
      × (r ≡ w'.run)
  IsHonest now w w' (conflict st) =
      ((m.owned_at_first ≡ true) × (is_open w.run ≡ false) × (w' ≡ w) × (st ≡ w.run.status))
      ⊎ ((m.owned_at_first ≡ true)
          × ((m.owned_at_update && is_open (at_update w).run) ≡ false)
          × (m.owned_at_last ≡ true)
          × (w' ≡ run_events i w (m.before_update ++ m.after_update))
          × (st ≡ w'.run.status))
  IsHonest now w w' not_found =
      ((m.owned_at_first ≡ false) × (w' ≡ w))
      ⊎ ((m.owned_at_last ≡ false)
          × ((m.owned_at_update && is_open (at_update w).run) ≡ false)
          × (w' ≡ run_events i w (m.before_update ++ m.after_update)))
      ⊎ ((m.owned_at_last ≡ false)
          × (m.owned_at_update ≡ true)
          × (is_open (at_update w).run ≡ true)
          × ((step i (at_update w) (cancel now)).run.status ≡ cancelled)
          × (w' ≡ run_events i (step i (at_update w) (cancel now)) m.after_update))

  -- What an answer says of the cancellation. A reply with the run: the caller owned the run at each of the
  -- three queries, the run was open at the first and at the UPDATE and cancelled after it, and the
  -- answer is the run as it then stands. A conflict: the endpoint has changed nothing, the world is as
  -- it was or as the worker alone has made it, and the status in the answer is that of the run. A 404:
  -- the caller did not own the run at first and nothing has happened, or does not own it at the last
  -- query; then the worker alone has acted, or the UPDATE has cancelled an open run of the caller.
  pub cancel_answers :
      (now : ℕ) (w w' : World) (a : Answer)
      → cancel_evaluation_run now w ≡ (a, w')
      → IsHonest now w w' a
  unfolding cancel_evaluation_run get_owned_run refuse confirm_cancel
  cancel_answers now w w' (reply r) e = (
    ground arith,
    ground arith,
    ground arith,
    ground arith,
    ground arith,
    cancels now (at_update w) (ground arith),
    ground arith,
    ground arith,
  )
  cancel_answers now w w' (conflict st) e =
      ground (arith, run_events_append m.before_update m.after_update w)
  cancel_answers now w w' not_found e =
      ground (arith, run_events_append m.before_update m.after_update w, cancels now (at_update w))

  -- Where the UPDATE met the worker between two results or waiting for a delivery, and no exception
  -- follows in the worker, a run that the endpoint answers with is cancelled.
  pub cancel_confirmed :
      (now : ℕ) (w w' : World) (r : EvaluationRun)
      → cancel_evaluation_run now w ≡ (reply r, w')
      → HasNoFailure m.after_update
      → (let u = step i (at_update w) (cancel now) in IsDoomed u.phase u.results u.run.status)
      → r.status ≡ cancelled
  cancel_confirmed now w w' r e n d =
      let (first, was_open, owned, open_then, last, done, is_w', is_r) =
        cancel_answers now w w' (reply r) e in
      ground (
        arith,
        is_w',
        is_r,
        (cancel_holds i (step i (at_update w) (cancel now)) m.after_update n d).0,
      )
