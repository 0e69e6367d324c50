-- ===== src/Runs/Execution/Cancellation.antt =====
-- Cancellation against the worker: where it holds, and the windows in which it is lost.
use llm_evaluation_platform.Common.{
  ℕ, ◌+◌, ◌≤◌, ◌≡◌, refl, ◌∙◌, ◌⊎◌, Bool, true, false, List, [], ◌∷◌, arith, length, All,
}
use llm_evaluation_platform.Runs.Models.{
  Status, pending, running, completed, cancelled, EvaluationRun, Pair, is_member,
}
use llm_evaluation_platform.Runs.Execution.{
  Inputs, Phase, idle, loaded, executing, writing, finishing, cancelling, failing, stopped, World,
  Event, cancel, start, finish, fail, cancel_run, prepare, start_run, refresh_result, write_result,
  refresh_last, finish_run, set_terminal_state, dispatch, step, run_events,
}

-- An exception of the worker, whose handler writes its own terminal state.
abbrev pub is_failure : Event → Bool
is_failure (fail m) = true
is_failure _ = false

abbrev pub HasNoFailure : List Event → Type 0
HasNoFailure = All (λ e. is_failure e ≡ false)

-- The run is cancelled, and the worker has not passed a check that it relies on: it is not between
-- its query and its first commit, not between its last check and its last commit, and in no failure.
-- One result may be on its way to its commit.
abbrev pub IsDoomed : Phase → List Pair → Status → Type 0
IsDoomed (loaded copy) rs st = ⊥
IsDoomed finishing rs st = ⊥
IsDoomed (failing m) rs st = ⊥
IsDoomed (writing p count) rs st = (st ≡ cancelled) × (is_member p rs ≡ false)
IsDoomed _ rs st = st ≡ cancelled

-- The results that are on their way.
abbrev on_the_way : Phase → ℕ
on_the_way (writing p count) = 1
on_the_way _ = 0

module _ (i : Inputs) where
  IsDoomed-step :
      (p : Phase) (e : Event) (w : World)
      → w.phase ≡ p
      → is_failure e ≡ false
      → IsDoomed p w.results w.run.status
      → IsDoomed (dispatch i p e w).phase (dispatch i p e w).results (dispatch i p e w).run.status
        × (length (dispatch i p e w).results + on_the_way (dispatch i p e w).phase
            ≤ length w.results + on_the_way p)
  unfolding dispatch prepare refresh_result write_result refresh_last set_terminal_state cancel_run
  IsDoomed-step idle e w q n d = ground arith
  IsDoomed-step (loaded copy) e w q n d = absurd d
  IsDoomed-step executing e w q n d = ground arith
  IsDoomed-step (writing p count) e w q n d = ground arith
  IsDoomed-step finishing e w q n d = absurd d
  IsDoomed-step cancelling e w q n d = ground arith
  IsDoomed-step (failing m) e w q n d = absurd d
  IsDoomed-step stopped e w q n d = ground arith

  -- Where a run is cancelled while the worker is not between its query and its first commit, not between
  -- its last check and its last commit and in no failure, a result on its way is not stored yet, and no
  -- exception of the worker follows, the run stays cancelled and gets at most the one result that was
  -- on its way, through any further steps, crashes and deliveries.
  pub cancel_holds :
      (w : World) (es : List Event)
      → HasNoFailure es
      → IsDoomed w.phase w.results w.run.status
      → ((run_events i w es).run.status ≡ cancelled)
        × (length (run_events i w es).results ≤ length w.results + on_the_way w.phase)
  unfolding run_events step
  cancel_holds w [] n d = (doomed_status w.phase w.results w.run.status d, omega arith)
    where
      doomed_status : (p : Phase) (rs : List Pair) (st : Status) → IsDoomed p rs st → st ≡ cancelled
      doomed_status idle rs st h = h
      doomed_status (loaded copy) rs st h = absurd h
      doomed_status executing rs st h = h
      doomed_status (writing p count) rs st h = h.0
      doomed_status finishing rs st h = absurd h
      doomed_status cancelling rs st h = h
      doomed_status (failing m) rs st h = absurd h
      doomed_status stopped rs st h = h
  cancel_holds w (e ∷ es) n d =
      let (d', less) = IsDoomed-step w.phase e w refl n.0 d in
      let (st, count) = cancel_holds (dispatch i w.phase e w) es n.1 d' in
      (st, omega (arith, less, count))

  -- A cancellation that the endpoint accepts after the worker's last check, before its last commit, is
  -- overwritten: the run ends completed.
  pub cancel_lost_at_finish :
      (w : World) (t u : ℕ)
      → w.phase ≡ finishing
      → w.run.status ≡ running
      → ((step i w (cancel t)).run.status ≡ cancelled)
        × ((run_events i w (cancel t ∷ finish u ∷ [])).run.status ≡ completed)
  unfolding run_events step dispatch cancel_run finish_run
  cancel_lost_at_finish w t u p s = ground arith

  -- A cancellation that the endpoint accepts between the worker's query and its first commit is
  -- overwritten too: the run is running again and its tasks are started.
  pub cancel_lost_at_start :
      (w : World) (copy : EvaluationRun) (t u : ℕ)
      → w.phase ≡ loaded copy
      → copy.status ≡ pending
      → w.run.status ≡ pending
      → ((step i w (cancel t)).run.status ≡ cancelled)
        × ((run_events i w (cancel t ∷ start u ∷ [])).run.status ≡ running)
        × ((run_events i w (cancel t ∷ start u ∷ [])).phase ≡ executing)
  unfolding run_events step dispatch cancel_run start_run
  cancel_lost_at_start w copy t u p s r = ground arith

  completed-step :
      (p : Phase) (e : Event) (w : World)
      → w.phase ≡ p
      → w.run.status ≡ completed
      → (p ≡ stopped) ⊎ (p ≡ idle)
      → let w' = dispatch i p e w in
        (w'.run.status ≡ completed)
        × (w'.results ≡ w.results)
        × ((w'.phase ≡ stopped) ⊎ (w'.phase ≡ idle))
  unfolding dispatch prepare cancel_run
  completed-step idle e w f s q = ground arith
  completed-step stopped e w f s q = ground arith
  completed-step _ e w f s q = absurd (ground arith)

  -- A completed run, whose worker has returned or waits for a delivery, stays completed and keeps
  -- its results, through any further events.
  pub completed_is_final :
      (w : World) (es : List Event)
      → w.run.status ≡ completed
      → (w.phase ≡ stopped) ⊎ (w.phase ≡ idle)
      → ((run_events i w es).run.status ≡ completed) × ((run_events i w es).results ≡ w.results)
  unfolding run_events step
  completed_is_final w [] s p = (s, refl)
  completed_is_final w (e ∷ es) s p =
      let (s', same, p') = completed-step w.phase e w refl s p in
      let (final, kept) = completed_is_final (dispatch i w.phase e w) es s' p' in
      (final, kept ∙ same)
