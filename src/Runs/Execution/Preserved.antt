-- ===== src/Runs/Execution/Preserved.antt =====
-- Each step of the worker, and each cancellation, keeps what holds between events.
use llm_evaluation_platform.Common.{
  ℕ, String, ◌≡◌, refl, ◌∙◌, inl, inr, true, ◌||◌, not, some, List, [], ◌∷◌, arith, Bool-cases,
  Option-cases, filter, get_elem?, All,
}
use llm_evaluation_platform.Runs.Models.{
  Status, pending, running, completed, failed, cancelled, EvaluationRun, same_status, Pair,
  is_member,
}
use llm_evaluation_platform.Runs.Execution.{
  Inputs, loaded, executing, writing, finishing, cancelling, failing, stopped, World, store_status,
  inputs_error, remove_at, cancel_run, prepare, start_run, refresh_result, write_result,
  refresh_last, finish_run, set_terminal_state, is_empty,
}
use llm_evaluation_platform.Runs.Execution.Pairs.{
  IsSubset, member-remove_at, All-get_elem?, All-remove_at, All-map, filter-subset, member-filter,
  subset-refl_from, subset_refl,
}
use llm_evaluation_platform.Runs.Execution.Sound.{
  wanted, InPhase, IfCompleted, IsSound, moved-IsSound, task_count,
}

module _ (i : Inputs) where
  start-covered :
      (rs ps : List Pair)
      → IsSubset ps (wanted i)
      → All
          (λ q.
            (is_member q rs || is_member q (filter (λ p. not (is_member p rs)) (wanted i))) ≡ true)
          ps
  start-covered rs [] h = tt
  start-covered rs (p ∷ ps) h = (
    ground (arith, member-filter (λ q. not (is_member q rs)) p (wanted i) h.0),
    start-covered rs ps h.1,
  )

  start-IfCompleted :
      (copy row : Status) (rs : List Pair) (total : ℕ)
      → IfCompleted i row rs total
      → IfCompleted i (store_status copy running row) rs (task_count i)
  start-IfCompleted copy completed rs total h = ground (arith, h)
  start-IfCompleted copy pending rs total h = ground arith
  start-IfCompleted copy running rs total h = ground arith
  start-IfCompleted copy failed rs total h = ground arith
  start-IfCompleted copy cancelled rs total h = ground arith

  pub start-IsSound :
      (copy : EvaluationRun) (now : ℕ) (w : World)
      → IsSound i w
      → IsSound i (start_run i copy now w)
  unfolding start_run
  start-IsSound copy now w s = record {
    counted = refl;
    distinct = s.distinct;
    known = s.known;
    in_phase = (
      start-covered w.results (wanted i) (subset_refl (wanted i)),
      filter-subset (λ p. not (is_member p w.results)) (wanted i) (wanted i)
          (subset_refl (wanted i)),
      refl,
    );
    if_completed =
        start-IfCompleted copy.status w.run.status w.results w.run.total_tasks s.if_completed;
  }

  picked-covered :
      (rs ts : List Pair) (k : ℕ) (p : Pair) (ps : List Pair)
      → get_elem? ts k ≡ some p
      → All (λ q. (is_member q rs || is_member q ts) ≡ true) ps
      → All (λ q. (is_member q rs || is_member q (p ∷ remove_at k ts)) ≡ true) ps
  picked-covered rs ts k p ps e h =
      All-map (λ q. (is_member q rs || is_member q ts) ≡ true)
        (λ q. (is_member q rs || is_member q (p ∷ remove_at k ts)) ≡ true) ps
        (λ q m. ground (arith, member-remove_at k ts p q e)) h

  pub refresh-IsSound :
      (k : ℕ) (w : World)
      → InPhase i executing w.results w.remaining w.run.total_tasks
      → IsSound i w
      → IsSound i (refresh_result i k w)
  unfolding refresh_result
  refresh-IsSound k w h s = elim (Option-cases (get_elem? w.remaining k)) [
    | inl missing ↦ rw (missing, refresh_result) s
    | inr (p, found) ↦
        rw (found, refresh_result)
          (elim (Bool-cases (same_status w.run.status cancelled)) [
            | inl gone ↦ rw gone (moved-IsSound i cancelling w tt s)
            | inr live ↦ rw live (record {
              counted = s.counted;
              distinct = s.distinct;
              known = s.known;
              in_phase = (
                picked-covered w.results w.remaining k p (wanted i) found h.0,
                (
                  All-get_elem? (λ q. is_member q (wanted i) ≡ true) k w.remaining p found h.1,
                  All-remove_at (λ q. is_member q (wanted i) ≡ true) k w.remaining h.1,
                ),
                h.2,
                s.counted,
              );
              if_completed = s.if_completed;
            })
          ])
  ]

  written-covered :
      (rs ts : List Pair) (p : Pair) (ps : List Pair)
      → All (λ q. (is_member q rs || is_member q (p ∷ ts)) ≡ true) ps
      → All (λ q. (is_member q (p ∷ rs) || is_member q ts) ≡ true) ps
  written-covered rs ts p ps h =
      All-map (λ q. (is_member q rs || is_member q (p ∷ ts)) ≡ true)
        (λ q. (is_member q (p ∷ rs) || is_member q ts) ≡ true) ps (λ q m. ground arith) h

  more-IfCompleted :
      (st : Status) (rs : List Pair) (p : Pair) (total : ℕ)
      → IfCompleted i st rs total
      → IfCompleted i st (p ∷ rs) total
  more-IfCompleted completed rs p total h = (subset-refl_from (wanted i) rs h.0 p, h.1)
  more-IfCompleted _ rs p total h = tt

  pub write-IsSound :
      (p : Pair) (count : ℕ) (w : World)
      → InPhase i (writing p count) w.results w.remaining w.run.total_tasks
      → IsSound i w
      → IsSound i (write_result i p count w)
  unfolding write_result
  write-IsSound p count w h s = elim (Bool-cases (is_member p w.results)) [
    | inl twice ↦ rw twice (moved-IsSound i (failing "IntegrityError") w tt s)
    | inr new ↦ rw new (record {
      counted = omega (arith, h.3);
      distinct = (new, s.distinct);
      known = (h.1.0, s.known);
      in_phase = (written-covered w.results w.remaining p (wanted i) h.0, h.1.1, h.2);
      if_completed = more-IfCompleted w.run.status w.results p w.run.total_tasks s.if_completed;
    })
  ]

  finished-covered :
      (rs ps : List Pair) → All (λ q. (is_member q rs || is_member q []) ≡ true) ps → IsSubset ps rs
  finished-covered rs ps h =
      All-map (λ q. (is_member q rs || is_member q []) ≡ true) (λ q. is_member q rs ≡ true) ps
        (λ q m. ground arith) h

  none_left : (ts : List Pair) → is_empty ts ≡ true → ts ≡ []
  none_left [] e = refl
  none_left (t ∷ ts) e = cc

  pub last-IsSound :
      (w : World)
      → InPhase i executing w.results w.remaining w.run.total_tasks
      → IsSound i w
      → IsSound i (refresh_last i w)
  unfolding refresh_last
  last-IsSound w h s = elim (Bool-cases (is_empty w.remaining)) [
    | inr more ↦ rw more s
    | inl all_done ↦ rw all_done (elim (Bool-cases (same_status w.run.status cancelled)) [
      | inl gone ↦ rw gone (moved-IsSound i cancelling w tt s)
      | inr live ↦ rw live (
          moved-IsSound i finishing w
            (
              finished-covered w.results (wanted i) (rw (none_left w.remaining all_done) at h.0),
              h.2,
            )
            s)
    ])
  ]

  pub finish-IsSound :
      (now : ℕ) (w : World)
      → InPhase i finishing w.results w.remaining w.run.total_tasks
      → IsSound i w
      → IsSound i (finish_run i now w)
  unfolding finish_run
  finish-IsSound now w h s = record {
    counted = s.counted;
    distinct = s.distinct;
    known = s.known;
    in_phase = tt;
    if_completed = h;
  }

  -- An update of the row that leaves the counters alone and does not complete the run.
  updated-IsSound :
      (r : EvaluationRun) (w : World)
      → r.completed_tasks ≡ w.run.completed_tasks
      → r.total_tasks ≡ w.run.total_tasks
      → IfCompleted i r.status w.results w.run.total_tasks
      → IsSound i w
      → IsSound i (record w { run = r })
  updated-IsSound r w c t d s = record {
    counted = c ∙ s.counted;
    distinct = s.distinct;
    known = s.known;
    in_phase = rw t s.in_phase;
    if_completed = rw t d;
  }

  cancelled-IfCompleted :
      (now : ℕ) (r : EvaluationRun) (rs : List Pair) (total : ℕ)
      → IfCompleted i r.status rs total
      → IfCompleted i (cancel_run now r).status rs total
  unfolding cancel_run
  cancelled-IfCompleted now r rs total h =
      elim (Bool-cases (same_status r.status pending || same_status r.status running)) [
        | inl open_run ↦ rw open_run tt
        | inr over ↦ rw over h
      ]

  cancel-counters :
      (now : ℕ) (r : EvaluationRun)
      → ((cancel_run now r).completed_tasks ≡ r.completed_tasks)
        × ((cancel_run now r).total_tasks ≡ r.total_tasks)
  unfolding cancel_run
  cancel-counters now r = ground arith

  pub cancel-IsSound :
      (now : ℕ) (w : World) → IsSound i w → IsSound i (record w { run = cancel_run now w.run })
  cancel-IsSound now w s =
      updated-IsSound (cancel_run now w.run) w (cancel-counters now w.run).0
        (cancel-counters now w.run).1
        (cancelled-IfCompleted now w.run w.results w.run.total_tasks s.if_completed) s

  pub terminal-IsSound :
      (st : Status) (m : String) (now : ℕ) (w : World)
      → IfCompleted i st w.results w.run.total_tasks
      → IsSound i w
      → IsSound i (set_terminal_state i st m now w)
  unfolding set_terminal_state
  terminal-IsSound st m now w d s = record {
    counted = s.counted;
    distinct = s.distinct;
    known = s.known;
    in_phase = tt;
    if_completed = d;
  }

  pub prepare-IsSound : (w : World) → IsSound i w → IsSound i (prepare i w)
  unfolding prepare
  prepare-IsSound w s =
      elim (Bool-cases (same_status w.run.status completed || same_status w.run.status cancelled)) [
        | inl over ↦ rw over (moved-IsSound i stopped w tt s)
        | inr go ↦ rw go (elim (Option-cases (inputs_error i)) [
          | inl fine ↦ rw (fine, prepare) (moved-IsSound i (loaded w.run) w tt s)
          | inr (m, bad) ↦ rw (bad, prepare) (moved-IsSound i (failing m) w tt s)
        ])
      ]
