-- ===== src/Runs/Execution/Sound.antt =====
-- What holds of a run and its worker between any two events.
use llm_evaluation_platform.Common.{
  ℕ, suc, ◌*◌, String, ◌≡◌, refl, ap, true, ◌||◌, List, [], ◌∷◌, arith, length, All, length-append,
}
use llm_evaluation_platform.Runs.Models.{Status, completed, Pair, is_member}
use llm_evaluation_platform.Runs.Execution.{
  RunVariant, Inputs, Phase, executing, writing, finishing, World, product_row, product,
}
use llm_evaluation_platform.Runs.Execution.Pairs.{IsDistinct, IsSubset}

length-product_row :
    (item : String) (vs : List RunVariant) → length (product_row item vs) ≡ length vs
length-product_row item [] = refl
length-product_row item (v ∷ vs) = ap suc (length-product_row item vs)

pub length-product :
    (items : List String) (vs : List RunVariant)
    → length (product items vs) ≡ length items * length vs
unfolding product
length-product [] vs = omega arith
length-product (item ∷ items) vs = omega (
  arith,
  length-append (product_row item vs) (product items vs),
  length-product_row item vs,
  length-product items vs,
)

module _ (i : Inputs) where
  abbrev pub wanted : List Pair
  wanted = product i.items i.variants

  abbrev pub task_count : ℕ
  task_count = length i.items * length i.variants

  -- Every wanted pair has a result or a task that is not finished.
  abbrev pub IsCovered : List Pair → List Pair → Type 0
  IsCovered rs ts = All (λ q. (is_member q rs || is_member q ts) ≡ true) wanted

  abbrev pub InPhase : Phase → List Pair → List Pair → ℕ → Type 0
  InPhase executing results remaining total =
      IsCovered results remaining × IsSubset remaining wanted × (total ≡ task_count)
  InPhase (writing p count) results remaining total =
      IsCovered results (p ∷ remaining)
      × IsSubset (p ∷ remaining) wanted
      × (total ≡ task_count)
      × (count ≡ length results)
  InPhase finishing results remaining total = IsSubset wanted results × (total ≡ task_count)
  InPhase _ results remaining total = Unit

  abbrev pub IfCompleted : Status → List Pair → ℕ → Type 0
  IfCompleted completed results total = IsSubset wanted results × (total ≡ task_count)
  IfCompleted _ results total = Unit

  -- The counter, the results and the total agree with one another and with the inputs.
  pub record IsSound (w : World) : Type 0 where
    pub counted : w.run.completed_tasks ≡ length w.results
    pub distinct : IsDistinct w.results
    pub known : IsSubset w.results wanted
    pub in_phase : InPhase w.phase w.results w.remaining w.run.total_tasks
    pub if_completed : IfCompleted w.run.status w.results w.run.total_tasks

  -- A phase of which nothing is asked.
  pub moved-IsSound :
      (p : Phase) (w : World)
      → InPhase p w.results w.remaining w.run.total_tasks
      → IsSound w
      → IsSound (record w { phase = p })
  moved-IsSound p w h s = record {
    counted = s.counted;
    distinct = s.distinct;
    known = s.known;
    in_phase = h;
    if_completed = s.if_completed;
  }
