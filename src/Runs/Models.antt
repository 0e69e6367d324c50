-- ===== src/Runs/Models.antt =====
-- The row of `evaluation_runs` in backend/db/models.py. The rows of `evaluation_results` of one run
-- are the pairs of item and variant that they belong to.
use llm_evaluation_platform.Common.{ℕ, String, Bool, true, false, ◌&&◌, Option, List, str_eq, any}

pub data Status : Type 0 where
  pending running completed failed cancelled : Status

pub record EvaluationRun : Type 0 where
  pub id : ℕ
  pub project_id : ℕ
  pub dataset_id : ℕ
  pub status : Status
  pub concurrency : ℕ
  pub total_tasks : ℕ
  pub completed_tasks : ℕ
  pub started_at : Option ℕ
  pub finished_at : Option ℕ
  pub error : Option String

abbrev pub same_status : Status → Status → Bool
same_status pending pending = true
same_status running running = true
same_status completed completed = true
same_status failed failed = true
same_status cancelled cancelled = true
same_status _ _ = false

-- An item's id and a variant's name.
abbrev pub Pair : Type 0
Pair = String × String

abbrev pub same_pair : Pair → Pair → Bool
same_pair p q = str_eq p.0 q.0 && str_eq p.1 q.1

abbrev pub is_member : Pair → List Pair → Bool
is_member p = any (λ q. same_pair p q)
