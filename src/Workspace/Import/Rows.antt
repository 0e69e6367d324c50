-- ===== src/Workspace/Import/Rows.antt =====
-- The rows of an import in the order in which the table lists them.
use llm_evaluation_platform.Common.{
  ◌≡◌, refl, Bool, ◌&&◌, ltb, inl, inr, List, [], ◌∷◌, map, arith, Bool-cases, all,
}
use mathlib.Core.List.{Perm}
use mathlib.Core.List.Perm
use llm_evaluation_platform.Workspace.Models.{DatasetItem}
use llm_evaluation_platform.Workspace.Import.Upload.{insert_by_id, in_id_order, content}

all-insert_by_id :
    (q : DatasetItem → Bool) (i : DatasetItem) (js : List DatasetItem)
    → all q (insert_by_id i js) ≡ (q i && all q js)
unfolding insert_by_id
all-insert_by_id q i [] = refl
all-insert_by_id q i (j ∷ js) = ground (arith, all-insert_by_id q i js)

-- The order of the rows is all that changes.
pub all-in_id_order :
    (q : DatasetItem → Bool) (is : List DatasetItem) → all q (in_id_order is) ≡ all q is
unfolding in_id_order
all-in_id_order q [] = refl
all-in_id_order q (i ∷ is) =
    ground (arith, all-insert_by_id q i (in_id_order is), all-in_id_order q is)

insert_by_id-perm :
    (i : DatasetItem) (js : List DatasetItem)
    → Perm (map content (insert_by_id i js)) (content i ∷ map content js)
unfolding insert_by_id
insert_by_id-perm i [] = Perm.rfl
insert_by_id-perm i (j ∷ js) = elim (Bool-cases (ltb j.id i.id)) [
  | inl q ↦ rw q (
      Perm.trans (Perm.cons (content j) (insert_by_id-perm i js))
        (Perm.swap (content i) (content j) (map content js)))
  | inr q ↦ rw q Perm.rfl
]

pub in_id_order-perm :
    (is : List DatasetItem) → Perm (map content (in_id_order is)) (map content is)
unfolding in_id_order
in_id_order-perm [] = Perm.rfl
in_id_order-perm (i ∷ is) =
    Perm.trans (insert_by_id-perm i (in_id_order is)) (Perm.cons (content i) (in_id_order-perm is))
