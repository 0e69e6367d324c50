-- ===== src/Runs/Execution/Pairs.antt =====
-- Lists of distinct pairs: a list of distinct members of another is no longer than it.
use llm_evaluation_platform.Common.{
  ℕ, zero, suc, ◌≤◌, ◌≡◌, ◌↔◌, Bool, true, false, ◌||◌, some, List, [], ◌∷◌, arith, eq_iff,
  if◌then◌else◌, length, filter, get_elem?, All,
}
use mathlib.Core.Path.{subst}
use llm_evaluation_platform.Runs.Models.{Pair, same_pair, is_member}
use llm_evaluation_platform.Runs.Execution.{remove_at}

pub same_pair_iff : (p q : Pair) → (same_pair p q ≡ true) ↔ (p ≡ q)
same_pair_iff p q = (
  λ e. ground (arith, eq_iff p.0 q.0, eq_iff p.1 q.1),
  λ e. rw e (ground (arith, eq_iff q.0 q.0, eq_iff q.1 q.1)),
)

-- No pair occurs twice.
abbrev pub IsDistinct : List Pair → Type 0
IsDistinct [] = Unit
IsDistinct (p ∷ ps) = (is_member p ps ≡ false) × IsDistinct ps

abbrev pub IsSubset : List Pair → List Pair → Type 0
IsSubset ps qs = All (λ p. is_member p qs ≡ true) ps

erase : Pair → List Pair → List Pair
erase p [] = []
erase p (q ∷ qs) = if same_pair p q then qs else q ∷ erase p qs

length-erase :
    (p : Pair) (qs : List Pair) → is_member p qs ≡ true → length qs ≡ suc (length (erase p qs))
unfolding erase
length-erase p [] h = cc
length-erase p (q ∷ qs) h = ground (arith, length-erase p qs)

member-erase :
    (p r : Pair) (qs : List Pair)
    → same_pair r p ≡ false
    → is_member r qs ≡ true
    → is_member r (erase p qs) ≡ true
unfolding erase
member-erase p r [] n h = h
member-erase p r (q ∷ qs) n h =
    ground (arith, same_pair_iff p q, same_pair_iff r q, same_pair_iff r p, member-erase p r qs n)

subset-erase :
    (p : Pair) (ps qs : List Pair)
    → is_member p ps ≡ false
    → IsSubset ps qs
    → IsSubset ps (erase p qs)
subset-erase p [] qs n h = tt
subset-erase p (r ∷ ps) qs n h = (
  member-erase p r qs (ground (arith, same_pair_iff p r, same_pair_iff r p)) h.0,
  subset-erase p ps qs (ground arith) h.1,
)

pub length-le_of_subset :
    (ps qs : List Pair) → IsDistinct ps → IsSubset ps qs → length ps ≤ length qs
length-le_of_subset [] qs d h = omega arith
length-le_of_subset (p ∷ ps) qs d h = omega (
  arith,
  length-erase p qs h.0,
  length-le_of_subset ps (erase p qs) d.1 (subset-erase p ps qs d.0 h.1),
)

-- What is a member of a list with one element taken out, or is that element.
pub member-remove_at :
    (k : ℕ) (ps : List Pair) (p q : Pair)
    → get_elem? ps k ≡ some p
    → is_member q ps ≡ (same_pair q p || is_member q (remove_at k ps))
member-remove_at k [] p q e = cc
member-remove_at zero (r ∷ ps) p q e = ground arith
member-remove_at (suc k) (r ∷ ps) p q e = ground (arith, member-remove_at k ps p q e)

pub All-get_elem? :
    (P : Pair → Type 0) (k : ℕ) (ps : List Pair) (p : Pair)
    → get_elem? ps k ≡ some p
    → All P ps
    → P p
All-get_elem? P k [] p e h = cc
All-get_elem? P zero (r ∷ ps) p e h = subst P (ground arith) h.0
All-get_elem? P (suc k) (r ∷ ps) p e h = All-get_elem? P k ps p e h.1

pub All-remove_at : (P : Pair → Type 0) (k : ℕ) (ps : List Pair) → All P ps → All P (remove_at k ps)
All-remove_at P k [] h = tt
All-remove_at P zero (r ∷ ps) h = h.1
All-remove_at P (suc k) (r ∷ ps) h = (h.0, All-remove_at P k ps h.1)

pub All-map :
    (P Q : Pair → Type 0) (ps : List Pair) → ((p : Pair) → P p → Q p) → All P ps → All Q ps
All-map P Q [] f h = tt
All-map P Q (p ∷ ps) f h = (f p h.0, All-map P Q ps f h.1)

pub filter-subset :
    (p : Pair → Bool) (ps : List Pair) (qs : List Pair) → IsSubset ps qs → IsSubset (filter p ps) qs
filter-subset p [] qs h = tt
filter-subset p (r ∷ ps) qs h = ground (arith, filter-subset p ps qs h.1)

pub member-filter :
    (f : Pair → Bool) (q : Pair) (ps : List Pair)
    → is_member q ps ≡ true
    → f q ≡ true
    → is_member q (filter f ps) ≡ true
member-filter f q [] h e = h
member-filter f q (r ∷ ps) h e = ground (arith, same_pair_iff q r, member-filter f q ps)

pub subset-refl_from : (ps qs : List Pair) → IsSubset ps qs → (r : Pair) → IsSubset ps (r ∷ qs)
subset-refl_from [] qs h r = tt
subset-refl_from (p ∷ ps) qs h r = (ground (arith, h.0), subset-refl_from ps qs h.1 r)

pub subset_refl : (ps : List Pair) → IsSubset ps ps
subset_refl [] = tt
subset_refl (p ∷ ps) =
    (ground (arith, same_pair_iff p p), subset-refl_from ps ps (subset_refl ps) p)
