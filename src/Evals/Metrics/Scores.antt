-- ===== src/Evals/Metrics/Scores.antt =====
-- What the three scores count.
use llm_evaluation_platform.Common.{
  ℕ, ◌≤◌, ◌≡◌, refl, ◌≢◌, ◌↔◌, ◌⊎◌, inl, inr, Bool, true, List, [], ◌∷◌, ◌++◌, arith, Bool-cases,
  length, filter,
}
use llm_evaluation_platform.Evals.Models.{Text, Floats}
use llm_evaluation_platform.Evals.Metrics.{
  text_eq, begins_with, is_in, strip, normalize_text, exact_match, normalized_exact_match, found,
  keyword_score,
}

-- `==` on texts is equality.
pub text_eq_iff : (s t : Text) → (text_eq s t ≡ true) ↔ (s ≡ t)
unfolding text_eq
text_eq_iff [] [] = (λ _. refl, λ _. refl)
text_eq_iff [] (y ∷ ys) = (λ e. cc, λ e. cc)
text_eq_iff (x ∷ xs) [] = (λ e. cc, λ e. cc)
text_eq_iff (x ∷ xs) (y ∷ ys) =
    (λ e. ground (arith, text_eq_iff xs ys), λ e. ground (arith, text_eq_iff xs ys))

begins_with_prefix : (s t : Text) → begins_with s (s ++ t) ≡ true
unfolding begins_with
begins_with_prefix [] t = refl
begins_with_prefix (x ∷ xs) t = ground (arith, begins_with_prefix xs t)

is_in_of_begins : (s t : Text) → begins_with s t ≡ true → is_in s t ≡ true
unfolding is_in
is_in_of_begins s [] h = h
is_in_of_begins s (y ∷ ys) h = rw h

-- `s in t` holds of the texts that contain `s`, and of no others.
pub is_in-infix : (a s b : Text) → is_in s (a ++ (s ++ b)) ≡ true
unfolding is_in
is_in-infix [] s b = is_in_of_begins s (s ++ b) (begins_with_prefix s b)
is_in-infix (x ∷ a) s b = ground (arith, is_in-infix a s b)

begins_with-split : (s t : Text) → begins_with s t ≡ true → (b : Text) × (t ≡ s ++ b)
unfolding begins_with
begins_with-split [] t e = (t, refl)
begins_with-split (x ∷ xs) [] e = cc
begins_with-split (x ∷ xs) (y ∷ ys) e =
    let (b, q) = begins_with-split xs ys (ground arith) in (b, ground arith)

pub is_in-split : (s t : Text) → is_in s t ≡ true → (a : Text) × (b : Text) × (t ≡ a ++ (s ++ b))
unfolding is_in
is_in-split s [] e = let (b, q) = begins_with-split s [] e in ([], b, q)
is_in-split s (y ∷ ys) e = elim (Bool-cases (begins_with s (y ∷ ys))) [
  | inl h ↦ let (b, q) = begins_with-split s (y ∷ ys) h in ([], b, q)
  | inr h ↦ let (a, b, q) = is_in-split s ys (ground arith) in (y ∷ a, b, ground arith)
]

module _ (is_space : ℕ → Bool) (lower : Text → Text) (fl : Floats) where
  open fl use {F, of_ℕ, div}

  found-le : (o : Text) (ks : List Text) → found is_space lower fl o ks ≤ length ks
  unfolding found
  found-le o [] = omega arith
  found-le o (k ∷ ks) = ground (arith, found-le o ks)

  found-filter :
      (o : Text) (ks : List Text)
      → found is_space lower fl o ks
        ≡ length (filter (λ k. is_in (normalize_text is_space lower k) o) ks)
  unfolding found
  found-filter o [] = refl
  found-filter o (k ∷ ks) = ground (arith, found-filter o ks)

  exact_score :
      (output expected : Text)
      → ((strip is_space (lower output) ≡ strip is_space (lower expected))
          × (exact_match is_space lower fl output expected ≡ of_ℕ 1))
        ⊎ ((strip is_space (lower output) ≢ strip is_space (lower expected))
            × (exact_match is_space lower fl output expected ≡ of_ℕ 0))
  unfolding exact_match
  exact_score output expected =
      let a = strip is_space (lower output) in
      let b = strip is_space (lower expected) in
      elim (Bool-cases (text_eq a b)) [
        | inl e ↦ inl ((text_eq_iff a b).0 e, rw e)
        | inr e ↦ inr (λ p. cc ((text_eq_iff a b).1 p), rw e)
      ]

  normalized_score :
      (output expected : Text)
      → ((normalize_text is_space lower output ≡ normalize_text is_space lower expected)
          × (normalized_exact_match is_space lower fl output expected ≡ of_ℕ 1))
        ⊎ ((normalize_text is_space lower output ≢ normalize_text is_space lower expected)
            × (normalized_exact_match is_space lower fl output expected ≡ of_ℕ 0))
  unfolding normalized_exact_match
  normalized_score output expected =
      let a = normalize_text is_space lower output in
      let b = normalize_text is_space lower expected in
      elim (Bool-cases (text_eq a b)) [
        | inl e ↦ inl ((text_eq_iff a b).0 e, rw e)
        | inr e ↦ inr (λ p. cc ((text_eq_iff a b).1 p), rw e)
      ]

  -- `exact_match` is 1 if the answers agree up to case and outer white space, and 0 otherwise;
  -- `normalized_exact_match` is 1 if they agree once normalised, and 0 otherwise.
  matches_score :
      (output expected : Text)
      → (((strip is_space (lower output) ≡ strip is_space (lower expected))
            × (exact_match is_space lower fl output expected ≡ of_ℕ 1))
          ⊎ ((strip is_space (lower output) ≢ strip is_space (lower expected))
              × (exact_match is_space lower fl output expected ≡ of_ℕ 0)))
        × (((normalize_text is_space lower output ≡ normalize_text is_space lower expected)
              × (normalized_exact_match is_space lower fl output expected ≡ of_ℕ 1))
            ⊎ ((normalize_text is_space lower output ≢ normalize_text is_space lower expected)
                × (normalized_exact_match is_space lower fl output expected ≡ of_ℕ 0)))
  matches_score output expected = (exact_score output expected, normalized_score output expected)

  -- With keywords, the score is the share of those that occur in the normalised output, between 0
  -- and all of them; with none it is 1.
  keyword_share :
      (o : Text) (ks : List Text)
      → ((ks ≡ []) × (keyword_score is_space lower fl o ks ≡ of_ℕ 1))
        ⊎ ((n : ℕ) × (n
              ≡ length (
                  filter
                    (λ k. is_in (normalize_text is_space lower k) (normalize_text is_space lower o))
                    ks))
            × (n ≤ length ks)
            × (keyword_score is_space lower fl o ks ≡ div (of_ℕ n) (length ks)))
  unfolding keyword_score
  keyword_share o [] = inl (refl, refl)
  keyword_share o (k ∷ ks) =
      let n = found is_space lower fl (normalize_text is_space lower o) (k ∷ ks) in
      inr (
        n,
        found-filter (normalize_text is_space lower o) (k ∷ ks),
        found-le (normalize_text is_space lower o) (k ∷ ks),
        refl,
      )
