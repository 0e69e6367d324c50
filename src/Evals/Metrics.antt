-- ===== src/Evals/Metrics.antt =====
-- evals/metrics.py, over code points. `str.lower` and the class of white space are Python's, and are
-- parameters; a score is a float.
pub mod Normal
pub mod Scores
use llm_evaluation_platform.Common.{
  ℕ, suc, String, Bool, true, false, ◌&&◌, ◌||◌, not, List, [], ◌∷◌, ◌==◌, if◌then◌else◌, length,
  filter,
}
use Prim.Native.Char.{code}
use llm_evaluation_platform.Evals.Models.{Text, MetricScores, Floats}

-- The code points of a literal.
abbrev pub codes : String → Text
codes String.[] = []
codes (String.◌∷◌ c s) = code c ∷ codes s

abbrev pub elem : ℕ → Text → Bool
elem c [] = false
elem c (x ∷ xs) = x == c || elem c xs

-- Equality and containment of texts, `s == t` and `s in t`.
unfoldable pub text_eq : Text → Text → Bool
text_eq [] [] = true
text_eq [] (y ∷ ys) = false
text_eq (x ∷ xs) [] = false
text_eq (x ∷ xs) (y ∷ ys) = x == y && text_eq xs ys

unfoldable pub begins_with : Text → Text → Bool
begins_with [] t = true
begins_with (x ∷ xs) [] = false
begins_with (x ∷ xs) (y ∷ ys) = x == y && begins_with xs ys

unfoldable pub is_in : Text → Text → Bool
unfolding begins_with
is_in s [] = begins_with s []
is_in s (y ∷ ys) = begins_with s (y ∷ ys) || is_in s ys

-- `string.punctuation + "«»—–…"`
abbrev pub punctuation : Text
punctuation =
    33 ∷ 34 ∷ 35 ∷ 36 ∷ 37 ∷ 38 ∷ 39 ∷ 40 ∷ 41 ∷ 42 ∷ 43 ∷ 44 ∷ 45 ∷ 46 ∷ 47 ∷ 58 ∷ 59 ∷ 60 ∷ 61
    ∷ 62 ∷ 63 ∷ 64 ∷ 91 ∷ 92 ∷ 93 ∷ 94 ∷ 95 ∷ 96 ∷ 123 ∷ 124 ∷ 125 ∷ 126 ∷ 171 ∷ 187 ∷ 8212 ∷ 8211
    ∷ 8230 ∷ []

unfoldable pub is_punctuation : ℕ → Bool
is_punctuation c = elem c punctuation

abbrev pub space : ℕ
space = 32

module _ (is_space : ℕ → Bool) where
  -- `str.lstrip`
  unfoldable pub lstrip : Text → Text
  lstrip [] = []
  lstrip (c ∷ t) = if is_space c then lstrip t else c ∷ t

  -- `str.rstrip`: a character stays if something after it stays, or if it is no white space.
  unfoldable pub rstrip : Text → Text
  rstrip [] = []
  rstrip (c ∷ t) = elim (rstrip t) [ [] ↦ if is_space c then [] else c ∷ [] | d ∷ r ↦ c ∷ d ∷ r ]

  unfoldable pub strip : Text → Text
  unfolding lstrip rstrip
  strip t = rstrip (lstrip t)

  -- `re.sub(r"\s+", " ", t)`, where the flag says that the last character was white space.
  unfoldable pub collapse : Bool → Text → Text
  collapse after_space [] = []
  collapse after_space (c ∷ t) =
      let rest = collapse (is_space c) t in
      if is_space c then (if after_space then rest else space ∷ rest) else c ∷ rest

  module _ (lower : Text → Text) where
    unfoldable pub normalize_text : Text → Text
    unfolding strip collapse is_punctuation
    normalize_text value =
        strip (collapse false (filter (λ c. not (is_punctuation c)) (lower value)))

    module _ (fl : Floats) where
      open fl use {F, of_ℕ, div}

      abbrev pub score : Bool → F
      score b = of_ℕ (if b then 1 else 0)

      unfoldable pub exact_match : Text → Text → F
      unfolding strip text_eq
      exact_match output expected = score (text_eq (strip (lower output)) (strip (lower expected)))

      unfoldable pub normalized_exact_match : Text → Text → F
      unfolding normalize_text text_eq
      normalized_exact_match output expected =
          score (text_eq (normalize_text output) (normalize_text expected))

      -- The loop of `keyword_score`, over the normalised output.
      unfoldable pub found : Text → List Text → ℕ
      unfolding is_in normalize_text
      found normalized_output [] = 0
      found normalized_output (k ∷ ks) =
          let rest = found normalized_output ks in
          if is_in (normalize_text k) normalized_output then suc rest else rest

      unfoldable pub keyword_score : Text → List Text → F
      unfolding found
      keyword_score output [] = of_ℕ 1
      keyword_score output (k ∷ ks) =
          div (of_ℕ (found (normalize_text output) (k ∷ ks))) (length (k ∷ ks))

      unfoldable pub calculate_metrics : Text → Text → List Text → MetricScores F
      unfolding exact_match normalized_exact_match keyword_score
      calculate_metrics output expected keywords = record {
        exact_match = exact_match output expected;
        normalized_exact_match = normalized_exact_match output expected;
        keyword_score = keyword_score output keywords;
      }
