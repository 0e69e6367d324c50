-- ===== src/Evals/Metrics/Normal.antt =====
-- The shape of a normalised text, and that to normalise it again changes nothing.
use llm_evaluation_platform.Common.{
  ℕ, ◌≡◌, refl, Bool, true, false, ◌&&◌, ◌||◌, not, [], ◌∷◌, arith, ◌==◌, filter, All,
}
use llm_evaluation_platform.Evals.Models.{Text}
use llm_evaluation_platform.Evals.Metrics.{
  space, is_punctuation, lstrip, rstrip, strip, collapse, normalize_text,
}

module _ (is_space : ℕ → Bool) where
  -- White space is a single blank, never two in a row; the flag says whether one stands before.
  abbrev pub IsCollapsed : Bool → Text → Type 0
  IsCollapsed b [] = Unit
  IsCollapsed b (c ∷ t) =
      ((not (is_space c) || (c == space && not b)) ≡ true) × IsCollapsed (is_space c) t

  abbrev pub HasNoPunctuation : Text → Type 0
  HasNoPunctuation = All (λ c. is_punctuation c ≡ false)

  IsCollapsed-after : (t : Text) → IsCollapsed true t → IsCollapsed false t
  IsCollapsed-after [] h = tt
  IsCollapsed-after (c ∷ t) h = (ground (arith, h.0), h.1)

  IsCollapsed-keep :
      (c : ℕ) (t : Text) → IsCollapsed (is_space c) t → (is_space c ≡ false) → IsCollapsed false t
  IsCollapsed-keep c t h e = rw e at h

  lstrip-IsCollapsed :
      (b : Bool) (t : Text) → IsCollapsed b t → IsCollapsed false (lstrip is_space t)
  unfolding lstrip
  lstrip-IsCollapsed b [] h = tt
  lstrip-IsCollapsed b (c ∷ t) h =
      ground (arith, lstrip-IsCollapsed (is_space c) t h.1, IsCollapsed-keep c t h.1)

  rstrip-IsCollapsed : (b : Bool) (t : Text) → IsCollapsed b t → IsCollapsed b (rstrip is_space t)
  unfolding rstrip
  rstrip-IsCollapsed b [] h = tt
  rstrip-IsCollapsed b (c ∷ t) h = ground (arith, rstrip-IsCollapsed (is_space c) t h.1)

  -- The blank is white space.
  collapse-IsCollapsed :
      is_space space ≡ true → (b : Bool) (t : Text) → IsCollapsed b (collapse is_space b t)
  unfolding collapse
  collapse-IsCollapsed sp b [] = tt
  collapse-IsCollapsed sp b (c ∷ t) = ground (arith, collapse-IsCollapsed sp (is_space c) t)

  filter-HasNoPunctuation : (t : Text) → HasNoPunctuation (filter (λ c. not (is_punctuation c)) t)
  filter-HasNoPunctuation [] = tt
  filter-HasNoPunctuation (c ∷ t) = ground (arith, filter-HasNoPunctuation t)

  collapse-HasNoPunctuation :
      (b : Bool) (t : Text) → HasNoPunctuation t → HasNoPunctuation (collapse is_space b t)
  unfolding collapse is_punctuation
  collapse-HasNoPunctuation b [] h = tt
  collapse-HasNoPunctuation b (c ∷ t) h =
      ground (arith, collapse-HasNoPunctuation (is_space c) t h.1)

  lstrip-HasNoPunctuation : (t : Text) → HasNoPunctuation t → HasNoPunctuation (lstrip is_space t)
  unfolding lstrip
  lstrip-HasNoPunctuation [] h = tt
  lstrip-HasNoPunctuation (c ∷ t) h = ground (arith, lstrip-HasNoPunctuation t h.1)

  rstrip-HasNoPunctuation : (t : Text) → HasNoPunctuation t → HasNoPunctuation (rstrip is_space t)
  unfolding rstrip
  rstrip-HasNoPunctuation [] h = tt
  rstrip-HasNoPunctuation (c ∷ t) h = ground (arith, rstrip-HasNoPunctuation t h.1)

  rstrip-rstrip : (t : Text) → rstrip is_space (rstrip is_space t) ≡ rstrip is_space t
  unfolding rstrip
  rstrip-rstrip [] = refl
  rstrip-rstrip (c ∷ t) = ground (arith, rstrip-rstrip t)

  -- The first character of a text, if any, is no white space.
  abbrev StartsInWord : Text → Type 0
  StartsInWord [] = Unit
  StartsInWord (c ∷ t) = is_space c ≡ false

  lstrip-StartsInWord : (t : Text) → StartsInWord (lstrip is_space t)
  unfolding lstrip
  lstrip-StartsInWord [] = tt
  lstrip-StartsInWord (c ∷ t) = ground (arith, lstrip-StartsInWord t)

  rstrip-StartsInWord : (t : Text) → StartsInWord t → StartsInWord (rstrip is_space t)
  unfolding rstrip
  rstrip-StartsInWord [] h = tt
  rstrip-StartsInWord (c ∷ t) h = ground arith

  lstrip_fixed : (t : Text) → StartsInWord t → lstrip is_space t ≡ t
  unfolding lstrip
  lstrip_fixed [] h = refl
  lstrip_fixed (c ∷ t) h = rw h

  pub strip-strip : (t : Text) → strip is_space (strip is_space t) ≡ strip is_space t
  unfolding strip
  strip-strip t =
      let s = lstrip is_space t in
      rw (lstrip_fixed (rstrip is_space s) (rstrip-StartsInWord s (lstrip-StartsInWord t)))
        (rstrip-rstrip s)

  filter_fixed : (t : Text) → HasNoPunctuation t → filter (λ c. not (is_punctuation c)) t ≡ t
  filter_fixed [] h = refl
  filter_fixed (c ∷ t) h = ground (arith, filter_fixed t h.1)

  collapse_fixed : (b : Bool) (t : Text) → IsCollapsed b t → collapse is_space b t ≡ t
  unfolding collapse
  collapse_fixed b [] h = refl
  collapse_fixed b (c ∷ t) h = ground (arith, collapse_fixed (is_space c) t h.1)

  module _ (lower : Text → Text) (sp : is_space space ≡ true) where
    -- Where the blank counts as white space, a normalised text holds no punctuation, its white
    -- space is single blanks between words, and none stands at an end.
    pub normalize_text_shape :
        (v : Text)
        → let n = normalize_text is_space lower v in
          HasNoPunctuation n × IsCollapsed false n × (strip is_space n ≡ n)
    unfolding normalize_text
    normalize_text_shape v =
        let words = filter (λ c. not (is_punctuation c)) (lower v) in
        let single = collapse is_space false words in
        (
          rstrip-HasNoPunctuation (lstrip is_space single) (
              lstrip-HasNoPunctuation single
                (collapse-HasNoPunctuation false words (filter-HasNoPunctuation (lower v)))),
          rstrip-IsCollapsed false (lstrip is_space single)
              (lstrip-IsCollapsed false single (collapse-IsCollapsed sp false words)),
          strip-strip single,
        )

    normalize_text_fixed :
        (n : Text)
        → lower n ≡ n
        → HasNoPunctuation n × IsCollapsed false n × (strip is_space n ≡ n)
        → normalize_text is_space lower n ≡ n
    unfolding normalize_text
    normalize_text_fixed n l (p, c, s) =
        rw l (rw (filter_fixed n p) (rw (collapse_fixed false n c) s))

    -- Where lower-casing leaves a normalised text alone, to normalise it again changes nothing.
    normalize_text_again :
        (v : Text)
        → lower (normalize_text is_space lower v) ≡ normalize_text is_space lower v
        → normalize_text is_space lower (normalize_text is_space lower v)
          ≡ normalize_text is_space lower v
    normalize_text_again v e =
        normalize_text_fixed (normalize_text is_space lower v) e (normalize_text_shape v)
