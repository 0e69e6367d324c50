-- ===== src/Reports/Scrub/Clean.antt =====
-- What a scrubbed report holds no longer.
use llm_evaluation_platform.Common.{
  ℕ, ◌≡◌, refl, inl, inr, Bool, true, false, ◌&&◌, ◌||◌, not, [], ◌∷◌, arith, if◌then◌else◌,
  Bool-cases,
}
use mathlib.Core.Path.{subst}
use llm_evaluation_platform.Evals.Models.{Text}
use llm_evaluation_platform.Evals.Metrics.{codes, text_eq}
use llm_evaluation_platform.Evals.Metrics.Scores.{text_eq_iff}
use llm_evaluation_platform.Reports.Scrub.{
  Value, other, dict, list_of, tuple_of, Items, nil, cons, Fields, end, field, filtered_value,
  one_of, dropped_fields, scrubbed_fields, is_sensitive_key, scrub_nested, scrub_items,
  scrub_fields, change_at, drop_fields, is_sensitive_header, mask_headers, clean_headers,
  clean_request, scrub_sentry_event,
}

module _ (is_space : ℕ → Bool) (lower : Text → Text) where
  -- What a report must not hold.
  abbrev pub is_filtered : Value → Bool
  is_filtered (other t) = text_eq (codes "[Filtered]") t
  is_filtered _ = false

  abbrev mutual
    pub is_clean : Value → Bool
    is_clean (other t) = true
    is_clean (dict fs) = clean_fields fs
    is_clean (list_of vs) = clean_items vs
    is_clean (tuple_of vs) = clean_items vs

    pub clean_items : Items → Bool
    clean_items nil = true
    clean_items (cons v vs) = is_clean v && clean_items vs

    pub clean_fields : Fields → Bool
    clean_fields end = true
    clean_fields (field k v fs) =
        (if is_sensitive_key is_space lower k then is_filtered v else is_clean v) && clean_fields fs

  filtered : is_filtered filtered_value ≡ true
  filtered = (text_eq_iff (codes "[Filtered]") (codes "[Filtered]")).1 refl

  mutual
    unfolding scrub_nested

    scrub_nested_clean : (v : Value) → is_clean (scrub_nested is_space lower v) ≡ true
    scrub_nested_clean (other t) = refl
    scrub_nested_clean (dict fs) = scrub_fields_clean fs
    scrub_nested_clean (list_of vs) = scrub_items_clean vs
    scrub_nested_clean (tuple_of vs) = scrub_items_clean vs

    scrub_items_clean : (vs : Items) → clean_items (scrub_items is_space lower vs) ≡ true
    scrub_items_clean nil = refl
    scrub_items_clean (cons v vs) = ground (arith, scrub_nested_clean v, scrub_items_clean vs)

    scrub_fields_clean : (fs : Fields) → clean_fields (scrub_fields is_space lower fs) ≡ true
    scrub_fields_clean end = refl
    scrub_fields_clean (field k v fs) = elim (Bool-cases (is_sensitive_key is_space lower k)) [
      | inl q ↦ rw q (ground (arith, filtered, scrub_fields_clean fs))
      | inr q ↦ rw q (ground (arith, scrub_nested_clean v, scrub_fields_clean fs))
    ]

  -- Headers without a sensitive value, and a request without the dropped fields.
  abbrev pub masked : Fields → Bool
  masked end = true
  masked (field k v fs) = (not (is_sensitive_header is_space lower k) || is_filtered v) && masked fs

  abbrev pub has_masked_headers : Value → Bool
  has_masked_headers (dict hs) = masked hs
  has_masked_headers v = true

  abbrev pub stripped : Fields → Bool
  stripped end = true
  stripped (field k v fs) =
      (not (one_of dropped_fields k) && (not (one_of ("headers" ∷ []) k) || has_masked_headers v))
      && stripped fs

  abbrev pub is_stripped : Value → Bool
  is_stripped (dict fs) = stripped fs
  is_stripped v = true

  -- A report without anything sensitive in the parts that the code looks at.
  abbrev pub is_scrubbed : Fields → Bool
  is_scrubbed end = true
  is_scrubbed (field k v fs) =
      ((not (one_of scrubbed_fields k) || is_clean v)
        && (not (one_of ("request" ∷ []) k) || is_stripped v))
      && is_scrubbed fs

  mask_headers-masked : (hs : Fields) → masked (mask_headers is_space lower hs) ≡ true
  unfolding mask_headers
  mask_headers-masked end = refl
  mask_headers-masked (field k v hs) = elim (Bool-cases (is_sensitive_header is_space lower k)) [
    | inl q ↦ rw q (ground (arith, filtered, mask_headers-masked hs))
    | inr q ↦ rw q (ground (arith, mask_headers-masked hs))
  ]

  clean_headers-masked : (v : Value) → has_masked_headers (clean_headers is_space lower v) ≡ true
  unfolding clean_headers
  clean_headers-masked (other t) = refl
  clean_headers-masked (dict hs) = mask_headers-masked hs
  clean_headers-masked (list_of vs) = refl
  clean_headers-masked (tuple_of vs) = refl

  request_stripped :
      (fs : Fields)
      → stripped (
          change_at ("headers" ∷ []) (clean_headers is_space lower) (drop_fields dropped_fields fs))
        ≡ true
  unfolding change_at drop_fields
  request_stripped end = refl
  request_stripped (field k v fs) = elim (Bool-cases (one_of dropped_fields k)) [
    | inl q ↦ rw q (request_stripped fs)
    | inr q ↦ rw q (elim (Bool-cases (one_of ("headers" ∷ []) k)) [
      | inl h ↦ rw h (ground (arith, q, clean_headers-masked v, request_stripped fs))
      | inr h ↦ rw h (ground (arith, q, h, request_stripped fs))
    ])
  ]

  clean_request_stripped : (v : Value) → is_stripped (clean_request is_space lower v) ≡ true
  unfolding clean_request
  clean_request_stripped (other t) = refl
  clean_request_stripped (dict fs) = request_stripped fs
  clean_request_stripped (list_of vs) = refl
  clean_request_stripped (tuple_of vs) = refl

  request_apart : (k : Text) → one_of ("request" ∷ []) k ≡ true → one_of scrubbed_fields k ≡ false
  unfolding text_eq
  request_apart k h =
      subst (λ t. one_of scrubbed_fields t ≡ false)
        ((text_eq_iff (codes "request") k).0 (ground arith)) refl

  -- A scrubbed report holds nothing sensitive in the parts that the code looks at: under breadcrumbs,
  -- contexts and extra, at any depth, a sensitive key has the value "[Filtered]"; the request has no
  -- cookies, data, env or query string, and its sensitive headers have the value "[Filtered]".
  pub scrub_sentry_event_clean :
      (event : Fields) → is_scrubbed (scrub_sentry_event is_space lower event) ≡ true
  unfolding scrub_sentry_event change_at
  scrub_sentry_event_clean end = refl
  scrub_sentry_event_clean (field k v fs) =
      let rest = scrub_sentry_event_clean fs in
      elim (Bool-cases (one_of ("request" ∷ []) k)) [
        | inl r ↦
            let apart : one_of scrubbed_fields k ≡ false = request_apart k r in
            rw (r, apart) (ground (arith, r, apart, clean_request_stripped v, rest))
        | inr r ↦ elim (Bool-cases (one_of scrubbed_fields k)) [
          | inl q ↦ rw (r, q) (ground (arith, r, q, scrub_nested_clean v, rest))
          | inr q ↦ rw (r, q) (ground (arith, r, q, rest))
        ]
      ]
