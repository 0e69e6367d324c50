-- ===== src/Reports/Tests.antt =====
-- A small report.
use llm_evaluation_platform.Common.{ℕ, ◌≡◌, refl, true, Bool, ◌==◌, List, map, if◌then◌else◌}
use llm_evaluation_platform.Evals.Metrics.{
  codes, text_eq, is_in, begins_with, strip, lstrip, rstrip,
}
use llm_evaluation_platform.Reports.Scrub.{
  other, dict, list_of, nil, cons, Fields, end, field, filtered_value, normalized_key,
  is_sensitive_key, scrub_nested, change_at, drop_fields, mask_headers, clean_headers,
  clean_request, scrub_sentry_event,
}
use llm_evaluation_platform.Reports.Scrub.Clean.{is_scrubbed, scrub_sentry_event_clean}

abbrev is_space : ℕ → Bool
is_space c = c == 32

abbrev event : Fields
event =
    field (codes "extra")
      (list_of (
        cons
          (dict (
            field (codes "Api_Key") (other (codes "x"))
              (field (codes "n") (other (codes "1")) end)))
          nil))
      (field (codes "request") (dict (field (codes "data") (other (codes "x")) end)) end)

abbrev to_lower : List ℕ → List ℕ
to_lower = map (λ c. if c == 65 then 97 else if c == 75 then 107 else c)

scrubbed :
    scrub_sentry_event is_space to_lower event
    ≡ field
        (codes "extra")
        (list_of (
          cons
            (dict
              (field (codes "Api_Key") filtered_value (field (codes "n") (other (codes "1")) end)))
            nil))
        (field (codes "request") (dict end) end)
unfolding scrub_sentry_event change_at drop_fields clean_request clean_headers mask_headers
    scrub_nested is_sensitive_key normalized_key text_eq is_in begins_with strip lstrip rstrip
scrubbed = refl

scrub_sentry_event_clean_example :
    is_scrubbed is_space to_lower (scrub_sentry_event is_space to_lower event) ≡ true
scrub_sentry_event_clean_example = scrub_sentry_event_clean is_space to_lower event
