-- ===== src/Reports/Scrub.antt =====
-- `scrub_sentry_event`
pub mod Clean
use llm_evaluation_platform.Common.{
  ℕ, String, ◌≡◌, refl, ap, inl, inr, Bool, true, false, ◌&&◌, ◌||◌, not, List, [], ◌∷◌, map, arith,
  ◌==◌, if◌then◌else◌, Bool-cases, any,
}
use llm_evaluation_platform.Evals.Models.{Text}
use llm_evaluation_platform.Evals.Metrics.{codes, text_eq, is_in, strip}

mutual
  pub data Value : Type 0 where
    other : Text → Value
    dict : Fields → Value
    list_of : Items → Value
    tuple_of : Items → Value

  pub data Items : Type 0 where
    nil : Items
    cons : Value → Items → Items

  pub data Fields : Type 0 where
    end : Fields
    field : Text → Value → Fields → Fields

abbrev pub filtered_value : Value
filtered_value = other (codes "[Filtered]")

abbrev pub one_of : List String → Text → Bool
one_of names key = any (λ n. text_eq (codes n) key) names

abbrev pub sensitive_keys : List String
sensitive_keys =
    "api-key" ∷ "api_key" ∷ "apikey" ∷ "authorization" ∷ "cookie" ∷ "credential_encryption_key"
    ∷ "encrypted_payload" ∷ "groq_api_key" ∷ "password" ∷ "passwd" ∷ "proxy-authorization"
    ∷ "secret" ∷ "sentry_dsn" ∷ "set-cookie" ∷ "token" ∷ "x-api-key" ∷ []

abbrev pub sensitive_headers : List String
sensitive_headers =
    "authorization" ∷ "cookie" ∷ "proxy-authorization" ∷ "set-cookie" ∷ "x-api-key" ∷ []

abbrev pub markers : List String
markers = "api_key" ∷ "password" ∷ "secret" ∷ "credential" ∷ []

abbrev pub dropped_fields : List String
dropped_fields = "cookies" ∷ "data" ∷ "env" ∷ "query_string" ∷ []

abbrev pub scrubbed_fields : List String
scrubbed_fields = "breadcrumbs" ∷ "contexts" ∷ "extra" ∷ []

-- Changes of the values under some keys.
unfoldable pub change_at : List String → (Value → Value) → Fields → Fields
change_at names f end = end
change_at names f (field k v fs) =
    let rest = change_at names f fs in field k (if one_of names k then f v else v) rest

unfoldable pub drop_fields : List String → Fields → Fields
drop_fields names end = end
drop_fields names (field k v fs) =
    let rest = drop_fields names fs in if one_of names k then rest else field k v rest

module _ (is_space : ℕ → Bool) (lower : Text → Text) where
  -- Spaces become underscores.
  unfoldable pub normalized_key : Text → Text
  normalized_key key = map (λ c. if c == 32 then 95 else c) (lower (strip is_space key))

  unfoldable pub is_sensitive_key : Text → Bool
  unfolding normalized_key
  is_sensitive_key key =
      one_of sensitive_keys (normalized_key key)
      || any (λ m. is_in (codes m) (normalized_key key)) markers

  unfoldable mutual
    pub scrub_nested : Value → Value
    scrub_nested (other t) = other t
    scrub_nested (dict fs) = dict (scrub_fields fs)
    scrub_nested (list_of vs) = list_of (scrub_items vs)
    scrub_nested (tuple_of vs) = tuple_of (scrub_items vs)

    pub scrub_items : Items → Items
    scrub_items nil = nil
    scrub_items (cons v vs) = cons (scrub_nested v) (scrub_items vs)

    pub scrub_fields : Fields → Fields
    scrub_fields end = end
    scrub_fields (field k v fs) =
        let rest = scrub_fields fs in
        let item = scrub_nested v in
        field k (if is_sensitive_key k then filtered_value else item) rest

  abbrev pub is_sensitive_header : Text → Bool
  is_sensitive_header key = one_of sensitive_headers (lower (strip is_space key))

  unfoldable pub mask_headers : Fields → Fields
  mask_headers end = end
  mask_headers (field k v fs) =
      let rest = mask_headers fs in
      field k (if is_sensitive_header k then filtered_value else v) rest

  unfoldable pub clean_headers : Value → Value
  unfolding mask_headers
  clean_headers (dict hs) = dict (mask_headers hs)
  clean_headers v = v

  unfoldable pub clean_request : Value → Value
  unfolding change_at drop_fields clean_headers
  clean_request (dict fs) =
      dict (change_at ("headers" ∷ []) clean_headers (drop_fields dropped_fields fs))
  clean_request v = v

  unfoldable pub scrub_sentry_event : Fields → Fields
  unfolding clean_request
  scrub_sentry_event event =
      change_at scrubbed_fields scrub_nested (change_at ("request" ∷ []) clean_request event)
