-- ===== src/Network/Endpoint.antt =====
-- `validate_provider_endpoint` and what an address that it lets pass is.
use llm_evaluation_platform.Common.{
  ℕ, zero, suc, String, ◌≡◌, refl, ◌⊎◌, inl, inr, Bool, true, false, ◌||◌, Option, none, some, List,
  [], ◌∷◌, arith, str_eq, if◌then◌else◌, Bool-cases, any, All, length,
}

-- Properties of an address of type `A`.
pub record Addresses (A : Type 0) : Type 0 where
  -- `ipaddress.ip_address`; `none` is a ValueError
  pub ip_address : String → Option A
  -- of an IPv6 address only
  pub ipv4_mapped : A → Option A
  pub same : A → A → Bool
  pub is_link_local : A → Bool
  pub is_unspecified : A → Bool
  pub is_multicast : A → Bool
  pub is_reserved : A → Bool
  -- The addresses "100.100.100.200" and "fd00:ec2::254".
  pub blocked_metadata_addresses : List A

pub record SplitUrl : Type 0 where
  pub scheme : String
  pub hostname : Option String

pub record Texts : Type 0 where
  -- of a URL that `urlsplit` accepts: it raises a ValueError otherwise
  pub urlsplit : String → SplitUrl
  -- `parsed.port`; an exception is `bad_port`
  pub port_of : String → Option ℕ
  pub bad_port : String → Bool
  -- `hostname.rstrip(".").lower()`, and `text.partition("%")[0]`
  pub normalize : String → String
  pub before_percent : String → String

pub data Verdict : Type 0 where
  allowed unsafe value_error : Verdict

abbrev pub blocked_metadata_hosts : List String
blocked_metadata_hosts =
    "instance-data" ∷ "metadata" ∷ "metadata.google.internal" ∷ "metadata.tencentyun.com" ∷ []

abbrev pub is_metadata_host : String → Bool
is_metadata_host host = any (λ h. str_eq h host) blocked_metadata_hosts

-- A record of getaddrinfo, by `str(record[4][0])`; `none` is one without.
abbrev pub Resolver : Type 0
Resolver = String → ℕ → Option (List (Option String))

abbrev pub texts_of : List (Option String) → List String
texts_of [] = []
texts_of (none ∷ rs) = texts_of rs
texts_of (some t ∷ rs) = t ∷ texts_of rs

abbrev is_zero : ℕ → Bool
is_zero zero = true
is_zero (suc n) = false

module _ {A : Type 0} (a : Addresses A) (t : Texts) where
  abbrev unmapped : A → A
  unmapped x = elim (a.ipv4_mapped x) [ none ↦ x | some y ↦ y ]

  unfoldable pub is_blocked_address : A → Bool
  is_blocked_address x =
      let y = unmapped x in
      any (a.same y) a.blocked_metadata_addresses
      || a.is_link_local y
      || a.is_unspecified y
      || a.is_multicast y
      || a.is_reserved y

  unfoldable pub validate_address : String → Verdict
  unfolding is_blocked_address
  validate_address text = elim (a.ip_address (t.before_percent text)) [
    | none ↦ value_error
    | some x ↦ if is_blocked_address x then unsafe else allowed
  ]

  -- The loop over the addresses, which ends at the first exception.
  unfoldable pub validate_addresses : List String → Verdict
  unfolding validate_address
  validate_addresses [] = allowed
  validate_addresses (x ∷ xs) =
      let rest = validate_addresses xs in
      elim (validate_address x) [ allowed ↦ rest | unsafe ↦ unsafe | value_error ↦ value_error ]

  -- `parsed.port or (443 if … else 80)`
  abbrev pub port_or_default : String → Option ℕ → ℕ
  port_or_default scheme none = if str_eq scheme "https" then 443 else 80
  port_or_default scheme (some p) =
      if is_zero p then (if str_eq scheme "https" then 443 else 80) else p

  unfoldable pub resolve_host : Resolver → String → String → String → Verdict
  unfolding validate_addresses
  resolve_host resolver url scheme host =
      if t.bad_port url
      then value_error
      else elim (resolver host (port_or_default scheme (t.port_of url))) [
        | none ↦ unsafe
        | some records ↦
            if is_zero (length (texts_of records))
            then unsafe
            else validate_addresses (texts_of records)
      ]

  unfoldable pub validate_host : Resolver → Bool → String → String → String → Verdict
  unfolding resolve_host is_blocked_address
  validate_host resolver resolve url scheme host =
      if is_metadata_host host then unsafe else elim (a.ip_address (t.before_percent host)) [
        | some x ↦ if is_blocked_address x then unsafe else allowed
        | none ↦ if resolve then resolve_host resolver url scheme host else allowed
      ]

  unfoldable pub validate_provider_endpoint : Resolver → Bool → String → Verdict
  unfolding validate_host
  validate_provider_endpoint resolver resolve url = elim ((t.urlsplit url).hostname) [
    | none ↦ unsafe
    | some hostname ↦
        validate_host resolver resolve url (t.urlsplit url).scheme (t.normalize hostname)
  ]

  abbrev pub IsOpen : String → Type 0
  IsOpen text =
      (x : A) × (a.ip_address (t.before_percent text) ≡ some x) × (is_blocked_address x ≡ false)

  address-IsOpen : (text : String) → validate_address text ≡ allowed → IsOpen text
  unfolding validate_address
  address-IsOpen text e = of_parse (a.ip_address (t.before_percent text)) refl e
    where
      of_parse :
          (o : Option A)
          → a.ip_address (t.before_percent text) ≡ o
          → elim o as (λ _. Verdict) [
            | none ↦ value_error
            | some x ↦ if is_blocked_address x then unsafe else allowed
          ]
            ≡ allowed
          → IsOpen text
      of_parse none q e = absurd cc
      of_parse (some x) q e = (x, q, ground arith)

  addresses-IsOpen : (xs : List String) → validate_addresses xs ≡ allowed → All IsOpen xs
  unfolding validate_addresses
  addresses-IsOpen [] e = tt
  addresses-IsOpen (x ∷ xs) e = of_first (validate_address x) refl e (addresses-IsOpen xs)
    where
      of_first :
          (v : Verdict)
          → validate_address x ≡ v
          → elim v as (λ _. Verdict) [
            | allowed ↦ validate_addresses xs
            | unsafe ↦ unsafe
            | value_error ↦ value_error
          ]
            ≡ allowed
          → (validate_addresses xs ≡ allowed → All IsOpen xs)
          → All IsOpen (x ∷ xs)
      of_first allowed q e rest = (address-IsOpen x q, rest e)
      of_first unsafe q e rest = absurd cc
      of_first value_error q e rest = absurd cc

  abbrev pub IsReached : Resolver → String → String → String → Type 0
  IsReached resolver url scheme host =
      IsOpen host
      ⊎ ((records : List (Option String)) × (resolver host (port_or_default scheme (t.port_of url))
            ≡ some records)
          × (is_zero (length (texts_of records)) ≡ false)
          × All IsOpen (texts_of records))

  passed :
      (b : Bool) (v : Verdict) → (if b then unsafe else v) ≡ allowed → (b ≡ false) × (v ≡ allowed)
  passed true v e = absurd cc
  passed false v e = (refl, e)

  by_name-IsReached :
      (resolver : Resolver) (url scheme host : String)
      → resolve_host resolver url scheme host ≡ allowed
      → IsReached resolver url scheme host
  unfolding resolve_host
  by_name-IsReached resolver url scheme host e = elim (Bool-cases (t.bad_port url)) [
    | inl q ↦ absurd (ground (arith, e, q))
    | inr q ↦
        of_records (resolver host (port_or_default scheme (t.port_of url))) refl
          (ground (arith, e, q))
  ]
    where
      of_records :
          (o : Option (List (Option String)))
          → resolver host (port_or_default scheme (t.port_of url)) ≡ o
          → elim o as (λ _. Verdict) [
            | none ↦ unsafe
            | some records ↦
                if is_zero (length (texts_of records))
                then unsafe
                else validate_addresses (texts_of records)
          ]
            ≡ allowed
          → IsReached resolver url scheme host
      of_records none q e = absurd cc
      of_records (some records) q e =
          let (some_texts, k) = passed (is_zero (length (texts_of records))) _ e in
          inr (records, q, some_texts, addresses-IsOpen (texts_of records) k)

  -- An endpoint that is let through for a request has a host that is no metadata service, and every address
  -- that the request may go to, the one in the URL or all those that the resolver gave, at least one,
  -- is neither blocked itself nor mapped to a blocked one.
  pub endpoint_open :
      (resolver : Resolver) (url : String)
      → validate_provider_endpoint resolver true url ≡ allowed
      → (hostname : String) × ((t.urlsplit url).hostname ≡ some hostname)
        × (is_metadata_host (t.normalize hostname) ≡ false)
        × IsReached resolver url (t.urlsplit url).scheme (t.normalize hostname)
  unfolding validate_provider_endpoint validate_host
  endpoint_open resolver url e = of_hostname (t.urlsplit url).hostname refl e
    where
      of_literal :
          (host : String) (o : Option A)
          → a.ip_address (t.before_percent host) ≡ o
          → elim o as (λ _. Verdict) [
            | some x ↦ if is_blocked_address x then unsafe else allowed
            | none ↦ resolve_host resolver url (t.urlsplit url).scheme host
          ]
            ≡ allowed
          → IsReached resolver url (t.urlsplit url).scheme host
      of_literal host none q e = by_name-IsReached resolver url (t.urlsplit url).scheme host e
      of_literal host (some x) q e = inl (x, q, (passed (is_blocked_address x) allowed e).0)

      of_hostname :
          (o : Option String)
          → (t.urlsplit url).hostname ≡ o
          → elim o as (λ _. Verdict) [
            | none ↦ unsafe
            | some hostname ↦
                validate_host resolver true url (t.urlsplit url).scheme (t.normalize hostname)
          ]
            ≡ allowed
          → (hostname : String) × ((t.urlsplit url).hostname ≡ some hostname)
            × (is_metadata_host (t.normalize hostname) ≡ false)
            × IsReached resolver url (t.urlsplit url).scheme (t.normalize hostname)
      of_hostname none q e = absurd cc
      of_hostname (some hostname) q e =
          let (no_metadata, k) = passed (is_metadata_host (t.normalize hostname)) _ e in
          (
            hostname,
            q,
            no_metadata,
            of_literal (t.normalize hostname)
                (a.ip_address (t.before_percent (t.normalize hostname))) refl k,
          )
