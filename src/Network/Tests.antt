-- ===== src/Network/Tests.antt =====
-- The check with a resolver of two names.
use llm_evaluation_platform.Common.{
  ℕ, String, ◌≡◌, refl, true, false, none, some, [], ◌∷◌, ◌==◌, str_eq, if◌then◌else◌,
}
use llm_evaluation_platform.Network.Endpoint.{
  Addresses, Texts, allowed, unsafe, is_metadata_host, Resolver, IsReached, is_blocked_address,
  validate_address, validate_addresses, resolve_host, validate_host, validate_provider_endpoint,
  endpoint_open,
}

-- Two addresses, of which 1 is link-local.
abbrev addresses : Addresses ℕ
addresses = record {
  ip_address = λ s.
      if str_eq s "169.254.169.254" then some 1 else if str_eq s "10.0.0.1" then some 2 else none;
  ipv4_mapped = λ x. none;
  same = λ x y. x == y;
  is_link_local = λ x. x == 1;
  is_unspecified = λ x. false;
  is_multicast = λ x. false;
  is_reserved = λ x. false;
  blocked_metadata_addresses = 3 ∷ [];
}

abbrev texts : Texts
texts = record {
  urlsplit = λ u. record { scheme = "http"; hostname = some u };
  port_of = λ u. none;
  bad_port = λ u. false;
  normalize = λ h. h;
  before_percent = λ h. h;
}

abbrev two_names : Resolver
two_names host port =
    if str_eq host "local"
    then some (some "10.0.0.1" ∷ none ∷ [])
    else some (some "10.0.0.1" ∷ some "169.254.169.254" ∷ [])

local_name : validate_provider_endpoint addresses texts two_names true "local" ≡ allowed
unfolding validate_provider_endpoint validate_host resolve_host validate_addresses validate_address
    is_blocked_address
local_name = refl

-- A name with one good and one bad address is refused.
rebound_name : validate_provider_endpoint addresses texts two_names true "evil" ≡ unsafe
unfolding validate_provider_endpoint validate_host resolve_host validate_addresses validate_address
    is_blocked_address
rebound_name = refl

endpoint_open_example :
    (hostname : String) × (some "local" ≡ some hostname)
    × (is_metadata_host hostname ≡ false)
    × IsReached addresses texts two_names "local" "http" hostname
endpoint_open_example = endpoint_open addresses texts two_names "local" local_name
