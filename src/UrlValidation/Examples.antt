-- ===== src/UrlValidation/Examples.antt =====
-- The theorems on URLs, with a small network.
use backplaned_agents.Prelude.{
  nat_eq, list_eq, option_eq, Text, codes, lookup, ◌≡◌, refl, inl, inr, true, false, none, some,
  List, [], ◌∷◌, All,
}
use backplaned_agents.UrlValidation.{
  IpClass, IpAddress, Net, candidate_ips, validate_base_url, blocked, link_local, check_addresses,
  is_local_provider, parse_allowed_hosts,
}
use backplaned_agents.UrlValidation.Accepted.{IsPublicAddress, IsPublicInfo, hosted-IsPublic}

program : Unit {0}
unfolding lookup candidate_ips validate_base_url is_local_provider check_addresses
    parse_allowed_hosts
program = tt

abbrev public_class : IpClass
public_class = record {
  is_link_local = false;
  is_multicast = false;
  is_unspecified = false;
  is_loopback = false;
  is_private = false;
  is_reserved = false;
}

abbrev metadata_class : IpClass
metadata_class = record public_class { is_link_local = true; is_private = true }

abbrev plain : IpClass → IpAddress
plain k = record { own = k; ipv4_mapped = none }

-- a URL is `https` and its host; two hosts resolve, one of them to the metadata address in IPv6 form
abbrev net : Net
net = record {
  urlparse = λ url. record { scheme = codes "https"; hostname = some url };
  lower = λ s. s;
  strip = λ s. s;
  ip_address = λ s. lookup s (
      (codes "1.1.1.1", plain public_class)
      ∷ (codes "fe80::1", record { own = public_class; ipv4_mapped = some metadata_class })
      ∷ []);
  getaddrinfo = λ s. lookup s (
      (codes "api", codes "1.1.1.1" ∷ [])
      ∷ (codes "trap", codes "1.1.1.1" ∷ codes "fe80::1%eth0" ∷ [])
      ∷ []);
}

hosted-IsPublic_example :
    (codes "https" ≡ codes "https")
    × ((ip : IpAddress) → net.ip_address (codes "api") ≡ some ip → IsPublicAddress ip)
    × ((infos : List Text)
        → net.ip_address (codes "api") ≡ none
        → net.getaddrinfo (codes "api") ≡ some infos
        → All (λ info. IsPublicInfo net info) infos)
unfolding program
hosted-IsPublic_example = hosted-IsPublic net (codes "openai") 97 (codes "pi") none refl refl refl

-- one harmful address among several is enough, for a local provider too
trapped : validate_base_url net (codes "mcp") (codes "trap") none ≡ inr (blocked link_local)
unfolding program
trapped = refl

-- a host that does not resolve is accepted
unresolved : validate_base_url net (codes "openai") (codes "nowhere") none ≡ inl tt
unfolding program
unresolved = refl

allowed_hosts : parse_allowed_hosts net (some (codes "a,,b")) ≡ codes "a" ∷ codes "b" ∷ []
unfolding program
allowed_hosts = refl
