-- ===== src/UrlValidation.antt =====
-- bp_router/url_validation.py: the checks on a preset's `base_url`. `urlparse`, `str.lower`,
-- `str.strip`, `ipaddress` and `socket.getaddrinfo` are parameters; of an address, what the `is_...`
-- properties of `ipaddress` say is read.
pub mod Classes
pub mod Accepted
mod Examples
use backplaned_agents.Prelude.{
  Eq, ◌==◌, nat_eq, list_eq, option_eq, Text, codes, starts_with, partition, zero, suc, ◌⊎◌, inl,
  inr, Bool, false, not, ◌&&◌, ◌||◌, Option, none, some, List, [], ◌∷◌, map, arith, if◌then◌else◌,
  select, contains,
}

-- `parsed.scheme` and `parsed.hostname`
pub record ParsedUrl : Type 0 where
  pub scheme : Text
  pub hostname : Option Text

pub record IpClass : Type 0 where
  pub is_link_local : Bool
  pub is_multicast : Bool
  pub is_unspecified : Bool
  pub is_loopback : Bool
  pub is_private : Bool
  pub is_reserved : Bool

-- an address, and the IPv4 address that it embeds, if it does
pub record IpAddress : Type 0 where
  pub own : IpClass
  pub ipv4_mapped : Option IpClass

-- what is not under this file: `urlparse`, `lower`, `strip`, `ipaddress.ip_address`, whose none is the
-- `ValueError`, and `getaddrinfo`, whose none is the `OSError`
pub record Net : Type 0 where
  pub urlparse : Text → ParsedUrl
  pub lower : Text → Text
  pub strip : Text → Text
  pub ip_address : Text → Option IpAddress
  pub getaddrinfo : Text → Option (List Text)

pub data BlockReason : Type 0 where
  link_local multicast unspecified loopback private_address reserved : BlockReason

-- `BaseUrlValidationError`, and the plain `ValueError` of a resolved address that is none
pub data UrlError : Type 0 where
  bad_scheme needs_https no_hostname metadata_host bad_address : UrlError
  blocked : BlockReason → UrlError

-- `_METADATA_HOSTNAMES`
abbrev pub metadata_hostnames : List Text
metadata_hostnames =
    codes "metadata.google.internal"
    ∷ codes "metadata.azure.com"
    ∷ codes "instance-data.ec2.internal"
    ∷ codes "metadata.ec2.internal"
    ∷ []

-- `_HOSTED_PROVIDERS`
abbrev pub hosted_providers : List Text
hosted_providers =
    codes "gemini" ∷ codes "anthropic" ∷ codes "openai" ∷ codes "openai-embeddings" ∷ []

unfoldable pub is_local_provider : Text → Bool
unfolding starts_with
is_local_provider provider =
    starts_with (codes "openai-compatible") provider || provider == codes "mcp"

-- the address that is judged
abbrev pub unwrapped : IpAddress → IpClass
unwrapped ip = elim ip.ipv4_mapped [ none ↦ ip.own | some mapped ↦ mapped ]

unfoldable pub class_is_blocked : IpClass → Bool → Bool → Option BlockReason
class_is_blocked ip allow_private allow_loopback =
    if ip.is_link_local
    then some link_local
    else if ip.is_multicast
    then some multicast
    else if ip.is_unspecified
    then some unspecified
    else if ip.is_loopback
    then (if allow_loopback then none else some loopback)
    else if ip.is_private
    then (if allow_private then none else some private_address)
    else if ip.is_reserved
    then some reserved
    else none

unfoldable pub ip_is_blocked : IpAddress → Bool → Bool → Option BlockReason
unfolding class_is_blocked
ip_is_blocked ip allow_private allow_loopback =
    class_is_blocked (unwrapped ip) allow_private allow_loopback

-- the loop over the candidates
unfoldable pub check_addresses : Bool → List IpAddress → Unit {0} ⊎ UrlError
unfolding ip_is_blocked
check_addresses is_local [] = inl tt
check_addresses is_local (ip ∷ ips) = elim (ip_is_blocked ip is_local is_local) [
  | some reason ↦ inr (blocked reason)
  | none ↦ check_addresses is_local ips
]

-- `info[4][0].split("%")[0]` of each, as an address
unfoldable pub read_addresses : Net → List Text → Option (List IpAddress)
unfolding partition
read_addresses net [] = some []
read_addresses net (info ∷ infos) = elim (net.ip_address (partition b'%' info).0) [
  | none ↦ none
  | some ip ↦ elim (read_addresses net infos) [ none ↦ none | some ips ↦ some (ip ∷ ips) ]
]

-- the candidates for a host: none where it does not resolve, which is accepted
unfoldable pub candidate_ips : Net → Text → Option (List IpAddress) ⊎ UrlError
unfolding read_addresses
candidate_ips net host = elim (net.ip_address host) [
  | some ip ↦ inl (some (ip ∷ []))
  | none ↦ elim (net.getaddrinfo host) [
    | none ↦ inl none
    | some infos ↦ elim (read_addresses net infos) [
      | none ↦ inr bad_address
      | some ips ↦ inl (some ips)
    ]
  ]
]

-- the checks of a host that the operator has not approved
unfoldable pub check_host : Net → Text → Text → Unit {0} ⊎ UrlError
unfolding is_local_provider candidate_ips check_addresses
check_host net provider host =
    if contains metadata_hostnames host then inr metadata_host else elim (candidate_ips net host) [
      | inr e ↦ inr e
      | inl none ↦ inl tt
      | inl (some ips) ↦ check_addresses (is_local_provider provider) ips
    ]

abbrev pub is_allowed_host : Option (List Text) → Text → Bool
is_allowed_host none host = false
is_allowed_host (some hosts) host = contains hosts host

abbrev pub hostname_of : Net → ParsedUrl → Text
hostname_of net parsed = net.lower (elim parsed.hostname [ none ↦ [] | some h ↦ h ])

-- the checks behind the parsing
unfoldable pub check_parsed : Net → Text → Text → Text → Option (List Text) → Unit {0} ⊎ UrlError
unfolding check_host
check_parsed net provider scheme host allowed_hosts =
    if not (contains (codes "http" ∷ codes "https" ∷ []) scheme)
    then inr bad_scheme
    else if contains hosted_providers provider && not (scheme == codes "https")
    then inr needs_https
    else if host == []
    then inr no_hostname
    else if is_allowed_host allowed_hosts host
    then inl tt
    else check_host net provider host

unfoldable pub validate_base_url : Net → Text → Text → Option (List Text) → Unit {0} ⊎ UrlError
unfolding check_parsed
validate_base_url net provider [] allowed_hosts = inl tt
validate_base_url net provider (c ∷ url) allowed_hosts =
    let parsed = net.urlparse (c ∷ url) in
    check_parsed net provider (net.lower parsed.scheme) (hostname_of net parsed) allowed_hosts

-- `raw.split(",")`
unfoldable pub split_commas : Text → List Text
split_commas [] = [] ∷ []
split_commas (c ∷ s) = elim (split_commas s) [
  | [] ↦ []
  | item ∷ items ↦ if c == b',' then [] ∷ item ∷ items else (c ∷ item) ∷ items
]

unfoldable pub parse_allowed_hosts : Net → Option Text → List Text
unfolding split_commas
parse_allowed_hosts net none = []
parse_allowed_hosts net (some []) = []
parse_allowed_hosts net (some (c ∷ raw)) =
    map (λ item. net.lower (net.strip item))
      (select (λ item. not (net.strip item == [])) (split_commas (c ∷ raw)))
