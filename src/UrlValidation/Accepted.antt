-- ===== src/UrlValidation/Accepted.antt =====
-- Which URLs are accepted.
use backplaned_agents.Prelude.{
  ◌==◌, nat_eq, list_eq, option_eq, Text, text_iff, codes, partition, ℕ, ◌≡◌, refl, sym, ap, ◌∙◌,
  ◌↔◌, ◌⊎◌, inl, inr, Bool, true, false, not, ◌&&◌, Option, none, some, List, [], ◌∷◌, arith,
  Bool-cases, Option-cases, some_inj, contains, All,
}
use mathlib.Core.Path.{subst}
use backplaned_agents.UrlValidation.{
  IpClass, IpAddress, Net, UrlError, metadata_hostnames, hosted_providers, is_local_provider,
  unwrapped, read_addresses, candidate_ips, check_host, is_allowed_host, hostname_of, check_parsed,
  validate_base_url,
}
use backplaned_agents.UrlValidation.Classes.{IsHarmless, AllHarmless, checked_iff, hosted_not_local}
use backplaned_agents.Tasks.Handover.{sum_cases}

-- the host does not resolve, or it resolves to harmless addresses alone
abbrev pub IsHarmlessHost : Net → Text → Text → Type 0
IsHarmlessHost net provider host =
    (candidate_ips net host ≡ inl none)
    ⊎ ((ips : List IpAddress) × (candidate_ips net host ≡ inl (some ips))
        × AllHarmless (is_local_provider provider) ips)

-- what is asked of a URL whose host the operator has not approved
pub record IsSafe (net : Net) (provider scheme host : Text) : Type 0 where
  pub scheme_ok : contains (codes "http" ∷ codes "https" ∷ []) scheme ≡ true
  pub hosted_tls : contains hosted_providers provider ≡ true → (scheme == codes "https") ≡ true
  pub host_given : (host == []) ≡ false
  pub not_metadata : contains metadata_hostnames host ≡ false
  pub addresses : IsHarmlessHost net provider host

implies_false : (a b : Bool) → (a && not b) ≡ false → a ≡ true → b ≡ true
implies_false a b h k = ground (arith, h, k)

implied : (a b : Bool) → (a ≡ true → b ≡ true) → (a && not b) ≡ false
implied true b f = ground (arith, f refl)
implied false b f = refl

module _ (net : Net) (provider host : Text) where
  host_checked :
      check_host net provider host ≡ inl tt
      → (contains metadata_hostnames host ≡ false) × IsHarmlessHost net provider host
  unfolding check_host
  host_checked h = elim (Bool-cases (contains metadata_hostnames host)) [
    | inl m ↦ absurd (ground (arith, rw (m, check_host) at h))
    | inr m ↦ elim (sum_cases (candidate_ips net host)) [
      | inr (e, c) ↦ absurd (ground (arith, rw (m, c, check_host) at h))
      | inl (none, c) ↦ (m, inl c)
      | inl (some ips, c) ↦ (
        m,
        inr (ips, c, (checked_iff (is_local_provider provider) ips).0 (rw (m, c, check_host) at h)),
      )
    ]
  ]

  harmless_checked :
      contains metadata_hostnames host ≡ false
      → IsHarmlessHost net provider host
      → check_host net provider host ≡ inl tt
  unfolding check_host
  harmless_checked m (inl c) = rw (m, c, check_host) refl
  harmless_checked m (inr (ips, c, harmless)) =
      rw (m, c, check_host) ((checked_iff (is_local_provider provider) ips).1 harmless)

  module _ (scheme : Text) (allowed : Option (List Text))
      (unapproved : is_allowed_host allowed host ≡ false) where
    parsed-IsSafe :
        check_parsed net provider scheme host allowed ≡ inl tt → IsSafe net provider scheme host
    unfolding check_parsed
    parsed-IsSafe h = elim (Bool-cases (contains (codes "http" ∷ codes "https" ∷ []) scheme)) [
      | inr s ↦ absurd (ground (arith, rw (s, check_parsed) at h))
      | inl s ↦
          elim (Bool-cases (contains hosted_providers provider && not (scheme == codes "https"))) [
            | inl t ↦ absurd (ground (arith, rw (s, t, check_parsed) at h))
            | inr t ↦ elim (Bool-cases (host == [])) [
              | inl g ↦ absurd (ground (arith, rw (s, t, g, check_parsed) at h))
              | inr g ↦
                  let (m, addresses) = host_checked (rw (s, t, g, unapproved, check_parsed) at h) in
                  record {
                    scheme_ok = s;
                    hosted_tls = implies_false _ _ t;
                    host_given = g;
                    not_metadata = m;
                    addresses = addresses;
                  }
            ]
          ]
    ]

    safe_parsed :
        IsSafe net provider scheme host → check_parsed net provider scheme host allowed ≡ inl tt
    unfolding check_parsed
    safe_parsed s =
        rw (s.scheme_ok, implied _ _ s.hosted_tls, s.host_given, unapproved, check_parsed)
          (harmless_checked s.not_metadata s.addresses)

-- an address of the public network
pub record IsPublic (k : IpClass) : Type 0 where
  pub link_local : k.is_link_local ≡ false
  pub multicast : k.is_multicast ≡ false
  pub unspecified : k.is_unspecified ≡ false
  pub loopback : k.is_loopback ≡ false
  pub private_net : k.is_private ≡ false
  pub reserved : k.is_reserved ≡ false

-- the same of an address, or of the IPv4 address that it embeds
pub record IsPublicAddress (ip : IpAddress) : Type 0 where
  pub mapped : (m : IpClass) → ip.ipv4_mapped ≡ some m → IsPublic m
  pub plain : ip.ipv4_mapped ≡ none → IsPublic ip.own

-- what `getaddrinfo` gives, without its zone, is a public address
abbrev pub IsPublicInfo : Net → Text → Type 0
IsPublicInfo net info =
    (ip : IpAddress) × (net.ip_address (partition b'%' info).0 ≡ some ip) × IsPublicAddress ip

module _ (net : Net) (provider : Text) (c : ℕ) (url : Text) (allowed : Option (List Text)) where
  -- the scheme and the host of the URL
  abbrev pub scheme_of : Text
  scheme_of = net.lower (net.urlparse (c ∷ url)).scheme

  abbrev pub host_of : Text
  host_of = hostname_of net (net.urlparse (c ∷ url))

  -- A URL whose host the operator has not approved is accepted exactly when its scheme is http or
  -- https, and https for a hosted provider, when it has a host that is no metadata name, and the host
  -- does not resolve or resolves to harmless addresses alone.
  pub accepted_iff :
      is_allowed_host allowed host_of ≡ false
      → (validate_base_url net provider (c ∷ url) allowed ≡ inl tt)
        ↔ IsSafe net provider scheme_of host_of
  unfolding validate_base_url
  accepted_iff unapproved = (
    parsed-IsSafe net provider host_of scheme_of allowed unapproved,
    safe_parsed net provider host_of scheme_of allowed unapproved,
  )

  harmless-IsPublic : (k : IpClass) → IsHarmless false k → IsPublic k
  harmless-IsPublic k h = record {
    link_local = h.not_link_local;
    multicast = h.not_multicast;
    unspecified = h.not_unspecified;
    loopback = h.loopback_local refl;
    private_net = h.private_local refl (h.loopback_local refl);
    reserved =
        h.not_reserved (h.loopback_local refl) (h.private_local refl (h.loopback_local refl));
  }

  found_ips :
      (found ips : List IpAddress)
      → ◌≡◌ {A = Option (List IpAddress) ⊎ UrlError} (inl (some found)) (inl (some ips))
      → found ≡ ips
  found_ips found ips h = ap (λ x. elim x [ inl none ↦ found | inl (some y) ↦ y | inr e ↦ found ]) h

  All-IsPublic :
      (ips : List IpAddress) → AllHarmless false ips → All (λ ip. IsPublic (unwrapped ip)) ips
  All-IsPublic [] a = tt
  All-IsPublic (ip ∷ ips) a = (harmless-IsPublic (unwrapped ip) a.0, All-IsPublic ips a.1)

  -- what the code reads from the host is public
  hosted_candidates :
      (ips : List IpAddress)
      → contains hosted_providers provider ≡ true
      → is_allowed_host allowed host_of ≡ false
      → validate_base_url net provider (c ∷ url) allowed ≡ inl tt
      → candidate_ips net host_of ≡ inl (some ips)
      → (scheme_of ≡ codes "https") × All (λ ip. IsPublic (unwrapped ip)) ips
  hosted_candidates ips hosted unapproved ok resolved =
      let safe = (accepted_iff unapproved).0 ok in
      (
        (text_iff scheme_of (codes "https")).0 (safe.hosted_tls hosted),
        elim safe.addresses [
          | inl unresolved ↦ absurd (ground (arith, sym unresolved ∙ resolved))
          | inr (found, c', harmless) ↦
              let same = found_ips found ips (sym c' ∙ resolved) in
              let not_local = hosted_not_local provider hosted in
              All-IsPublic ips (
                subst (λ b. AllHarmless b ips) not_local
                  (subst (AllHarmless (is_local_provider provider)) same harmless))
        ],
      )

  candidates_literal :
      (ip : IpAddress)
      → net.ip_address host_of ≡ some ip
      → candidate_ips net host_of ≡ inl (some (ip ∷ []))
  unfolding candidate_ips
  candidates_literal ip e = rw (e, candidate_ips) refl

  unreadable :
      (infos : List Text)
      → net.ip_address host_of ≡ none
      → net.getaddrinfo host_of ≡ some infos
      → read_addresses net infos ≡ none
      → ¬ IsHarmlessHost net provider host_of
  unfolding candidate_ips
  unreadable infos e resolved f (inl d) =
      absurd (ground (arith, rw f at (rw resolved at (rw (e, candidate_ips) at d))))
  unreadable infos e resolved f (inr (ips, d, h)) =
      absurd (ground (arith, rw f at (rw resolved at (rw (e, candidate_ips) at d))))

  public_address : (ip : IpAddress) → IsPublic (unwrapped ip) → IsPublicAddress ip
  public_address ip k = record {
    mapped = λ m e. subst IsPublic (rw e refl) k;
    plain = λ e. subst IsPublic (rw e refl) k;
  }

  infos_public :
      (infos : List Text) (ips : List IpAddress)
      → read_addresses net infos ≡ some ips
      → All (λ ip. IsPublic (unwrapped ip)) ips
      → All (λ info. IsPublicInfo net info) infos
  unfolding read_addresses
  infos_public [] ips e k = tt
  infos_public (info ∷ infos) ips e k =
      elim (Option-cases (net.ip_address (partition b'%' info).0)) [
        | inl f ↦ absurd (ground (arith, rw (f, read_addresses) at e))
        | inr (ip, f) ↦ elim (Option-cases (read_addresses net infos)) [
          | inl g ↦ absurd (ground (arith, rw (f, g, read_addresses) at e))
          | inr (more, g) ↦
              let same = some_inj (rw (f, g, read_addresses) at e) in
              let k' = subst (λ x. All (λ y. IsPublic (unwrapped y)) x) (sym same) k in
              ((ip, f, public_address ip k'.0), infos_public infos more g k'.1)
        ]
      ]

  -- If the URL of a hosted provider is accepted whose host the operator has not approved, its scheme is
  -- https. At the time of the check a host that is an address is public, and so is every address that
  -- the name of a host resolves to, if it resolves. An address is public if it, or the IPv4 address
  -- that it embeds where it does, is not link-local, multicast, unspecified, loopback, private or
  -- reserved.
  pub hosted-IsPublic :
      contains hosted_providers provider ≡ true
      → is_allowed_host allowed host_of ≡ false
      → validate_base_url net provider (c ∷ url) allowed ≡ inl tt
      → (scheme_of ≡ codes "https")
        × ((ip : IpAddress) → net.ip_address host_of ≡ some ip → IsPublicAddress ip)
        × ((infos : List Text)
            → net.ip_address host_of ≡ none
            → net.getaddrinfo host_of ≡ some infos
            → All (λ info. IsPublicInfo net info) infos)
  unfolding candidate_ips
  hosted-IsPublic hosted unapproved ok = (
    (text_iff scheme_of (codes "https")).0 (((accepted_iff unapproved).0 ok).hosted_tls hosted),
    λ ip e.
        public_address ip
          (hosted_candidates (ip ∷ []) hosted unapproved ok (candidates_literal ip e)).1.0,
    λ infos e resolved. elim (Option-cases (read_addresses net infos)) [
      | inl f ↦ absurd (unreadable infos e resolved f ((accepted_iff unapproved).0 ok).addresses)
      | inr (ips, f) ↦
          infos_public infos ips f
            (hosted_candidates ips hosted unapproved ok
              (rw (e, candidate_ips) (rw (resolved) (rw f refl)))).1
    ],
  )
