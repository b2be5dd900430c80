-- ===== src/UrlValidation/Classes.antt =====
-- Which addresses the checks let through.
use backplaned_agents.Prelude.{
  ◌==◌, nat_eq, list_eq, option_eq, Text, text_iff, starts_with, ◌≡◌, refl, sym, ◌∙◌, ◌↔◌, inl, inr,
  Bool, true, false, none, List, [], ◌∷◌, arith, Bool-cases, Option-cases, all, contains, All,
}
use mathlib.Core.Path.{subst}
use backplaned_agents.UrlValidation.{
  IpClass, IpAddress, unwrapped, class_is_blocked, ip_is_blocked, check_addresses, hosted_providers,
  is_local_provider,
}

-- an address that a provider may be at: never the cloud-metadata range, and in the local network only
-- for a local provider
pub record IsHarmless (is_local : Bool) (c : IpClass) : Type 0 where
  pub not_link_local : c.is_link_local ≡ false
  pub not_multicast : c.is_multicast ≡ false
  pub not_unspecified : c.is_unspecified ≡ false
  pub loopback_local : is_local ≡ false → c.is_loopback ≡ false
  pub private_local : is_local ≡ false → c.is_loopback ≡ false → c.is_private ≡ false
  pub not_reserved : c.is_loopback ≡ false → c.is_private ≡ false → c.is_reserved ≡ false

passes-IsHarmless :
    (is_local : Bool) (c : IpClass)
    → class_is_blocked c is_local is_local ≡ none
    → IsHarmless is_local c
unfolding class_is_blocked
passes-IsHarmless is_local c h = record {
  not_link_local = ground arith;
  not_multicast = ground arith;
  not_unspecified = ground arith;
  loopback_local = λ l. ground (arith, l);
  private_local = λ l n. ground (arith, l, n);
  not_reserved = λ n m. ground (arith, n, m);
}

harmless-passes :
    (is_local : Bool) (c : IpClass)
    → IsHarmless is_local c
    → class_is_blocked c is_local is_local ≡ none
unfolding class_is_blocked
harmless-passes is_local c h = ground (
  arith, h.not_link_local, h.not_multicast, h.not_unspecified, h.loopback_local, h.private_local,
  h.not_reserved,
)

abbrev pub AllHarmless : Bool → List IpAddress → Type 0
AllHarmless is_local ips = All (λ ip. IsHarmless is_local (unwrapped ip)) ips

-- The addresses of a host pass exactly when each of them is harmless, an embedded IPv4 address
-- standing for the one that embeds it.
pub checked_iff :
    (is_local : Bool) (ips : List IpAddress)
    → (check_addresses is_local ips ≡ inl tt) ↔ AllHarmless is_local ips
unfolding check_addresses ip_is_blocked
checked_iff is_local [] = (λ h. tt, λ h. refl)
checked_iff is_local (ip ∷ ips) = elim (Option-cases (ip_is_blocked ip is_local is_local)) [
  | inl e ↦ (
    λ h. (
      passes-IsHarmless is_local (unwrapped ip) e,
      (checked_iff is_local ips).0 (rw (e, check_addresses) at h),
    ),
    λ (one, more). rw (e, check_addresses) ((checked_iff is_local ips).1 more),
  )
  | inr (reason, e) ↦ (
    λ h. absurd (ground (arith, rw (e, check_addresses) at h)),
    λ (one, more). absurd (ground (arith, sym e ∙ harmless-passes is_local (unwrapped ip) one)),
  )
]

contains_all :
    (P : Text → Type 0) (xs : List Text) (a : Text) → All P xs → contains xs a ≡ true → P a
contains_all P [] a all h = absurd (ground (arith, h))
contains_all P (x ∷ xs) a all h = elim (Bool-cases (x == a)) [
  | inl y ↦ subst P ((text_iff x a).0 y) all.0
  | inr n ↦ contains_all P xs a all.1 (rw n at h)
]

-- a hosted provider is never a local one
pub hosted_not_local :
    (provider : Text)
    → contains hosted_providers provider ≡ true
    → is_local_provider provider ≡ false
unfolding is_local_provider starts_with
hosted_not_local provider h =
    contains_all (λ p. is_local_provider p ≡ false) hosted_providers provider
      (refl, (refl, (refl, (refl, tt)))) h
