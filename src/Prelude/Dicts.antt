-- ===== src/Prelude/Dicts.antt =====
-- Python's `dict` as an association list, in insertion order.
use mathlib.Core.Path.{◌≡◌, refl}
use mathlib.Core.Bool.{true}
use mathlib.Core.List.{List, [], ◌∷◌, ◌++◌}
use mathlib.Core.Option.{Option, none, some}
use native.Mathlib.Omega.{arith}
use backplaned_agents.Prelude.Tests.{if◌then◌else◌, Bool-cases}
use backplaned_agents.Prelude.Lists.{length}
use Prim.Native.Nat.{◌≤◌, ◌<◌}
use mathlib.Core.Logic.{inl, inr}
use backplaned_agents.Prelude.Equality.{Eq}

abbrev pub Dict {ℓ κ} : Type ℓ → Type κ → Type (ℓ ⊔ κ)
Dict K V = List (K × V)

module _ {ℓ κ} {K : Type ℓ} {V : Type κ} ⦃e : Eq K⦄ where
  -- `d.get(k)`
  unfoldable pub lookup : K → Dict K V → Option V
  lookup k [] = none
  lookup k ((j, v) ∷ d) = if e.beq j k then some v else lookup k d

  -- `d[k] = v`: a known key keeps its place, a new one comes last
  unfoldable pub insert : K → V → Dict K V → Dict K V
  insert k v [] = (k, v) ∷ []
  insert k v ((j, w) ∷ d) = if e.beq j k then (j, v) ∷ d else (j, w) ∷ insert k v d

  -- `d.pop(k, None)`
  unfoldable pub erase : K → Dict K V → Dict K V
  erase k [] = []
  erase k ((j, w) ∷ d) = let rest = erase k d in if e.beq j k then rest else (j, w) ∷ rest

  pub lookup-insert :
      (k j : K) (v : V) (d : Dict K V)
      → lookup j (insert k v d) ≡ (if e.beq k j then some v else lookup j d)
  unfolding lookup insert
  lookup-insert k j v [] = refl
  lookup-insert k j v ((i, w) ∷ d) =
      ground (arith, e.beq_iff k j, e.beq_iff i k, e.beq_iff i j, lookup-insert k j v d)

  pub lookup-erase :
      (k j : K) (d : Dict K V) → lookup j (erase k d) ≡ (if e.beq k j then none else lookup j d)
  unfolding lookup erase
  lookup-erase k j [] = ground arith
  lookup-erase k j ((i, w) ∷ d) =
      ground (arith, e.beq_iff k j, e.beq_iff i k, e.beq_iff i j, lookup-erase k j d)

  pub ruleset dict_laws = (lookup-insert, lookup-erase)

pub ==_self {ℓ} : {K : Type ℓ} ⦃e : Eq K⦄ (k : K) → e.beq k k ≡ true
==_self ⦃e⦄ k = (e.beq_iff k k).1 refl

-- No key occurs twice.
abbrev pub Distinct {ℓ κ} : {K : Type ℓ} {V : Type κ} ⦃e : Eq K⦄ → Dict K V → Type κ
Distinct [] = Unit
Distinct ⦃e⦄ ((k, v) ∷ d) = (lookup ⦃e = e⦄ k d ≡ none) × Distinct ⦃e = e⦄ d

module _ {ℓ κ} {K : Type ℓ} {V : Type κ} ⦃e : Eq K⦄ where
  pub lookup-append :
      (j : K) (a b : Dict K V)
      → lookup j (a ++ b) ≡ elim (lookup j a) [ none ↦ lookup j b | some v ↦ some v ]
  unfolding lookup
  lookup-append j [] b = refl
  lookup-append j ((i, v) ∷ a) b = ground (arith, lookup-append j a b)

  pub length-erase-le : (k : K) (d : Dict K V) → length (erase k d) ≤ length d
  unfolding erase
  length-erase-le k [] = omega arith
  length-erase-le k ((i, v) ∷ d) = ground (arith, length-erase-le k d)

  -- A known key that goes makes the dict shorter.
  pub length-erase-lt :
      (k : K) (d : Dict K V) {v : V} → lookup k d ≡ some v → length (erase k d) < length d
  unfolding erase lookup
  length-erase-lt k [] h = absurd (ground arith)
  length-erase-lt k ((i, w) ∷ d) {v} h =
      ground (arith, length-erase-lt k d {v = v}, length-erase-le k d)

  pub Distinct-erase : (k : K) (d : Dict K V) → Distinct d → Distinct (erase k d)
  unfolding erase
  Distinct-erase k [] h = tt
  Distinct-erase k ((i, v) ∷ d) h = elim (Bool-cases (e.beq i k)) [
    | inl y ↦ rw y (Distinct-erase k d h.1)
    | inr n ↦ rw n ((ground (arith, lookup-erase k i d), Distinct-erase k d h.1))
  ]

  pub Distinct-last :
      (k : K) (v : V) (d : Dict K V) → lookup k d ≡ none → Distinct d → Distinct (d ++ (k, v) ∷ [])
  unfolding lookup
  Distinct-last k v [] n h = (refl, tt)
  Distinct-last k v ((i, w) ∷ d) n h = (
    ground (arith, e.beq_iff i k, e.beq_iff k i, lookup-append i d ((k, v) ∷ [])),
    Distinct-last k v d (ground arith) h.1,
  )

  pub lookup-erase_self : (k : K) (d : Dict K V) → lookup k (erase k d) ≡ none
  lookup-erase_self k d = rw (lookup-erase k k d, ==_self k) refl

  pub lookup-insert_self : (k : K) (v : V) (d : Dict K V) → lookup k (insert k v d) ≡ some v
  lookup-insert_self k v d = rw (lookup-insert k k v d, ==_self k) refl
