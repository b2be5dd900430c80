-- ===== src/Lru/Examples.antt =====
-- Runs of the cache, and the theorems at a concrete one.
use backplaned_agents.Prelude.{nat_eq, list_eq, option_eq, ℕ, ◌≡◌, refl, none, [], ◌∷◌, arith}
use backplaned_agents.Lru.{Lru, init, set_item, get, pop, has_key}
use backplaned_agents.Lru.Bounds.{IsValid}
use backplaned_agents.Lru.Recency.{writes}

program : Unit {0}
unfolding get pop set_item has_key init writes
program = tt

abbrev two : Lru ℕ ℕ
two = record { maxsize = 2; entries = (1, 10) ∷ (2, 20) ∷ [] }

abbrev touched : Lru ℕ ℕ
touched = record { maxsize = 2; entries = (2, 20) ∷ (1, 10) ∷ [] }

runs :
    (get two 1 0 ≡ (10, touched))
    × ((set_item touched 3 30).entries ≡ (1, 10) ∷ (3, 30) ∷ [])
    × (get two 7 0 ≡ (0, two))
    × (init {K = ℕ} {V = ℕ} 0 ≡ none)
unfolding program
runs = (refl, refl, refl, refl)

two-IsValid : IsValid two
unfolding program
two-IsValid = record {
  positive = omega arith;
  bounded = omega arith;
  distinct = (refl, (refl, tt));
}
