-- ===== src/Plan/Lists.antt =====
-- The lists that plan steps are inserted into, replaced in and removed from.
use backplaned_agents.Prelude.{
  nat_eq, list_eq, option_eq, Text, ℕ, zero, suc, ◌≤◌, ◌<◌, ◌≡◌, refl, ap, none, some, List, [],
  ◌∷◌, arith, length, get_elem?,
}
use backplaned_agents.Plan.{insert_at, replace_at, remove_at}

pub length-insert_at :
    (i : ℕ) (t : Text) (steps : List Text) → length (insert_at i t steps) ≡ suc (length steps)
unfolding insert_at
length-insert_at zero t steps = refl
length-insert_at (suc i) t [] = refl
length-insert_at (suc i) t (x ∷ steps) = ap suc (length-insert_at i t steps)

pub length-replace_at :
    (i : ℕ) (t : Text) (steps : List Text) → length (replace_at i t steps) ≡ length steps
unfolding replace_at
length-replace_at i t [] = refl
length-replace_at zero [] (x ∷ steps) = refl
length-replace_at zero (c ∷ t) (x ∷ steps) = refl
length-replace_at (suc i) t (x ∷ steps) = ap suc (length-replace_at i t steps)

pub length-remove_at :
    (i : ℕ) (steps : List Text) → i < length steps → suc (length (remove_at i steps)) ≡ length steps
unfolding remove_at
length-remove_at i [] h = absurd (omega (arith, h))
length-remove_at zero (x ∷ steps) h = refl
length-remove_at (suc i) (x ∷ steps) h = ap suc (length-remove_at i steps (omega (arith, h)))

pub get_elem?-none : (steps : List Text) (i : ℕ) → get_elem? steps i ≡ none → length steps ≤ i
get_elem?-none [] i h = omega arith
get_elem?-none (x ∷ steps) zero h = absurd (ground arith)
get_elem?-none (x ∷ steps) (suc i) h = omega (arith, get_elem?-none steps i h)

pub get_elem?-some :
    (steps : List Text) (i : ℕ) (t : Text) → get_elem? steps i ≡ some t → i < length steps
get_elem?-some [] i t h = absurd (ground arith)
get_elem?-some (x ∷ steps) zero t h = omega arith
get_elem?-some (x ∷ steps) (suc i) t h = omega (arith, get_elem?-some steps i t h)
