-- ===== src/Prelude/Strings.antt =====
-- A Python `str` as its list of code points, with the operations that the program walks it by.
use Prim.Native.Char.{code}
use Prim.Native.Nat.{ℕ}
use Prim.Native.String.{String}
use mathlib.Core.Path.{◌≡◌, refl}
use mathlib.Core.Bool.{Bool, true, false, ◌&&◌}
use mathlib.Core.List.{List, [], ◌∷◌, ◌++◌}
use mathlib.Core.Option.{Option, none, some}
use native.Mathlib.Omega.{arith}
use backplaned_agents.Prelude.Tests.{eqb, if◌then◌else◌}
use backplaned_agents.Prelude.Equality.{
  nat_eq, list_eq, option_eq, list_beq, option_beq, list_beq_iff, option_beq_iff,
}
use mathlib.Core.Logic.{◌↔◌}

abbrev pub Text : Type 0
Text = List ℕ

abbrev pub codes : String → Text
codes String.[] = []
codes (String.◌∷◌ c s) = code c ∷ codes s

-- `s.startswith(p)`
unfoldable pub starts_with : Text → Text → Bool
starts_with [] s = true
starts_with (c ∷ p) [] = false
starts_with (c ∷ p) (d ∷ s) = eqb c d && starts_with p s

-- `s.removeprefix`-like: what follows the prefix `p`, if `s` starts with it
unfoldable pub strip_prefix : Text → Text → Option Text
strip_prefix [] s = some s
strip_prefix (c ∷ p) [] = none
strip_prefix (c ∷ p) (d ∷ s) = if eqb c d then strip_prefix p s else none

abbrev first : ℕ → Text × Text → Text × Text
first c (a, b) = (c ∷ a, b)

-- `s.partition(sep)` for one character: what stands before its first occurrence, and what after;
-- without an occurrence, all of `s` and nothing.
unfoldable pub partition : ℕ → Text → Text × Text
partition sep [] = ([], [])
partition sep (c ∷ s) = if eqb c sep then ([], s) else first c (partition sep s)

-- A text starts with `p` exactly where something stands behind `p` in it.
pub starts_with-append : (p s : Text) → starts_with p (p ++ s) ≡ true
unfolding starts_with
starts_with-append [] s = refl
starts_with-append (c ∷ p) s = ground (arith, starts_with-append p s)

pub strip_prefix-append : (p s : Text) → strip_prefix p (p ++ s) ≡ some s
unfolding strip_prefix
strip_prefix-append [] s = refl
strip_prefix-append (c ∷ p) s = ground (arith, strip_prefix-append p s)

pub append-strip_prefix : (p s : Text) {r : Text} → strip_prefix p s ≡ some r → s ≡ p ++ r
unfolding strip_prefix
append-strip_prefix [] s h = ground arith
append-strip_prefix (c ∷ p) [] h = ground arith
append-strip_prefix (c ∷ p) (d ∷ s) {r} h = ground (arith, append-strip_prefix p s {r = r})

-- Equal by `==` is equal.
pub text_iff : (a b : Text) → (list_beq a b ≡ true) ↔ (a ≡ b)
text_iff a b = list_beq_iff a b

pub option_text_iff : (a b : Option Text) → (option_beq a b ≡ true) ↔ (a ≡ b)
option_text_iff a b = option_beq_iff a b
