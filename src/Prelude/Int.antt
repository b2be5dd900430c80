-- ===== src/Prelude/Int.antt =====
-- Python's `int`: `negsuc n` is -(n + 1).
use Prim.Native.Nat.{ℕ}
use mathlib.Core.Path.{◌≡◌}
use mathlib.Core.Bool.{Bool, true, false}
use native.Mathlib.Omega.{arith}
use backplaned_agents.Prelude.Tests.{leb}

pub data ℤ : Type 0 where
  pos : ℕ → ℤ
  negsuc : ℕ → ℤ

-- `a <= b`
abbrev pub le_int : ℤ → ℤ → Bool
le_int (pos a) (pos b) = leb a b
le_int (pos a) (negsuc b) = false
le_int (negsuc a) (pos b) = true
le_int (negsuc a) (negsuc b) = leb b a

pub le_int_trans : (a b c : ℤ) → le_int a b ≡ true → le_int b c ≡ true → le_int a c ≡ true
le_int_trans (pos a) (pos b) (pos c) h k = ground arith
le_int_trans (pos a) (pos b) (negsuc c) h k = k
le_int_trans (pos a) (negsuc b) c h k = ground arith
le_int_trans (negsuc a) (pos b) (pos c) h k = h
le_int_trans (negsuc a) (pos b) (negsuc c) h k = ground arith
le_int_trans (negsuc a) (negsuc b) (pos c) h k = k
le_int_trans (negsuc a) (negsuc b) (negsuc c) h k = ground arith
