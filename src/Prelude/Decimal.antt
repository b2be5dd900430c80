-- ===== src/Prelude/Decimal.antt =====
-- `str(n)` for a natural number, and `int(s)` for a run of decimal digits.
use Prim.Native.Nat.{ℕ, zero, suc, ◌+◌, ◌*◌, ◌-◌, ◌/◌, ◌%◌, ◌≤◌}
use mathlib.Core.Path.{◌≡◌, refl}
use mathlib.Core.Bool.{Bool, true, false, ◌&&◌}
use mathlib.Core.List.{[], ◌∷◌}
use native.Mathlib.Omega.{arith}
use backplaned_agents.Prelude.Tests.{leb, ltb, if◌then◌else◌}
use backplaned_agents.Prelude.Lists.{all}
use backplaned_agents.Prelude.Strings.{Text}

-- the class `[0-9]`
abbrev pub is_digit : ℕ → Bool
is_digit c = leb b'0' c && leb c b'9'

-- reads digits behind those that made up `n`
unfoldable pub read_digits : ℕ → Text → ℕ
read_digits n [] = n
read_digits n (c ∷ s) = read_digits (n * 10 + (c - 48)) s

-- writes the digits of `n` in front of `s`; the fuel `n` is enough
unfoldable pub write_digits : ℕ → ℕ → Text → Text
write_digits zero n s = (48 + n % 10) ∷ s
write_digits (suc f) n s =
    let more = write_digits f (n / 10) ((48 + n % 10) ∷ s) in
    if ltb n 10 then (48 + n) ∷ s else more

unfoldable pub decimal : ℕ → Text
unfolding write_digits
decimal n = write_digits n n []

read-write_digits :
    (f n : ℕ) (s : Text) → n ≤ f → read_digits 0 (write_digits f n s) ≡ read_digits n s
unfolding read_digits write_digits
read-write_digits zero n s h = ground arith
read-write_digits (suc f) n s h = ground (arith, read-write_digits f (n / 10) ((48 + n % 10) ∷ s))

-- `int(str(n)) == n`
pub read-decimal : (n : ℕ) → read_digits 0 (decimal n) ≡ n
unfolding decimal read_digits
read-decimal n = read-write_digits n n [] (omega arith)

all_digits-write :
    (f n : ℕ) (s : Text) → n ≤ f → all is_digit s ≡ true → all is_digit (write_digits f n s) ≡ true
unfolding write_digits
all_digits-write zero n s h k = ground arith
all_digits-write (suc f) n s h k = ground (arith, all_digits-write f (n / 10) ((48 + n % 10) ∷ s))

pub all_digits-decimal : (n : ℕ) → all is_digit (decimal n) ≡ true
unfolding decimal
all_digits-decimal n = all_digits-write n n [] (omega arith) refl

write_digits_cons : (f n : ℕ) (s : Text) → (c : ℕ) × (r : Text) × (write_digits f n s ≡ c ∷ r)
unfolding write_digits
write_digits_cons zero n s = (48 + n % 10, s, refl)
write_digits_cons (suc f) n s =
    let (c, r, e) = write_digits_cons f (n / 10) ((48 + n % 10) ∷ s) in
    elim (ltb n 10)
      as (λ b.
        (c : ℕ) × (r : Text) × ((if b
            then (48 + n) ∷ s
            else write_digits f (n / 10) ((48 + n % 10) ∷ s))
          ≡ c ∷ r)) [ true ↦ (48 + n, s, refl) | false ↦ (c, r, e) ]

-- a number has at least one digit
pub decimal_cons : (n : ℕ) → (c : ℕ) × (r : Text) × (decimal n ≡ c ∷ r)
unfolding decimal
decimal_cons n = write_digits_cons n n []
