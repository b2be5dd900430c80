-- ===== src/Principals/Spelling.antt =====
-- An abstract reading of levels, a level being `admin`, `service` or a tier, and how it is spelled.
use backplaned_agents.Prelude.{
  nat_eq, list_eq, option_eq, Text, codes, is_digit, read-decimal, all_digits-decimal, decimal_cons,
  decimal, ℕ, ◌≡◌, refl, Bool, true, false, some, [], ◌∷◌, ◌++◌, append-nil, arith, leb, all,
  le_int, ℤ, pos, negsuc,
}
use backplaned_agents.Principals.{
  at_end, span_digits, digits_to_end, tier_match, tier_index, level_satisfies_tier,
}

pub data Level : Type 0 where
  admin service : Level
  tier : ℕ → Level

unfoldable pub spell : Level → Text
spell admin = codes "admin"
spell service = codes "service"
spell (tier n) = codes "tier" ++ decimal n

-- what the documentation of `user_level_satisfies` says of a caller and a rule
abbrev pub satisfies : Level → Level → Bool
satisfies admin admin = true
satisfies service service = true
satisfies admin (tier n) = true
satisfies service (tier n) = true
satisfies (tier m) (tier n) = leb m n
satisfies _ _ = false

pub span_all_digits :
    (ds rest : Text)
    → all is_digit ds ≡ true
    → span_digits rest ≡ ([], rest)
    → span_digits (ds ++ rest) ≡ (ds, rest)
unfolding span_digits
span_all_digits [] rest h k = k
span_all_digits (c ∷ ds) rest h k = ground (arith, span_all_digits ds rest)

pub digits_to_end-decimal :
    (n : ℕ) (rest : Text)
    → span_digits rest ≡ ([], rest)
    → at_end rest ≡ true
    → digits_to_end (decimal n ++ rest) ≡ some (decimal n)
unfolding digits_to_end
digits_to_end-decimal n rest h k =
    let (c, r, e) = decimal_cons n in
    ground (arith, span_all_digits (decimal n) rest (all_digits-decimal n) h)

-- a tier with `rest` behind it, where `rest` is nothing or one newline
pub tier_match-tier :
    (n : ℕ) (rest : Text)
    → span_digits rest ≡ ([], rest)
    → at_end rest ≡ true
    → tier_match (codes "tier" ++ (decimal n ++ rest)) ≡ some (decimal n)
unfolding tier_match
tier_match-tier n rest h k = digits_to_end-decimal n rest h k

pub tier_index-tier :
    (n : ℕ) (rest : Text)
    → span_digits rest ≡ ([], rest)
    → at_end rest ≡ true
    → tier_index (some (codes "tier" ++ (decimal n ++ rest))) ≡ some (pos n)
unfolding tier_index
tier_index-tier n rest h k = rw (tier_match-tier n rest h k) (rw (read-decimal n))

pub tier_index-spell_tier : (n : ℕ) → tier_index (some (spell (tier n))) ≡ some (pos n)
unfolding spell at_end span_digits
tier_index-spell_tier n = rw append-nil at (tier_index-tier n [] refl refl)

abbrev pub index : Level → ℤ
index admin = negsuc 0
index service = negsuc 0
index (tier n) = pos n

pub tier_index-spell : (a : Level) → tier_index (some (spell a)) ≡ some (index a)
unfolding tier_index spell
tier_index-spell admin = refl
tier_index-spell service = refl
tier_index-spell (tier n) = tier_index-spell_tier n

pub level_satisfies_tier-spell :
    (a : Level) (k : ℤ) → level_satisfies_tier (some (spell a)) k ≡ le_int (index a) k
unfolding level_satisfies_tier
level_satisfies_tier-spell a k = rw (tier_index-spell a, level_satisfies_tier)

pub index_table : (a : Level) (n : ℕ) → le_int (index a) (pos n) ≡ satisfies a (tier n)
index_table admin n = refl
index_table service n = refl
index_table (tier m) n = refl
