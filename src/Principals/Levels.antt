-- ===== src/Principals/Levels.antt =====
-- The tests on levels against an abstract reading: a level is `admin`, `service` or a tier.
use backplaned_agents.Prelude.{
  ◌==◌, nat_eq, list_eq, option_eq, Text, text_iff, option_text_iff, codes, decimal, ℕ, ◌≤◌, ◌≡◌,
  refl, sym, ap, ◌∙◌, inl, inr, Bool, true, false, ◌||◌, Option, none, some, [], ◌∷◌, ◌++◌,
  append-nil, arith, leb, le→leb, Bool-cases, Option-cases, le_int_trans, ℤ, pos, negsuc,
}
use backplaned_agents.Principals.{
  at_end, span_digits, tier_match, is_valid_level, tier_index, level_satisfies_tier,
  user_level_satisfies,
}
use backplaned_agents.Principals.Spelling.{
  Level, spell, satisfies, tier_match-tier, tier_index-tier, tier_index-spell_tier,
  level_satisfies_tier-spell, index_table, admin, service, tier,
}

-- On well-formed levels the test is the documented table.
pub user_level_satisfies-spell :
    (a r : Level) → user_level_satisfies (some (spell a)) (spell r) ≡ satisfies a r
unfolding user_level_satisfies spell
user_level_satisfies-spell admin admin = refl
user_level_satisfies-spell service admin = refl
user_level_satisfies-spell (tier m) admin = refl
user_level_satisfies-spell admin service = refl
user_level_satisfies-spell service service = refl
user_level_satisfies-spell (tier m) service = refl
user_level_satisfies-spell a (tier n) =
    rw (tier_index-spell_tier n) (level_satisfies_tier-spell a (pos n) ∙ index_table a n)

rule_tier :
    (actual : Option Text) (n : ℕ)
    → user_level_satisfies actual (spell (tier n)) ≡ level_satisfies_tier actual (pos n)
unfolding user_level_satisfies spell
rule_tier actual n = rw (tier_index-spell_tier n)

-- `admin` and `service`, the levels that a rule names exactly
abbrev is_named : Text → Bool
is_named level = level == codes "admin" || level == codes "service"

tier_index-named :
    (level : Text) → is_named level ≡ true → tier_index (some level) ≡ some (negsuc 0)
unfolding tier_index
tier_index-named level e = rw e

outsider_not_named :
    (actual : Option Text) (rule : Text)
    → tier_index actual ≡ none
    → is_named rule ≡ true
    → (actual == some rule) ≡ false
outsider_not_named actual rule h e = elim (Bool-cases (actual == some rule)) [
  | inl same ↦ cc (h, tier_index-named rule e, (option_text_iff actual (some rule)).0 same)
  | inr other ↦ other
]

outsider_no_tier :
    (actual : Option Text) (k : ℤ)
    → tier_index actual ≡ none
    → level_satisfies_tier actual k ≡ false
unfolding level_satisfies_tier
outsider_no_tier actual k h = rw (h, level_satisfies_tier)

outsider_fails :
    (actual : Option Text) (rule : Text)
    → tier_index actual ≡ none
    → (rule == codes "*") ≡ false
    → user_level_satisfies actual rule ≡ false
unfolding user_level_satisfies
outsider_fails actual rule h s = elim (Bool-cases (is_named rule)) [
  | inl e ↦ rw s (rw e (outsider_not_named actual rule h e))
  | inr e ↦ elim (Option-cases (tier_index (some rule))) [
    | inl t ↦ rw s (rw e (rw t))
    | inr (k, t) ↦ rw s (rw e (rw t (outsider_no_tier actual k h)))
  ]
]

-- A level outside the grammar passes no rule but `*`.
pub outsider_needs_star :
    (actual : Option Text) (rule : Text)
    → tier_index actual ≡ none
    → user_level_satisfies actual rule ≡ true
    → rule ≡ codes "*"
outsider_needs_star actual rule h k = elim (Bool-cases (rule == codes "*")) [
  | inl e ↦ (text_iff rule (codes "*")).0 e
  | inr e ↦ cc (k, outsider_fails actual rule h e)
]

-- A caller that passes a rule for one tier passes the rule for every less privileged tier.
pub tier_rule_mono :
    (actual : Option Text) (m n : ℕ)
    → m ≤ n
    → user_level_satisfies actual (spell (tier m)) ≡ true
    → user_level_satisfies actual (spell (tier n)) ≡ true
unfolding level_satisfies_tier
tier_rule_mono actual m n h k = elim (Option-cases (tier_index actual)) [
  | inl e ↦ ground (arith, rule_tier actual m, rule_tier actual n)
  | inr (i, e) ↦
      ground (arith, rule_tier actual m, rule_tier actual n, le_int_trans i (pos m) (pos n))
]

level_satisfies_tier-newline :
    (m n : ℕ) → level_satisfies_tier (some (spell (tier m) ++ 10 ∷ [])) (pos n) ≡ leb m n
unfolding level_satisfies_tier spell at_end span_digits
level_satisfies_tier-newline m n =
    let e : tier_index (some (codes "tier" ++ (decimal m ++ 10 ∷ []))) ≡ some (pos m) =
      tier_index-tier m (10 ∷ []) refl refl in
    rw (e, level_satisfies_tier)

is_valid_level-newline : (m : ℕ) → is_valid_level (spell (tier m) ++ 10 ∷ []) ≡ true
unfolding is_valid_level spell at_end span_digits
is_valid_level-newline m =
    let e : tier_match (codes "tier" ++ (decimal m ++ 10 ∷ [])) ≡ some (decimal m) =
      tier_match-tier m (10 ∷ []) refl refl in
    rw e

-- A tier with a newline behind it is a valid level and passes the rules that the tier passes,
-- since `$` also matches in front of a last newline.
pub newline_tier_satisfies :
    (m n : ℕ)
    → (is_valid_level (spell (tier m) ++ 10 ∷ []) ≡ true)
      × (user_level_satisfies (some (spell (tier m) ++ 10 ∷ [])) (spell (tier n)) ≡ leb m n)
newline_tier_satisfies m n =
    (is_valid_level-newline m, rule_tier _ n ∙ level_satisfies_tier-newline m n)

-- The three ways in which a rule that is not `*` is read.
module _ (actual : Option Text) (rule : Text) (s : (rule == codes "*") ≡ false) where
  named_rule : is_named rule ≡ true → user_level_satisfies actual rule ≡ (actual == some rule)
  unfolding user_level_satisfies
  named_rule e = rw s (rw e)

  ranked_rule :
      (k : ℤ)
      → is_named rule ≡ false
      → tier_index (some rule) ≡ some k
      → user_level_satisfies actual rule ≡ level_satisfies_tier actual k
  unfolding user_level_satisfies
  ranked_rule k e t = rw s (rw e (rw t))

  malformed_rule :
      is_named rule ≡ false
      → tier_index (some rule) ≡ none
      → user_level_satisfies actual rule ≡ false
  unfolding user_level_satisfies
  malformed_rule e t = rw s (rw e (rw t))

is_named-tier : (n : ℕ) → is_named (spell (tier n)) ≡ false
unfolding spell
is_named-tier n = refl

tier_is_no_name :
    (n : ℕ) (rule : Text) → is_named rule ≡ true → (some (spell (tier n)) == some rule) ≡ false
tier_is_no_name n rule e = elim (Bool-cases (some (spell (tier n)) == some rule)) [
  | inl same ↦ cc (e, is_named-tier n, ap is_named ((text_iff (spell (tier n)) rule).0 same))
  | inr other ↦ other
]

star_rule :
    (actual : Option Text) (rule : Text)
    → (rule == codes "*") ≡ true
    → user_level_satisfies actual rule ≡ true
unfolding user_level_satisfies
star_rule actual rule e = rw e

-- A rule that a tier passes is passed by every more privileged tier.
pub tier_passes_more :
    (m n : ℕ) (rule : Text)
    → m ≤ n
    → user_level_satisfies (some (spell (tier n))) rule ≡ true
    → user_level_satisfies (some (spell (tier m))) rule ≡ true
tier_passes_more m n rule le h = elim (Bool-cases (rule == codes "*")) [
  | inl e ↦ star_rule (some (spell (tier m))) rule e
  | inr s ↦ elim (Bool-cases (is_named rule)) [
    | inl e ↦ cc (h, named_rule (some (spell (tier n))) rule s e, tier_is_no_name n rule e)
    | inr e ↦ elim (Option-cases (tier_index (some rule))) [
      | inl t ↦ cc (h, malformed_rule (some (spell (tier n))) rule s e t)
      | inr (k, t) ↦
          ranked_rule (some (spell (tier m))) rule s k e t
          ∙ (level_satisfies_tier-spell (tier m) k
              ∙ le_int_trans (pos m) (pos n) k (le→leb m n le) (
                  sym (level_satisfies_tier-spell (tier n) k)
                  ∙ (sym (ranked_rule (some (spell (tier n))) rule s k e t) ∙ h)))
    ]
  ]
]

pub spell-is_valid : (a : Level) → is_valid_level (spell a) ≡ true
unfolding is_valid_level spell at_end span_digits
spell-is_valid admin = refl
spell-is_valid service = refl
spell-is_valid (tier n) =
    let e : tier_match (codes "tier" ++ decimal n) ≡ some (decimal n) =
      rw append-nil at (tier_match-tier n [] refl refl) in
    rw e
