-- ===== src/Principals.antt =====
-- bp_router/principals.py: the grammar of user levels, and the tests on them. A level is a Python
-- `str`; `re.match` with `$` accepts one newline behind the match, so the model does too.
pub mod Spelling
pub mod Levels
mod Examples
use backplaned_agents.Prelude.{
  Eq, ◌==◌, nat_eq, list_eq, option_eq, Text, codes, strip_prefix, is_digit, read_digits, ℕ, zero,
  suc, Bool, true, false, ◌||◌, Option, none, some, [], ◌∷◌, ◌++◌, arith, if◌then◌else◌, is_some,
  le_int, ℤ, pos, negsuc,
}

-- the end of a pattern, `$`
unfoldable pub at_end : Text → Bool
at_end [] = true
at_end (c ∷ []) = c == b'\n'
at_end (c ∷ d ∷ s) = false

abbrev push : ℕ → Text × Text → Text × Text
push c (a, b) = (c ∷ a, b)

-- `[0-9]*` and what follows
unfoldable pub span_digits : Text → Text × Text
span_digits [] = ([], [])
span_digits (c ∷ s) = if is_digit c then push c (span_digits s) else ([], c ∷ s)

-- `([0-9]+)$`: its group
unfoldable pub digits_to_end : Text → Option Text
unfolding at_end span_digits
digits_to_end s =
    let (ds, rest) = span_digits s in
    elim ds [ [] ↦ none | c ∷ r ↦ if at_end rest then some (c ∷ r) else none ]

-- `_TIER_PATTERN.match(s)`: group 1
unfoldable pub tier_match : Text → Option Text
unfolding digits_to_end strip_prefix
tier_match s = elim (strip_prefix (codes "tier") s) [ none ↦ none | some r ↦ digits_to_end r ]

-- `word$`
unfoldable pub is_word : Text → Text → Bool
unfolding at_end strip_prefix
is_word w s = elim (strip_prefix w s) [ none ↦ false | some r ↦ at_end r ]

unfoldable pub is_valid_level : Text → Bool
unfolding is_word tier_match
is_valid_level level =
    is_word (codes "admin") level || is_word (codes "service") level || is_some (tier_match level)

tier_of_match : Option Text → Option ℤ
unfolding read_digits
tier_of_match none = none
tier_of_match (some ds) = some (pos (read_digits 0 ds))

-- `if not level` leaves the empty text out, which the pattern refuses as well
tier_of_text : Text → Option ℤ
unfolding tier_of_match tier_match
tier_of_text [] = none
tier_of_text (c ∷ s) = tier_of_match (tier_match (c ∷ s))

unfoldable pub tier_index : Option Text → Option ℤ
unfolding tier_of_text
tier_index none = none
tier_index (some level) =
    if level == codes "admin" || level == codes "service"
    then some (negsuc 0)
    else tier_of_text level

unfoldable pub level_satisfies_tier : Option Text → ℤ → Bool
level_satisfies_tier level max_tier = elim (tier_index level) [
  | none ↦ false
  | some idx ↦ le_int idx max_tier
]

unfoldable pub user_level_satisfies : Option Text → Text → Bool
unfolding level_satisfies_tier
user_level_satisfies actual rule_level =
    if rule_level == codes "*"
    then true
    else if rule_level == codes "admin" || rule_level == codes "service"
    then actual == some rule_level
    else elim (tier_index (some rule_level)) [
      | none ↦ false
      | some idx ↦ level_satisfies_tier actual idx
    ]

unfoldable pub service_user_id_for_agent : Text → Text
service_user_id_for_agent agent_id = codes "usr_service_" ++ agent_id
