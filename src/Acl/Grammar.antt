-- ===== src/Acl/Grammar.antt =====
-- The identifier and pattern grammars of bp_router/acl.py.
use backplaned_agents.Prelude.{
  ◌==◌, nat_eq, list_eq, option_eq, Text, codes, strip_prefix, partition, is_digit, ℕ, zero, suc,
  ◌-◌, Bool, true, false, ◌&&◌, ◌||◌, none, some, [], ◌∷◌, leb, if◌then◌else◌, is_some, length,
  take, contains,
}
use backplaned_agents.Principals.{at_end, is_word, tier_match}

-- The identifier grammars. Each pattern reads one class of characters up to the end, so greedy
-- reading without backtracking finds a match whenever there is one.
abbrev pub is_lower : ℕ → Bool
is_lower c = leb b'a' c && leb c b'z'

abbrev pub is_upper : ℕ → Bool
is_upper c = leb b'A' c && leb c b'Z'

abbrev pub is_segment_char : ℕ → Bool
is_segment_char c = is_lower c || is_digit c || c == b'_'

abbrev pub is_agent_char : ℕ → Bool
is_agent_char c = is_lower c || is_upper c || is_digit c || c == b'_' || c == b'-'

abbrev pub is_group_char : ℕ → Bool
is_group_char c = is_segment_char c || c == b':' || c == b'.' || c == b'-'

-- `[class]{0,k}$`
unfoldable pub run_to_end : (ℕ → Bool) → ℕ → Text → Bool
unfolding at_end
run_to_end p k [] = true
run_to_end p zero (c ∷ s) = at_end (c ∷ s)
run_to_end p (suc k) (c ∷ s) = let rest = run_to_end p k s in if p c then rest else at_end (c ∷ s)

-- `AGENT_ID_PATTERN.match(s)`
unfoldable pub is_agent_id : Text → Bool
unfolding run_to_end
is_agent_id [] = false
is_agent_id (c ∷ s) = (is_lower c || is_upper c || c == b'_') && run_to_end is_agent_char 63 s

-- `GROUP_NAME_PATTERN.match(s)`
unfoldable pub is_group_name : Text → Bool
unfolding run_to_end
is_group_name [] = false
is_group_name (c ∷ s) = is_lower c && run_to_end is_group_char 63 s

-- What follows the first letter of a dotted name: `dotted` says that a dot was read, `full` that
-- the current segment has a character.
unfoldable pub segments : Bool → Bool → Text → Bool
unfolding at_end
segments dotted full [] = dotted && full
segments dotted full (c ∷ s) =
    let more = segments dotted true s in
    let next = segments true false s in
    if is_segment_char c
    then more
    else if c == b'.' && full
    then next
    else at_end (c ∷ s) && dotted && full

-- `CAPABILITY_PATTERN.match(s)`
unfoldable pub is_capability : Text → Bool
unfolding segments
is_capability [] = false
is_capability (c ∷ s) = is_lower c && segments false true s

-- `_CAPABILITY_PREFIX_PATTERN.match(s)`, where no dot is needed
unfoldable pub is_capability_prefix : Text → Bool
unfolding segments
is_capability_prefix [] = false
is_capability_prefix (c ∷ s) = is_lower c && segments true true s

-- `s.endswith(".*")`
unfoldable pub ends_in_glob : Text → Bool
ends_in_glob [] = false
ends_in_glob (c ∷ s) = (c ∷ s) == codes ".*" || ends_in_glob s

-- `s[:-n]`
abbrev pub drop_last : ℕ → Text → Text
drop_last n s = take (length s - n) s

unfoldable pub is_capability_prefix_glob : Text → Bool
unfolding ends_in_glob is_capability_prefix
is_capability_prefix_glob cap_part =
    if ends_in_glob cap_part then is_capability_prefix (drop_last 2 cap_part) else false

unfoldable pub is_valid_group : Text → Bool
unfolding is_group_name
is_valid_group group_part = group_part == codes "*" || is_group_name group_part

unfoldable pub is_valid_cap : Text → Bool
unfolding is_capability is_capability_prefix_glob
is_valid_cap cap_part =
    cap_part == codes "*" || is_capability cap_part || is_capability_prefix_glob cap_part

unfoldable pub is_valid_slash : Text → Bool
unfolding partition is_valid_group is_valid_cap
is_valid_slash pattern =
    if contains pattern b'/'
    then (let (group_part, cap_part) = partition b'/' pattern in
        if contains cap_part b'/'
        then false
        else is_valid_group group_part && is_valid_cap cap_part)
    else false

unfoldable pub is_valid_pattern : Text → Bool
unfolding strip_prefix is_agent_id is_valid_slash
is_valid_pattern pattern = elim (strip_prefix (codes "@") pattern) [
  | some agent_id ↦ is_agent_id agent_id
  | none ↦ is_valid_slash pattern
]

unfoldable pub is_valid_rule_user_level : Text → Bool
unfolding is_word tier_match
is_valid_rule_user_level s =
    is_word (codes "*") s
    || is_word (codes "admin") s
    || is_word (codes "service") s
    || is_some (tier_match s)
