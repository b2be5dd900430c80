-- ===== src/Acl/Rules.antt =====
-- Rules, decisions and the matching of patterns in bp_router/acl.py.
use backplaned_agents.Prelude.{
  ◌==◌, nat_eq, list_eq, option_eq, Text, codes, starts_with, strip_prefix, partition, ℕ, Bool,
  true, false, ◌&&◌, ◌||◌, Option, none, some, List, [], ◌∷◌, ◌++◌, if◌then◌else◌, any, contains,
}
use backplaned_agents.Acl.Grammar.{
  drop_last, ends_in_glob, is_valid_pattern, is_valid_rule_user_level,
}

pub data RuleEffect : Type 0 where
  allow deny : RuleEffect

pub record Rule : Type 0 where
  pub rule_id : Option Text
  pub ord : ℕ
  pub name : Option Text
  pub description : Option Text
  pub effect : RuleEffect
  pub user_level : Text
  pub caller_pattern : Text
  pub callee_pattern : Text

-- what the validators of `Rule` let through
unfoldable pub is_valid_rule : Rule → Bool
unfolding is_valid_rule_user_level is_valid_pattern
is_valid_rule rule =
    is_valid_rule_user_level rule.user_level
    && is_valid_pattern rule.caller_pattern
    && is_valid_pattern rule.callee_pattern

pub record Decision : Type 0 where
  pub allow : Bool
  pub rule_name : Option Text

-- `a or b` on an optional text: `None` and the empty text are false
abbrev pub or_else : Option Text → Text → Text
or_else none d = d
or_else (some []) d = d
or_else (some (c ∷ s)) d = c ∷ s

-- `rule.name or rule.rule_id or "<unnamed>"`
abbrev pub rule_label : Rule → Text
rule_label rule = or_else rule.name (or_else rule.rule_id (codes "<unnamed>"))

-- `Decision.deny`, `Decision.allow_via`, `Decision.deny_via`
abbrev pub deny_for : Text → Decision
deny_for reason = record { allow = false; rule_name = some (codes "<" ++ (reason ++ codes ">")) }

abbrev pub allow_via : Rule → Decision
allow_via rule = record { allow = true; rule_name = some (rule_label rule) }

abbrev pub deny_via : Rule → Decision
deny_via rule = record { allow = false; rule_name = some (rule_label rule) }

pub record AgentView : Type 0 where
  pub agent_id : Text
  pub groups : List Text
  pub capabilities : List Text

-- the capability half of a slash pattern
unfoldable pub cap_ok : Text → List Text → Bool
unfolding ends_in_glob starts_with
cap_ok cap_part capabilities =
    if cap_part == codes "*"
    then true
    else if ends_in_glob cap_part
    then any (starts_with (drop_last 1 cap_part)) capabilities
    else contains capabilities cap_part

unfoldable pub group_ok : Text → List Text → Bool
group_ok group_part groups = group_part == codes "*" || contains groups group_part

-- `_matches`
unfoldable pub matches : Text → AgentView → Bool
unfolding strip_prefix partition cap_ok group_ok
matches pattern view = elim (strip_prefix (codes "@") pattern) [
  | some agent_id ↦ agent_id == view.agent_id
  | none ↦
      let (group_part, cap_part) = partition b'/' pattern in
      group_ok group_part view.groups && cap_ok cap_part view.capabilities
]
