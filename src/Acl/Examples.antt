-- ===== src/Acl/Examples.antt =====
-- Runs of the evaluator, and the theorems at concrete rule lists.
use backplaned_agents.Prelude.{
  nat_eq, list_eq, option_eq, codes, starts_with, strip_prefix, decimal, String, ◌≡◌, refl, ◌≢◌,
  ◌↔◌, true, false, ◌&&◌, none, some, List, [], ◌∷◌, arith, any,
}
use backplaned_agents.Principals.{tier_index}
use backplaned_agents.Principals.Spelling.{tier, spell}
use backplaned_agents.Acl.Grammar.{is_valid_pattern}
use backplaned_agents.Acl.Rules.{RuleEffect, Rule, AgentView, matches, group_ok}
use backplaned_agents.Acl.Eval.{is_allowed, decide, is_visible, deployment_levels}
use backplaned_agents.Acl.FirstMatch.{IsFirst, decide-allow_iff}
use backplaned_agents.Acl.Globs.{matches-glob}
use backplaned_agents.Acl.Tiers.{allow_only_mono}

program : Unit {0}
unfolding decide is_allowed is_visible tier_index decimal is_valid_pattern spell deployment_levels
program = tt

abbrev assistant : AgentView
assistant = record {
  agent_id = codes "orchestrator";
  groups = codes "l0" ∷ [];
  capabilities = codes "agent.orchestration" ∷ [];
}

abbrev sandbox : AgentView
sandbox = record {
  agent_id = codes "sandbox";
  groups = codes "tools" ∷ [];
  capabilities = codes "shell.run" ∷ [];
}

abbrev rule : RuleEffect → String → String → String → Rule
rule effect level caller callee = record {
  rule_id = none;
  ord = 0;
  name = none;
  description = none;
  effect = effect;
  user_level = codes level;
  caller_pattern = codes caller;
  callee_pattern = codes callee;
}

abbrev rules : List Rule
rules =
    rule RuleEffect.deny "*" "*/*" "@research"
    ∷ rule RuleEffect.allow "tier1" "l0/*" "tools/shell.*"
    ∷ rule RuleEffect.deny "*" "*/*" "*/*"
    ∷ []

abbrev allows : List Rule
allows = rule RuleEffect.allow "tier1" "l0/*" "tools/shell.*" ∷ []

runs :
    ((decide rules assistant sandbox (some (codes "tier1"))).allow ≡ true)
    × ((decide rules assistant sandbox (some (codes "tier2"))).allow ≡ false)
    × ((decide rules sandbox assistant (some (codes "admin"))).allow ≡ false)
    × ((decide rules sandbox sandbox (some (codes "admin"))).rule_name ≡ some (codes "<self_call>"))
    × ((decide allows sandbox assistant none).rule_name ≡ some (codes "<default>"))
unfolding program
runs = (refl, refl, refl, refl, refl)

patterns :
    (is_valid_pattern (codes "*/llm.*") ≡ true)
    × (is_valid_pattern (codes "*/llm") ≡ false)
    × (is_valid_pattern (codes "*/x.*.y") ≡ false)
    × (is_valid_pattern (codes "a/b.c/d") ≡ false)
    × (is_valid_pattern (codes "@a-b") ≡ true)
unfolding program
patterns = (refl, refl, refl, refl, refl)

decide-allow_iff_example :
    ((decide rules assistant sandbox (some (codes "tier1"))).allow ≡ true) ↔ (
      (assistant.agent_id ≢ sandbox.agent_id)
      × (r : Rule) × IsFirst assistant sandbox (some (codes "tier1")) rules r
      × (r.effect ≡ RuleEffect.allow))
decide-allow_iff_example = decide-allow_iff assistant sandbox (some (codes "tier1")) rules

matches-glob_example : matches (codes "tools/shell.*") sandbox ≡ (
    group_ok (codes "tools") sandbox.groups
    && any (starts_with (codes "shell.")) sandbox.capabilities)
unfolding program strip_prefix
matches-glob_example = matches-glob (codes "tools") (codes "shell") sandbox refl refl

allow_only_mono_example : (decide allows assistant sandbox (some (spell (tier 0)))).allow ≡ true
unfolding program
allow_only_mono_example = allow_only_mono allows assistant sandbox 0 1 (refl, tt) (omega arith) refl
