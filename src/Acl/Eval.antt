-- ===== src/Acl/Eval.antt =====
-- The evaluation of the rule list in bp_router/acl.py.
use backplaned_agents.Prelude.{
  ◌==◌, nat_eq, list_eq, option_eq, Text, codes, decimal, ℕ, zero, suc, ◌+◌, Bool, true, false, not,
  Option, none, some, List, [], ◌∷◌, ◌++◌, if◌then◌else◌, ℤ, pos, negsuc,
}
use backplaned_agents.Principals.{user_level_satisfies}
use backplaned_agents.Acl.Rules.{
  RuleEffect, allow, deny, Rule, Decision, AgentView, matches, deny_for, allow_via, deny_via,
}

pub data Skip : Type 0 where
  by_user_level by_caller by_callee : Skip

pub record TraceStep : Type 0 where
  pub rule_id : Option Text
  pub rule_name : Option Text
  pub matched : Bool
  pub skipped_reason : Option Skip

-- `trace.append(step)`, if there is a trace
abbrev pub append_step : Option (List TraceStep) → TraceStep → Option (List TraceStep)
append_step none step = none
append_step (some steps) step = some (steps ++ step ∷ [])

abbrev pub skipped : Rule → Skip → TraceStep
skipped rule reason = record {
  rule_id = rule.rule_id;
  rule_name = rule.name;
  matched = false;
  skipped_reason = some reason;
}

abbrev pub hit : Rule → TraceStep
hit rule = record {
  rule_id = rule.rule_id;
  rule_name = rule.name;
  matched = true;
  skipped_reason = none;
}

abbrev pub verdict_of : RuleEffect → Rule → Decision
verdict_of allow rule = allow_via rule
verdict_of deny rule = deny_via rule

-- which of the three tests of the loop a rule fails first, if any
unfoldable pub skip_reason : AgentView → AgentView → Option Text → Rule → Option Skip
unfolding user_level_satisfies matches
skip_reason caller callee level rule =
    if not (user_level_satisfies level rule.user_level)
    then some by_user_level
    else if not (matches rule.caller_pattern caller)
    then some by_caller
    else if not (matches rule.callee_pattern callee)
    then some by_callee
    else none

-- the loop of `is_allowed`
unfoldable pub walk :
    AgentView
    → AgentView
    → Option Text
    → List Rule
    → Option (List TraceStep)
    → Decision × Option (List TraceStep)
unfolding skip_reason
walk caller callee level [] trace = (deny_for (codes "default"), trace)
walk caller callee level (rule ∷ rules) trace = elim (skip_reason caller callee level rule) [
  | some reason ↦ walk caller callee level rules (append_step trace (skipped rule reason))
  | none ↦ (verdict_of rule.effect rule, append_step trace (hit rule))
]

abbrev pub self_step : TraceStep
self_step = record {
  rule_id = none;
  rule_name = some (codes "<self_call>");
  matched = true;
  skipped_reason = none;
}

unfoldable pub is_allowed :
    List Rule
    → AgentView
    → AgentView
    → Option Text
    → Option (List TraceStep)
    → Decision × Option (List TraceStep)
unfolding walk
is_allowed rules caller callee level trace =
    if caller.agent_id == callee.agent_id
    then (deny_for (codes "self_call"), append_step trace self_step)
    else walk caller callee level rules trace

-- The decision alone, as `is_allowed_for` returns it. The counter it bumps is not modelled.
unfoldable pub decide : List Rule → AgentView → AgentView → Option Text → Decision
unfolding is_allowed
decide rules caller callee level = (is_allowed rules caller callee level none).0

-- the loop of `compute_callable_user_levels`
unfoldable pub compute_callable_user_levels :
    List Rule → AgentView → AgentView → List Text → List Text
unfolding decide
compute_callable_user_levels rules caller callee [] = []
compute_callable_user_levels rules caller callee (level ∷ levels) =
    let allowed = compute_callable_user_levels rules caller callee levels in
    if (decide rules caller callee (some level)).allow then level ∷ allowed else allowed

abbrev pub is_nonempty {ℓ} : {A : Type ℓ} → List A → Bool
is_nonempty [] = false
is_nonempty (x ∷ xs) = true

unfoldable pub is_visible : List Rule → AgentView → AgentView → List Text → Bool
unfolding compute_callable_user_levels
is_visible rules caller callee levels =
    is_nonempty (compute_callable_user_levels rules caller callee levels)

-- `tier0`, ..., `tier{n - 1}` behind the first `i`
unfoldable pub tier_names : ℕ → ℕ → List Text
unfolding decimal
tier_names i zero = []
tier_names i (suc n) = (codes "tier" ++ decimal i) ∷ tier_names (i + 1) n

-- `deployment_levels(max_tier)`; a negative `max_tier` is a `ValueError`
unfoldable pub deployment_levels : ℤ → Option (List Text)
unfolding tier_names
deployment_levels (negsuc n) = none
deployment_levels (pos max_tier) =
    some (codes "admin" ∷ codes "service" ∷ tier_names 0 (max_tier + 1))
