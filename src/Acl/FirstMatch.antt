-- ===== src/Acl/FirstMatch.antt =====
-- The evaluator against the reading of a firewall: the first rule that applies decides.
use backplaned_agents.Prelude.{
  ◌==◌, nat_eq, list_eq, option_eq, Text, text_iff, ◌≡◌, refl, ap, ◌≢◌, ◌↔◌, inl, inr, true, false,
  Option, none, some, List, [], ◌∷◌, ◌++◌, arith, Option-cases, All,
}
use backplaned_agents.Principals.{user_level_satisfies}
use backplaned_agents.Acl.Rules.{allow, Rule, AgentView, matches}
use backplaned_agents.Acl.Eval.{
  Skip, TraceStep, skip_reason, walk, is_allowed, decide, verdict_of, append_step, skipped, hit,
}

-- the three conditions of a rule
pub record Applies (caller callee : AgentView) (level : Option Text) (rule : Rule) : Type 0 where
  pub by_level : user_level_satisfies level rule.user_level ≡ true
  pub by_caller : matches rule.caller_pattern caller ≡ true
  pub by_callee : matches rule.callee_pattern callee ≡ true

module _ (caller callee : AgentView) (level : Option Text) where
  -- `rule` is the first of the list that applies
  pub record IsFirst (rules : List Rule) (rule : Rule) : Type 0 where
    pub before : List Rule
    pub after : List Rule
    pub split : rules ≡ before ++ rule ∷ after
    pub passed : All (λ r. ¬ Applies caller callee level r) before
    pub applies : Applies caller callee level rule

  Applies-skip :
      (rule : Rule) → skip_reason caller callee level rule ≡ none → Applies caller callee level rule
  unfolding skip_reason
  Applies-skip rule h = ground arith

  skip-Applies :
      (rule : Rule) → Applies caller callee level rule → skip_reason caller callee level rule ≡ none
  unfolding skip_reason
  skip-Applies rule h = ground arith

  not-Applies-skip :
      (rule : Rule) {s : Skip}
      → skip_reason caller callee level rule ≡ some s
      → ¬ Applies caller callee level rule
  not-Applies-skip rule h a = cc (skip-Applies rule a)

  module _ (rule : Rule) (rules : List Rule) (trace : Option (List TraceStep)) where
    walk-hit :
        skip_reason caller callee level rule ≡ none
        → walk caller callee level (rule ∷ rules) trace
          ≡ (verdict_of rule.effect rule, append_step trace (hit rule))
    unfolding walk
    walk-hit e = rw (e, walk)

    walk_skip :
        {s : Skip}
        → skip_reason caller callee level rule ≡ some s
        → walk caller callee level (rule ∷ rules) trace
          ≡ walk caller callee level rules (append_step trace (skipped rule s))
    unfolding walk
    walk_skip e = rw (e, walk)

  walk-first :
      (before after : List Rule) (rule : Rule) (trace : Option (List TraceStep))
      → All (λ r. ¬ Applies caller callee level r) before
      → Applies caller callee level rule
      → (walk caller callee level (before ++ rule ∷ after) trace).0 ≡ verdict_of rule.effect rule
  walk-first [] after rule trace h a = rw (walk-hit rule after trace (skip-Applies rule a))
  walk-first (r ∷ before) after rule trace h a =
      elim (Option-cases (skip_reason caller callee level r)) [
        | inl e ↦ absurd (h.0 (Applies-skip r e))
        | inr (s, e) ↦
            rw (walk_skip r (before ++ rule ∷ after) trace e)
              (walk-first before after rule (append_step trace (skipped r s)) h.1 a)
      ]

  allow_verdict : (rule : Rule) → (verdict_of rule.effect rule).allow ≡ true → rule.effect ≡ allow
  allow_verdict rule h = ground arith

  walk_default :
      (trace : Option (List TraceStep)) → (walk caller callee level [] trace).0.allow ≡ false
  unfolding walk
  walk_default trace = refl

  -- the other way: a verdict of `allow` comes from a first rule
  IsFirst-of-walk :
      (rules : List Rule) (trace : Option (List TraceStep))
      → (walk caller callee level rules trace).0.allow ≡ true
      → (rule : Rule) × IsFirst rules rule × (rule.effect ≡ allow)
  IsFirst-of-walk [] trace h = cc (walk_default trace)
  IsFirst-of-walk (r ∷ rules) trace h = elim (Option-cases (skip_reason caller callee level r)) [
    | inl e ↦ (
      r,
      record { before = []; after = rules; split = refl; passed = tt; applies = Applies-skip r e },
      allow_verdict r (rw (walk-hit r rules trace e) at h),
    )
    | inr (s, e) ↦
        let (rule, first, eff) =
          IsFirst-of-walk rules (append_step trace (skipped r s))
            (rw (walk_skip r rules trace e) at h) in
        (
          rule,
          record {
            before = r ∷ first.before;
            after = first.after;
            split = ap (◌∷◌ r) first.split;
            passed = (not-Applies-skip r e, first.passed);
            applies = first.applies;
          },
          eff,
        )
  ]

  not_self : caller.agent_id ≢ callee.agent_id → (caller.agent_id == callee.agent_id) ≡ false
  not_self h = ground (arith, text_iff caller.agent_id callee.agent_id)

  decide_other :
      (rules : List Rule)
      → caller.agent_id ≢ callee.agent_id
      → decide rules caller callee level ≡ (walk caller callee level rules none).0
  unfolding decide
  decide_other rules h = rw (not_self h, decide, is_allowed)

  decide_self :
      (rules : List Rule)
      → caller.agent_id ≡ callee.agent_id
      → (decide rules caller callee level).allow ≡ false
  unfolding decide
  decide_self rules h = rw ((text_iff caller.agent_id callee.agent_id).1 h, decide, is_allowed)

  -- A call is allowed exactly when it is no self-call and the first rule that applies allows it.
  pub decide-allow_iff :
      (rules : List Rule)
      → ((decide rules caller callee level).allow ≡ true) ↔ (
          (caller.agent_id ≢ callee.agent_id)
          × (rule : Rule) × IsFirst rules rule
          × (rule.effect ≡ allow))
  decide-allow_iff rules = (
    λ h.
        let other : caller.agent_id ≢ callee.agent_id = λ same. cc (h, decide_self rules same) in
        let (rule, first, eff) = IsFirst-of-walk rules none (rw (decide_other rules other) at h) in
        (other, rule, first, eff),
    λ (other, rule, first, eff). rw (decide_other rules other) (
        rw (first.split)
          (rw (walk-first first.before first.after rule none first.passed first.applies) (rw eff))),
  )
