-- ===== src/Acl/Walks.antt =====
-- How the decision depends on the parts of the rule list, and what the trace of a run shows.
use backplaned_agents.Prelude.{
  ◌==◌, nat_eq, list_eq, option_eq, Text, text_iff, ◌+◌, ◌≤◌, ◌≡◌, refl, ap, inl, inr, Bool, true,
  false, not, ◌&&◌, ◌||◌, Option, none, some, List, [], ◌∷◌, ◌++◌, append-nil, append_assoc, arith,
  if◌then◌else◌, Bool-cases, Option-cases, length, any, contains, All,
}
use backplaned_agents.Principals.{user_level_satisfies}
use backplaned_agents.Acl.Rules.{allow, Rule, AgentView, matches}
use backplaned_agents.Acl.Eval.{
  Skip, TraceStep, skip_reason, walk, is_allowed, decide, verdict_of, append_step, skipped, hit,
  compute_callable_user_levels, is_visible, self_step,
}

module _ (caller callee : AgentView) (level : Option Text) where
  -- the three conditions of a rule, as one test
  abbrev pub fires : Rule → Bool
  fires rule =
      user_level_satisfies level rule.user_level
      && matches rule.caller_pattern caller
      && matches rule.callee_pattern callee

  fires-skip : (rule : Rule) → fires rule ≡ true → skip_reason caller callee level rule ≡ none
  unfolding skip_reason
  fires-skip rule h = ground arith

  skip-fires :
      (rule : Rule)
      → fires rule ≡ false
      → (s : Skip) × (skip_reason caller callee level rule ≡ some s)
  unfolding skip_reason
  skip-fires rule h = elim (Option-cases (skip_reason caller callee level rule)) [
    | inl e ↦ ground arith
    | inr found ↦ found
  ]

  module _ (rule : Rule) (rules : List Rule) (trace : Option (List TraceStep)) where
    walk-fires :
        fires rule ≡ true
        → walk caller callee level (rule ∷ rules) trace
          ≡ (verdict_of rule.effect rule, append_step trace (hit rule))
    unfolding walk
    walk-fires e = rw (fires-skip rule e, walk)

    walk_passes :
        fires rule ≡ false
        → (s : Skip) × (walk caller callee level (rule ∷ rules) trace
            ≡ walk caller callee level rules (append_step trace (skipped rule s)))
    unfolding walk
    walk_passes e = let (s, h) = skip-fires rule e in (s, rw (h, walk))

  -- The trace has no part in the decision.
  pub walk_untraced :
      (rules : List Rule) (t u : Option (List TraceStep))
      → (walk caller callee level rules t).0 ≡ (walk caller callee level rules u).0
  unfolding walk
  walk_untraced [] t u = refl
  walk_untraced (r ∷ rules) t u = elim (Option-cases (skip_reason caller callee level r)) [
    | inl e ↦ rw (e, walk)
    | inr (s, e) ↦
        rw (e, walk)
          (walk_untraced rules (append_step t (skipped r s)) (append_step u (skipped r s)))
  ]

  walk-append :
      (rs ss : List Rule) (t : Option (List TraceStep))
      → (walk caller callee level (rs ++ ss) t).0 ≡ (
          if any fires rs
          then (walk caller callee level rs t).0
          else (walk caller callee level ss t).0)
  walk-append [] ss t = refl
  walk-append (r ∷ rs) ss t = elim (Bool-cases (fires r)) [
    | inl e ↦ rw (walk-fires r (rs ++ ss) t e) (rw (walk-fires r rs t e) (rw e))
    | inr e ↦
        let (s, p) = walk_passes r (rs ++ ss) t e in
        let (s', p') = walk_passes r rs t e in
        rw p (
          rw p' (
            rw e (
              rw (walk_untraced ss t (append_step t (skipped r s))) (
                rw (walk_untraced rs (append_step t (skipped r s')) (append_step t (skipped r s)))
                  (walk-append rs ss (append_step t (skipped r s)))))))
  ]

  -- Rules behind a list that has a rule which applies change nothing, and a list without one has no
  -- say: the first block of rules with a rule that applies decides.
  pub decide-append :
      (rs ss : List Rule)
      → decide (rs ++ ss) caller callee level
        ≡ (if any fires rs then decide rs caller callee level else decide ss caller callee level)
  unfolding decide
  decide-append rs ss = ground (arith, walk-append rs ss none)

  -- With rules that all allow, a call is allowed exactly when one of them applies.
  walk-allow_only :
      (rules : List Rule) (t : Option (List TraceStep))
      → All (λ r. r.effect ≡ allow) rules
      → (walk caller callee level rules t).0.allow ≡ any fires rules
  unfolding walk
  walk-allow_only [] t h = refl
  walk-allow_only (r ∷ rules) t h = elim (Bool-cases (fires r)) [
    | inl e ↦ rw (walk-fires r rules t e) (rw (e) (rw (h.0)))
    | inr e ↦
        let (s, p) = walk_passes r rules t e in
        rw p (rw e (walk-allow_only rules (append_step t (skipped r s)) h.1))
  ]

  pub decide-allow_only :
      (rules : List Rule)
      → All (λ r. r.effect ≡ allow) rules
      → (decide rules caller callee level).allow
        ≡ (not (caller.agent_id == callee.agent_id) && any fires rules)
  unfolding decide
  decide-allow_only rules h = ground (arith, walk-allow_only rules none h)

  walk_trace :
      (rules : List Rule) (t : List TraceStep)
      → (steps : List TraceStep) × ((walk caller callee level rules (some t)).1 ≡ some (t ++ steps))
        × (any (λ s. s.matched) steps ≡ any fires rules)
        × (length steps ≤ length rules)
  unfolding walk
  walk_trace [] t = ([], rw append-nil, refl, omega arith)
  walk_trace (r ∷ rules) t = elim (Bool-cases (fires r)) [
    | inl e ↦ (hit r ∷ [], rw (walk-fires r rules (some t) e), rw e, omega arith)
    | inr e ↦
        let (s, p) = walk_passes r rules (some t) e in
        let (steps, same, seen, short) = walk_trace rules (t ++ skipped r s ∷ []) in
        (skipped r s ∷ steps, rw p (rw same (rw append_assoc)), rw e seen, omega arith)
  ]

  -- A simulation returns the decision of a plain run. Its trace shows a match exactly when the call
  -- is a self-call or some rule applies, and has at most one step for each rule, or one.
  pub simulate_agrees :
      (rules : List Rule)
      → ((is_allowed rules caller callee level (some [])).0 ≡ decide rules caller callee level)
        × (steps : List TraceStep) × ((is_allowed rules caller callee level (some [])).1
            ≡ some steps)
        × (any (λ s. s.matched) steps ≡ (caller.agent_id == callee.agent_id || any fires rules))
        × (length steps ≤ length rules + 1)
  unfolding decide
  simulate_agrees rules = elim (Bool-cases (caller.agent_id == callee.agent_id)) [
    | inl e ↦ (rw (e, decide, is_allowed), self_step ∷ [], rw (e, is_allowed), rw e, omega arith)
    | inr e ↦
        let (steps, same, seen, short) = walk_trace rules [] in
        (
          rw (e, decide, is_allowed) (walk_untraced rules (some []) none),
          steps,
          rw (e, is_allowed) same,
          rw e seen,
          omega arith,
        )
  ]

module _ (rules : List Rule) (caller callee : AgentView) where
  -- A level is in the callable levels exactly when it was asked for and the call is allowed at it.
  pub callable_iff :
      (levels : List Text) (level : Text)
      → contains (compute_callable_user_levels rules caller callee levels) level
        ≡ (contains levels level && (decide rules caller callee (some level)).allow)
  unfolding compute_callable_user_levels
  callable_iff [] level = refl
  callable_iff (l ∷ levels) level = elim (Bool-cases (l == level)) [
    | inl e ↦ ground (
      arith,
      callable_iff levels level,
      ap (λ v. (decide rules caller callee (some v)).allow) ((text_iff l level).0 e),
    )
    | inr e ↦ ground (arith, callable_iff levels level)
  ]

  -- Visibility is generous: some level of the deployment admits the call.
  pub is_visible-any :
      (levels : List Text)
      → is_visible rules caller callee levels
        ≡ any (λ level. (decide rules caller callee (some level)).allow) levels
  unfolding is_visible compute_callable_user_levels
  is_visible-any [] = refl
  is_visible-any (l ∷ levels) = ground (arith, is_visible-any levels)
