-- ===== src/Catalog/Listed.antt =====
-- What the entries of a catalog say.
use backplaned_agents.Prelude.{
  ◌==◌, nat_eq, list_eq, option_eq, Text, text_iff, Dict, lookup-insert, lookup, ◌≡◌, sym, ap, ◌∙◌,
  inl, inr, true, false, ◌&&◌, some, List, [], ◌∷◌, arith, Bool-cases, some_inj, contains, ℤ,
}
use mathlib.Core.Path.{subst}
use backplaned_agents.Acl.Rules.{Rule, AgentView}
use backplaned_agents.Acl.Walks.{callable_iff}
use backplaned_agents.Acl.Eval.{
  decide, compute_callable_user_levels, is_nonempty, deployment_levels,
}
use backplaned_agents.Catalog.{Candidate, Listing, list_one, list_each, available_destinations}

module _ {ℓ} {I : Type ℓ} (rules : List Rule) (caller : AgentView) (levels : List Text) where
  -- an entry under the id of an agent other than the caller, with the levels at which it may be
  -- called, of which there is one
  pub record IsRight (id : Text) (l : Listing I) : Type ℓ where
    pub own_id : l.view.agent_id ≡ id
    pub not_caller : (id == caller.agent_id) ≡ false
    pub by_rules :
        (level : Text)
        → contains l.callable_user_levels level
          ≡ (contains levels level && (decide rules caller l.view (some level)).allow)
    pub some_level : is_nonempty l.callable_user_levels ≡ true

  abbrev pub AllRight : Dict Text (Listing I) → Type ℓ
  AllRight result = (id : Text) (l : Listing I) → lookup id result ≡ some l → IsRight id l

  list_one-AllRight :
      (result : Dict Text (Listing I)) (agent : Candidate I)
      → AllRight result
      → AllRight (list_one rules caller levels result agent)
  unfolding list_one
  list_one-AllRight result agent right = elim (Bool-cases agent.active) [
    | inr a ↦ rw (a, list_one) right
    | inl a ↦ elim (Bool-cases (agent.view.agent_id == caller.agent_id)) [
      | inl c ↦ rw (a, c, list_one) right
      | inr c ↦
          elim (Bool-cases
            (is_nonempty (compute_callable_user_levels rules caller agent.view levels))) [
              | inr e ↦ rw (a, c, e, list_one) right
              | inl e ↦
                  rw (a, c, e, list_one)
                    (λ id l h.
                      let found = sym (lookup-insert agent.view.agent_id id _ result) ∙ h in
                      elim (Bool-cases (agent.view.agent_id == id)) [
                        | inl y ↦
                            subst (λ x. IsRight id x) (some_inj (rw y at found))
                              (record {
                                own_id = (text_iff agent.view.agent_id id).0 y;
                                not_caller =
                                    subst (λ t. (t == caller.agent_id) ≡ false)
                                      ((text_iff agent.view.agent_id id).0 y) c;
                                by_rules =
                                    λ level. callable_iff rules caller agent.view levels level;
                                some_level = e;
                              })
                        | inr n ↦ right id l (rw n at found)
                      ])
            ]
    ]
  ]

  empty_right : AllRight []
  unfolding lookup
  empty_right id l h = absurd (ground arith)

  list_each-AllRight :
      (agents : List (Candidate I)) (result : Dict Text (Listing I))
      → AllRight result
      → AllRight (list_each rules caller levels result agents)
  unfolding list_each
  list_each-AllRight [] result right = right
  list_each-AllRight (agent ∷ agents) result right =
      list_each-AllRight agents (list_one rules caller levels result agent)
        (list_one-AllRight result agent right)

-- Every entry of a catalog stands under its agent's id, is not the caller's own, and lists a level
-- exactly when it is one of the deployment and the rules allow the call at it; it lists at least one.
pub available_destinations-IsRight {ℓ} :
    {I : Type ℓ} (caller : AgentView) (candidates : List (Candidate I)) (rules : List Rule)
    (max_tier : ℤ) (levels : List Text) (catalog : Dict Text (Listing I)) (id : Text)
    (l : Listing I)
    → deployment_levels max_tier ≡ some levels
    → available_destinations caller candidates rules max_tier ≡ some catalog
    → lookup id catalog ≡ some l
    → IsRight rules caller levels id l
unfolding available_destinations
available_destinations-IsRight caller candidates rules max_tier levels catalog id l known listed
      found =
    let same = some_inj (rw (known, available_destinations) at listed) in
    list_each-AllRight rules caller levels candidates [] (empty_right rules caller levels) id l
      (ap (λ c. lookup id c) same ∙ found)
