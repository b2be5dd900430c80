-- ===== src/Catalog.antt =====
-- bp_router/visibility.py: `available_destinations`, the catalog of agents that a connecting agent
-- gets. What `agent_info` and the last handshake add to an entry is one value of a parameter type.
mod Listed
mod Examples
use backplaned_agents.Prelude.{
  Eq, ◌==◌, nat_eq, list_eq, option_eq, Text, Dict, insert, zero, suc, Bool, not, Option, none,
  some, List, [], ◌∷◌, arith, if◌then◌else◌, ℤ,
}
use backplaned_agents.Acl.Rules.{Rule, AgentView}
use backplaned_agents.Acl.Eval.{compute_callable_user_levels, is_nonempty, deployment_levels}

pub record Candidate {ℓ} (I : Type ℓ) : Type ℓ where
  pub view : AgentView
  pub active : Bool
  pub info : I

pub record Listing {ℓ} (I : Type ℓ) : Type ℓ where
  pub view : AgentView
  pub info : I
  pub callable_user_levels : List Text

module _ {ℓ} {I : Type ℓ} (rules : List Rule) (caller : AgentView) (levels : List Text) where
  -- one round of the loop
  unfoldable pub list_one : Dict Text (Listing I) → Candidate I → Dict Text (Listing I)
  unfolding compute_callable_user_levels insert
  list_one result agent =
      if not agent.active
      then result
      else if agent.view.agent_id == caller.agent_id
      then result
      else (let callable = compute_callable_user_levels rules caller agent.view levels in
          if not (is_nonempty callable)
          then result
          else insert agent.view.agent_id
              (record { view = agent.view; info = agent.info; callable_user_levels = callable })
              result)

  unfoldable pub list_each : Dict Text (Listing I) → List (Candidate I) → Dict Text (Listing I)
  unfolding list_one
  list_each result [] = result
  list_each result (agent ∷ agents) = list_each (list_one result agent) agents

-- none is the `ValueError` of `deployment_levels`
unfoldable pub available_destinations {ℓ} :
    {I : Type ℓ} → AgentView → List (Candidate I) → List Rule → ℤ → Option (Dict Text (Listing I))
unfolding deployment_levels list_each
available_destinations caller candidates rules max_tier = elim (deployment_levels max_tier) [
  | none ↦ none
  | some levels ↦ some (list_each rules caller levels [] candidates)
]
