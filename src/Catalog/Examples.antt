-- ===== src/Catalog/Examples.antt =====
-- A catalog for an assistant with one agent that it may call.
use backplaned_agents.Prelude.{
  nat_eq, list_eq, option_eq, Text, codes, lookup, ℕ, String, refl, true, none, List, [], ◌∷◌, pos,
}
use backplaned_agents.Acl.Rules.{Rule, AgentView, allow}
use backplaned_agents.Acl.Eval.{deployment_levels}
use backplaned_agents.Catalog.{Candidate, Listing, available_destinations}
use backplaned_agents.Catalog.Listed.{IsRight, available_destinations-IsRight}

program : Unit {0}
unfolding available_destinations deployment_levels lookup
program = tt

abbrev agent : String → AgentView
agent id = record { agent_id = codes id; groups = codes "g" ∷ []; capabilities = codes "c.d" ∷ [] }

abbrev admins_only : Rule
admins_only = record {
  rule_id = none;
  ord = 0;
  name = none;
  description = none;
  effect = allow;
  user_level = codes "admin";
  caller_pattern = codes "*/*";
  callee_pattern = codes "@b";
}

abbrev candidates : List (Candidate ℕ)
candidates =
    record { view = agent "a"; active = true; info = 0 }
    ∷ record { view = agent "b"; active = true; info = 1 }
    ∷ record { view = agent "c"; active = true; info = 2 }
    ∷ []

abbrev levels : List Text
levels = codes "admin" ∷ codes "service" ∷ codes "tier0" ∷ []

abbrev listing : Listing ℕ
listing = record { view = agent "b"; info = 1; callable_user_levels = codes "admin" ∷ [] }

available_destinations-IsRight_example :
    IsRight (admins_only ∷ []) (agent "a") levels (codes "b") listing
unfolding program
available_destinations-IsRight_example =
    available_destinations-IsRight (agent "a") candidates (admins_only ∷ []) (pos 0) levels
      ((codes "b", listing) ∷ []) (codes "b") listing refl refl refl
