-- ===== src/Plan/Examples.antt =====
-- The theorems on the plan loop for a concrete model.
use backplaned_agents.Prelude.{
  nat_eq, list_eq, option_eq, Text, codes, inr, true, none, some, List, [], ◌∷◌,
}
use backplaned_agents.Plan.{execute_step, PlanState, Oracle, Settings, run_plan}
use backplaned_agents.Plan.Bounds.{IsFine, run_plan-IsFine}

-- a model that executes every step, and adds one in front of the first
abbrev eager : Oracle
eager = record {
  decide = λ s. record { text = []; call = some execute_step };
  finish = λ s. record { text = codes "done"; add = none };
  spawn = λ step results. inr (true, step);
}

abbrev settings : Settings
settings = record { plan_max_steps = 3; plan_max_iters = 4 }

abbrev two_steps : List Text
two_steps = codes "a" ∷ codes "b" ∷ []

run_plan-IsFine_example : IsFine settings 4 (run_plan eager settings two_steps)
run_plan-IsFine_example = run_plan-IsFine eager settings two_steps

abbrev after_one : PlanState
after_one = record { steps = two_steps; results = []; cursor = 1 }
