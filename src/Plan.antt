-- ===== src/Plan.antt =====
-- bp_agents/agents/deep_reasoning/plan.py: `run_plan`, the loop in which a model adds, changes,
-- removes and executes the steps of a plan. What the model answers, and what the agent that a step
-- is given to answers, are functions of the state. The prompts, the digest that a used-up budget
-- reports, the progress messages, the files and an argument that `int` refuses are left out.
mod Lists
mod Bounds
mod Insertions
mod Examples
use backplaned_agents.Prelude.{
  Eq, nat_eq, list_eq, option_eq, Text, codes, ℕ, zero, suc, ◌-◌, ◌⊎◌, inl, inr, Bool, ◌&&◌, Option,
  none, some, List, [], ◌∷◌, ◌++◌, arith, ltb, leb, if◌then◌else◌, length, get_elem?, take, select,
  ℤ, pos, negsuc,
}

-- the terminal tools of a decision, with their arguments; a missing text is an empty one, and a
-- missing number a zero
pub data Action : Type 0 where
  quit : Text → Action
  add_step : ℤ → Text → Action
  modify_step : ℤ → Text → Action
  remove_step : ℤ → Action
  execute_step : Action

-- the text of an answer, and the first terminal tool it calls
pub record Decision : Type 0 where
  pub text : Text
  pub call : Option Action

-- the answer when the plan is done: its text, and the contents of a step to add
pub record Final : Type 0 where
  pub text : Text
  pub add : Option Text

pub data StepStatus : Type 0 where
  step_ok step_failed : StepStatus

pub record StepResult : Type 0 where
  pub n : ℕ
  pub step : Text
  pub status : StepStatus
  pub summary : Text

pub record PlanState : Type 0 where
  pub steps : List Text
  pub results : List StepResult
  pub cursor : ℕ

-- what a step comes to: the text of a `PeerCallError`, or whether the child succeeded, and its text
pub record Oracle : Type 0 where
  pub decide : PlanState → Decision
  pub finish : PlanState → Final
  pub spawn : Text → List StepResult → Text ⊎ (Bool × Text)

pub record Settings : Type 0 where
  pub plan_max_steps : ℕ
  pub plan_max_iters : ℕ

-- `max(0, min(n, size))`
abbrev pub clamp : ℤ → ℕ → ℕ
clamp (pos n) size = if leb n size then n else size
clamp (negsuc n) size = 0

-- `n - 1` as an index of a list of this size
abbrev pub index_of : ℤ → ℕ → Option ℕ
index_of (pos zero) size = none
index_of (pos (suc i)) size = if ltb i size then some i else none
index_of (negsuc n) size = none

-- `steps.insert(i, s)`
unfoldable pub insert_at : ℕ → Text → List Text → List Text
insert_at zero s steps = s ∷ steps
insert_at (suc i) s [] = s ∷ []
insert_at (suc i) s (x ∷ steps) = x ∷ insert_at i s steps

-- `steps[i] = s or steps[i]`
unfoldable pub replace_at : ℕ → Text → List Text → List Text
replace_at i s [] = []
replace_at zero [] (x ∷ steps) = x ∷ steps
replace_at zero (c ∷ s) (x ∷ steps) = (c ∷ s) ∷ steps
replace_at (suc i) s (x ∷ steps) = x ∷ replace_at i s steps

-- `steps.pop(i)`
unfoldable pub remove_at : ℕ → List Text → List Text
remove_at i [] = []
remove_at zero (x ∷ steps) = steps
remove_at (suc i) (x ∷ steps) = x ∷ remove_at i steps

abbrev pub or_text : Text → Text → Text
or_text [] default = default
or_text (c ∷ s) default = c ∷ s

-- one round ends the loop with a report, goes on, or raises an `IndexError`
pub data Round : Type 0 where
  reports : Text → PlanState → Round
  goes_on : PlanState → Round
  raises : Round

-- `_execute_step`, without the files
unfoldable pub recorded : Oracle → Text → List StepResult → StepResult
recorded oracle step results = elim (oracle.spawn step results) [
  | inl exc ↦ record {
    n = suc (length results);
    step = step;
    status = step_failed;
    summary = codes "(step failed: " ++ (exc ++ codes ")");
  }
  | inr (ok, text) ↦ record {
    n = suc (length results);
    step = step;
    status = if ok then step_ok else step_failed;
    summary = text;
  }
]

-- the plan is exhausted
unfoldable pub conclude : Oracle → Settings → PlanState → Round
conclude oracle settings s = elim (oracle.finish s).add [
  | none ↦ reports (or_text (oracle.finish s).text (codes "(plan complete)")) s
  | some contents ↦
      if ltb (length s.steps) settings.plan_max_steps
      then goes_on (record s { steps = s.steps ++ contents ∷ [] })
      else reports (or_text (oracle.finish s).text (codes "(plan complete)")) s
]

unfoldable pub execute : Oracle → PlanState → Round
unfolding recorded
execute oracle s = if leb (length s.steps) 0 then goes_on s else elim (get_elem? s.steps s.cursor) [
  | none ↦ raises
  | some step ↦ goes_on (record s {
    results = s.results ++ recorded oracle step s.results ∷ [];
    cursor = suc s.cursor;
  })
]

abbrev pub removed : PlanState → ℕ → PlanState
removed s i = record s {
  steps = remove_at i s.steps;
  cursor = if ltb i s.cursor then s.cursor - 1 else s.cursor;
}

-- the chosen action
unfoldable pub apply : Oracle → Settings → PlanState → Text → Action → Round
unfolding insert_at replace_at execute
apply oracle settings s text (quit content) = reports (or_text content text) s
apply oracle settings s text (add_step after contents) = goes_on (
    if ltb (length s.steps) settings.plan_max_steps
    then record s { steps = insert_at (clamp after (length s.steps)) contents s.steps }
    else s)
apply oracle settings s text (modify_step target contents) =
    goes_on (elim (index_of target (length s.steps)) [
      | none ↦ s
      | some i ↦ record s { steps = replace_at i contents s.steps }
    ])
apply oracle settings s text (remove_step target) =
    goes_on (elim (index_of target (length s.steps)) [ none ↦ s | some i ↦ removed s i ])
apply oracle settings s text execute_step = execute oracle s

unfoldable pub plan_round : Oracle → Settings → PlanState → Round
unfolding conclude apply
plan_round oracle settings s =
    if ltb 0 (length s.steps) && leb (length s.steps) s.cursor
    then conclude oracle settings s
    else elim (oracle.decide s).call [
      | none ↦ reports (or_text (oracle.decide s).text (codes "(no result)")) s
      | some action ↦ apply oracle settings s (oracle.decide s).text action
    ]

-- the loop of `plan_max_iters` rounds; without a report the state is told
pub data Report : Type 0 where
  reported : Text → PlanState → Report
  budget_reached : PlanState → Report
  index_error : Report

unfoldable pub plan_rounds : Oracle → Settings → ℕ → PlanState → Report
unfolding plan_round
plan_rounds oracle settings zero s = budget_reached s
plan_rounds oracle settings (suc rounds) s = elim (plan_round oracle settings s) [
  | reports text s' ↦ reported text s'
  | goes_on s' ↦ plan_rounds oracle settings rounds s'
  | raises ↦ index_error
]

-- the first state: the steps that are not empty, up to the limit
unfoldable pub initial : Settings → List Text → PlanState
initial settings steps = record {
  steps = take settings.plan_max_steps (select (λ s. ltb 0 (length s)) steps);
  results = [];
  cursor = 0;
}

unfoldable pub run_plan : Oracle → Settings → List Text → Report
unfolding plan_rounds initial
run_plan oracle settings steps =
    plan_rounds oracle settings settings.plan_max_iters (initial settings steps)
