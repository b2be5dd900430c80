-- ===== src/State/Examples.antt =====
-- Runs of the state machine, and the theorems at a concrete database.
use backplaned_agents.Prelude.{
  nat_eq, list_eq, option_eq, codes, ◌≡◌, refl, none, some, List, [], ◌∷◌, arith,
}
use backplaned_agents.State.{
  TaskState, queued, running, succeeded, cancelled, TaskRow, Db, raised, illegal_transition,
  TransitionResult, Details, find_task, task_transition,
}
use backplaned_agents.State.Histories.{
  Attempt, attempt, endings, IsAccounted, IsLogged, attempt-IsLogged, replay, ended,
}

program : Unit {0}
unfolding task_transition attempt endings replay
program = tt

abbrev row : TaskRow
row = record {
  task_id = codes "t1";
  parent_task_id = none;
  root_task_id = codes "t1";
  user_id = codes "u";
  session_id = codes "s";
  agent_id = codes "a";
  caller_agent_id = codes "c";
  active_agent_id = codes "a";
  state = queued;
  idempotency_key = none;
  deadline = none;
  status_code = none;
  output = none;
  error = none;
}

abbrev db : Db
db = record { tasks = row ∷ []; events = [] }

abbrev details : Details
details = record {
  reason = codes "test";
  actor_agent_id = none;
  payload = [];
  status_code = some 200;
  output = none;
  error = none;
}

abbrev to : TaskState → Attempt
to s = record { task_id = codes "t1"; new_state = s; details = details }

abbrev attempts : List Attempt
attempts = to running ∷ to succeeded ∷ to cancelled ∷ to succeeded ∷ []

fast_result : endings (codes "t1") (attempt db (to succeeded ∷ to running ∷ [])).events ≡ 1
unfolding program
fast_result = refl

refusal :
    (task_transition (attempt db attempts) (codes "t1") cancelled details).1
    ≡ raised (illegal_transition (codes "t1") succeeded cancelled)
unfolding program
refusal = refl

abbrev first_result : TransitionResult
first_result = record {
  task_id = codes "t1";
  previous_state = queued;
  new_state = running;
  event_id = 0;
}

db-IsAccounted : IsAccounted db
unfolding program ended
db-IsAccounted = λ id. omega arith

db-IsLogged : IsLogged db
unfolding program find_task
db-IsLogged = record { told = λ id r h. ground arith }

attempt-IsLogged_example : IsLogged (attempt db attempts)
attempt-IsLogged_example = attempt-IsLogged db attempts db-IsLogged
