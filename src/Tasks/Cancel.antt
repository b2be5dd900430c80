-- ===== src/Tasks/Cancel.antt =====
-- bp_router/tasks.py `cancel_task` and `fail_task`, with `list_descendants` and
-- `find_expired_tasks` of bp_router/db/queries.py. The rows that a query gives in no order come in
-- the order of the table, parents first.
use backplaned_agents.Prelude.{
  ◌==◌, nat_eq, list_eq, option_eq, Text, codes, ℕ, zero, suc, ◌+◌, Bool, true, false, ◌&&◌, Option,
  none, some, List, [], ◌∷◌, ◌++◌, map, if◌then◌else◌, select,
}
use backplaned_agents.State.{
  cancelled, TaskRow, Db, Details, Outcome, done, raised, TransitionResult, find_task,
  task_transition,
}
use backplaned_agents.Tasks.App.{
  status_cancelled, ResultFrame, result_frame, cancel_frame, App, notify_task_terminal,
  abort_llm_tasks, send,
}

abbrev pub max_task_tree_depth : ℕ
max_task_tree_depth = 64

-- the rows of a user whose parent is `task_id`
unfoldable pub children : List TaskRow → Text → Text → List TaskRow
children rows user_id task_id =
    select (λ r. r.parent_task_id == some task_id && r.user_id == user_id) rows

unfoldable pub children_of_each : List TaskRow → Text → List TaskRow → List TaskRow
unfolding children
children_of_each rows user_id [] = []
children_of_each rows user_id (p ∷ ps) =
    children rows user_id p.task_id ++ children_of_each rows user_id ps

-- `levels` rounds of the recursive query
unfoldable pub descend : List TaskRow → Text → ℕ → List TaskRow → List TaskRow
unfolding children_of_each
descend rows user_id zero level = level
descend rows user_id (suc levels) level =
    level ++ descend rows user_id levels (children_of_each rows user_id level)

unfoldable pub list_descendants : Db → Text → Text → List TaskRow
unfolding children descend
list_descendants db user_id task_id =
    descend db.tasks user_id max_task_tree_depth (children db.tasks user_id task_id)

-- an entry of `fanout_plan`
pub record Plan : Type 0 where
  pub tid : Text
  pub active_agent_id : Text
  pub caller_agent_id : Text
  pub parent_task_id : Option Text

-- the arguments of a transition to CANCELLED
abbrev pub cancel_details : Text → Text → Details
cancel_details reason initiator = record {
  reason = reason;
  actor_agent_id = some initiator;
  payload = [];
  status_code = none;
  output = none;
  error = none;
}

abbrev pub plan_of : Text → TaskRow → Plan
plan_of tid row = record {
  tid = tid;
  active_agent_id = row.active_agent_id;
  caller_agent_id = row.caller_agent_id;
  parent_task_id = row.parent_task_id;
}

-- behind the transition of one target: its plan, and is it counted?
unfoldable pub planned : App → Text → Outcome TransitionResult → App × List Plan × Bool
unfolding find_task notify_task_terminal
planned app tid (raised e) = (app, [], false)
planned app tid (done r) = (
  notify_task_terminal app tid,
  elim (find_task tid app.db.tasks) [ none ↦ [] | some row ↦ plan_of tid row ∷ [] ],
  true,
)

unfoldable pub cancel_one : App → Text → Text → Text → App × List Plan × Bool
unfolding task_transition planned
cancel_one app tid reason initiator =
    let (db', outcome) = task_transition app.db tid cancelled (cancel_details reason initiator) in
    planned (record app { db = db' }) tid outcome

-- the loop over the targets: the plans, and how many were cancelled
unfoldable pub cancel_each : App → List Text → Text → Text → App × List Plan × ℕ
unfolding cancel_one
cancel_each app [] reason initiator = (app, [], 0)
cancel_each app (tid ∷ tids) reason initiator =
    let (app', plans, won) = cancel_one app tid reason initiator in
    let (app'', more, count) = cancel_each app' tids reason initiator in
    (app'', plans ++ more, (if won then 1 else 0) + count)

-- the two frames of a plan
abbrev pub cancelled_result : Text → Plan → ResultFrame
cancelled_result reason plan = record {
  agent_id = codes "router";
  task_id = plan.tid;
  parent_task_id = plan.parent_task_id;
  status = status_cancelled;
  status_code = 499;
  output = none;
  error = some ((codes "code", codes "cancelled") ∷ (codes "message", reason) ∷ []);
}

unfoldable pub fan_out : App → Text → List Plan → App
unfolding send
fan_out app reason [] = app
fan_out app reason (plan ∷ plans) =
    let told = send app plan.caller_agent_id (result_frame (cancelled_result reason plan)) in
    fan_out (send told plan.active_agent_id (cancel_frame plan.tid reason)) reason plans

unfoldable pub cancel_task : App → Text → Text → Text → Text → App × ℕ
unfolding list_descendants cancel_each abort_llm_tasks fan_out
cancel_task app task_id user_id reason initiator =
    let targets = task_id ∷ map (λ d. d.task_id) (list_descendants app.db user_id task_id) in
    let (app', plans, count) = cancel_each app targets reason initiator in
    (fan_out (abort_llm_tasks app' (map (λ p. p.tid) plans)) reason plans, count)
