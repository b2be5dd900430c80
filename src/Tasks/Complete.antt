-- ===== src/Tasks/Complete.antt =====
-- bp_router/tasks.py `complete_task`: a Result frame comes in from an agent.
use backplaned_agents.Prelude.{
  ◌==◌, nat_eq, list_eq, option_eq, Text, codes, Bool, not, none, some, [], ◌++◌, if◌then◌else◌,
}
use backplaned_agents.State.{
  TaskRow, Details, Outcome, done, raised, TransitionResult, illegal_transition, task_not_found,
  find_task, task_transition,
}
use backplaned_agents.Tasks.App.{
  status_value, state_from_status, ResultFrame, result_frame, App, notify_task_terminal, send,
}

-- where the call ends, as its log lines tell
pub data Completion : Type 0 where
  unknown_task duplicate_dropped forwarded not_caught : Completion
  -- is the reporter the task's first agent?
  wrong_agent : Bool → Completion

abbrev pub result_details : ResultFrame → Text → Details
result_details frame reporting_agent_id = record {
  reason = codes "result_" ++ status_value frame.status;
  actor_agent_id = some reporting_agent_id;
  payload = [];
  status_code = some frame.status_code;
  output = frame.output;
  error = frame.error;
}

-- the frame for the caller
abbrev pub forwarded_frame : TaskRow → ResultFrame → Text → ResultFrame
forwarded_frame row frame reporting_agent_id = record frame {
  agent_id = reporting_agent_id;
  parent_task_id = row.parent_task_id;
}

-- behind the transition
unfoldable pub settle_result :
    App → TaskRow → ResultFrame → Text → Outcome TransitionResult → App × Completion
unfolding notify_task_terminal send
settle_result app row frame reporter (raised (illegal_transition t frm to)) =
    (app, duplicate_dropped)
settle_result app row frame reporter (raised (task_not_found t)) = (app, not_caught)
settle_result app row frame reporter (done r) = (
  send (notify_task_terminal app frame.task_id) row.caller_agent_id
      (result_frame (forwarded_frame row frame reporter)),
  forwarded,
)

unfoldable pub complete_task : App → ResultFrame → Text → App × Completion
unfolding find_task task_transition settle_result
complete_task app frame reporting_agent_id = elim (find_task frame.task_id app.db.tasks) [
  | none ↦ (app, unknown_task)
  | some row ↦
      if not (reporting_agent_id == row.active_agent_id)
      then (app, wrong_agent (reporting_agent_id == row.agent_id))
      else (let (db', outcome) =
            task_transition app.db frame.task_id (state_from_status frame.status)
              (result_details frame reporting_agent_id) in
          settle_result (record app { db = db' }) row frame reporting_agent_id outcome)
]
