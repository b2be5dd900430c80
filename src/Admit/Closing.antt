-- ===== src/Admit/Closing.antt =====
-- bp_router/tasks.py `admit_task` from the `await` on: the answer of the destination fails the task or
-- lets it run.
use backplaned_agents.Prelude.{
  nat_eq, list_eq, option_eq, Text, codes, none, some, [], ◌∷◌, if◌then◌else◌, take,
}
use backplaned_agents.State.{TaskRow, running, Details, task_transition}
use backplaned_agents.Delivery.{acked}
use backplaned_agents.Tasks.App.{App, NewTaskFrame, Ack}
use backplaned_agents.Tasks.Checks.{rejected, ack_timeout, agent_disconnected}
use backplaned_agents.Tasks.Delegate.{Answer, acks, times_out, lost}
use backplaned_agents.Tasks.Fail.{Failure, fail_task}
use backplaned_agents.Admit.Admission.{Progress, returns, refuses, admit_failure}

-- `(ack.reason or "rejected")[:240]`
unfoldable pub bounded_reason : Ack → Text
bounded_reason ack = elim ack.reason [
  | none ↦ codes "rejected"
  | some [] ↦ codes "rejected"
  | some (c ∷ reason) ↦ take 240 (c ∷ reason)
]

abbrev pub rejected_failure : Text → Text → Failure
rejected_failure user_id reason =
    admit_failure user_id 400 reason
      (some ((codes "code", codes "rejected") ∷ (codes "reason", reason) ∷ []))

abbrev pub timeout_failure : Text → Failure
timeout_failure user_id =
    admit_failure user_id 504 (codes "ack_timeout")
      (some ((codes "code", codes "ack_timeout") ∷ []))

abbrev pub accepted_details : Text → Details
accepted_details destination = record {
  reason = codes "agent_accepted";
  actor_agent_id = some destination;
  payload = [];
  status_code = none;
  output = none;
  error = none;
}

-- step 6, with both its errors tolerated
unfoldable pub start_running : App → TaskRow → Text → App
unfolding task_transition
start_running app row destination = record app {
  db = (task_transition app.db row.task_id running (accepted_details destination)).0;
}

-- what the answer leads to; `lost` is a `ConnectionError` that the call does not catch
unfoldable pub settle_answer : App → TaskRow → NewTaskFrame → Answer → App × Progress (Unit {0})
unfolding bounded_reason fail_task start_running
settle_answer app row frame (acks ack) =
    if ack.accepted
    then (
      start_running app row frame.destination_agent_id,
      returns (record { task_id = row.task_id; replay_result = none }),
    )
    else (
      fail_task app row.task_id (rejected_failure frame.user_id (bounded_reason ack)),
      refuses rejected,
    )
settle_answer app row frame times_out =
    (fail_task app row.task_id (timeout_failure frame.user_id), refuses ack_timeout)
settle_answer app row frame lost = (app, refuses agent_disconnected)

unfoldable pub close_admission :
    App → TaskRow → NewTaskFrame → Text → Answer → App × Progress (Unit {0})
unfolding acked settle_answer
close_admission app row frame cid answer =
    settle_answer (record app { hub = acked app.hub frame.destination_agent_id cid }) row frame
      answer
