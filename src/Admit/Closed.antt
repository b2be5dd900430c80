-- ===== src/Admit/Closed.antt =====
-- What the answer of the destination makes of the new task.
use backplaned_agents.Prelude.{
  nat_eq, list_eq, option_eq, Text, ◌≡◌, refl, ◌≢◌, inl, inr, true, false, ◌||◌, none, some, arith,
  Bool-cases,
}
use backplaned_agents.State.{
  TaskRow, TaskState, running, find_task, is_terminal, is_allowed, same_state,
}
use backplaned_agents.State.Transitions.{done_result, done_row}
use backplaned_agents.Tasks.App.{App, Ack, NewTaskFrame}
use backplaned_agents.Tasks.Delegate.{Answer, acks, times_out, lost}
use backplaned_agents.Tasks.Handover.{accepted}
use backplaned_agents.Tasks.Cancelled.{HasEnded}
use backplaned_agents.Tasks.Failed.{fail_task_ends}
use backplaned_agents.Admit.Admission.{returns}
use backplaned_agents.Admit.Closing.{
  close_admission, settle_answer, start_running, accepted_details, rejected_failure,
  timeout_failure, bounded_reason,
}

may_run :
    (s : TaskState) → is_terminal s ≡ false → (same_state s running || is_allowed s running) ≡ true
unfolding is_allowed
may_run s h = ground arith

module _ (app : App) (row known : TaskRow) (frame : NewTaskFrame) (cid : Text) where
  -- Where the destination accepts a task that has not ended, the call returns its id and the task
  -- runs.
  pub accepted_runs :
      (ack : Ack)
      → find_task row.task_id app.db.tasks ≡ some known
      → ack.accepted ≡ true
      → is_terminal known.state ≡ false
      → let (app', answer) = close_admission app row frame cid (acks ack) in
        (answer ≡ returns (record { task_id = row.task_id; replay_result = none }))
        × ((now : TaskRow) × (find_task row.task_id app'.db.tasks ≡ some now)
            × (now.state ≡ running))
  unfolding close_admission settle_answer start_running
  accepted_runs ack found agreed unended =
      let d = accepted_details frame.destination_agent_id in
      let moved =
        done_result app.db row.task_id running d known found (may_run known.state unended) in
      rw agreed (refl, (done_row app.db row.task_id running d _ row.task_id moved).0)

  -- Where the destination refuses the task or does not answer in time, the task has ended, whatever
  -- its state was.
  pub refused_ends :
      (answer : Answer)
      → find_task row.task_id app.db.tasks ≡ some known
      → accepted answer ≡ false
      → answer ≢ lost
      → HasEnded row.task_id (close_admission app row frame cid answer).0.db
  unfolding close_admission settle_answer
  refused_ends (acks ack) found no_ack n = elim (Bool-cases ack.accepted) [
    | inl y ↦ absurd (ground (arith, rw y at no_ack))
    | inr m ↦ rw m (
        fail_task_ends _ row.task_id (rejected_failure frame.user_id (bounded_reason ack)) known
          found)
  ]
  refused_ends times_out found no_ack n =
      fail_task_ends _ row.task_id (timeout_failure frame.user_id) known found
  refused_ends lost found no_ack n = absurd (n refl)
