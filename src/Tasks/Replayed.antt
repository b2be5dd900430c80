-- ===== src/Tasks/Replayed.antt =====
-- A retried NewTask gets the Result that the first one got.
use backplaned_agents.Prelude.{
  nat_eq, list_eq, option_eq, Text, ==_self, ◌≡◌, refl, false, Option, none, some, arith,
}
use backplaned_agents.State.{TaskRow, Body, find_task, set_state, coalesce, same_state}
use backplaned_agents.State.Transitions.{tasks_after, find-update}
use backplaned_agents.Tasks.App.{
  TaskStatus, status_from_state, state_from_status, ResultFrame, App, notify_task_terminal, send,
}
use backplaned_agents.Tasks.Complete.{result_details, forwarded_frame, complete_task}
use backplaned_agents.Tasks.Results.{IsDue, due_forwarded}
use backplaned_agents.Tasks.Replay.{idempotent_admit_result}

status_back : (s : TaskStatus) → status_from_state (state_from_status s) ≡ some s
status_back s = ground arith

coalesce-none {ℓ} : {A : Type ℓ} (o old : Option A) → old ≡ none → coalesce o old ≡ o
coalesce-none none old e = e
coalesce-none (some a) old e = refl

-- the row behind a forwarded Result
abbrev pub ended_row : ResultFrame → Text → TaskRow → TaskRow
ended_row frame reporter row =
    set_state (state_from_status frame.status) (result_details frame reporter) row

module _ (rehydrate : Body → Option Body) (app : App) (frame : ResultFrame) (reporter : Text) where
  -- A Result that ends a task is what a retry with the task's idempotency key is answered: from the
  -- stored row it gets the status, the status code and the error of the Result, and its output as
  -- it is read back, if the row held neither output nor error before.
  pub replay_reproduces :
      (due : IsDue app frame reporter)
      → same_state due.row.state (state_from_status frame.status) ≡ false
      → due.row.output ≡ none
      → due.row.error ≡ none
      → let row = ended_row frame reporter due.row in
        (find_task frame.task_id (complete_task app frame reporter).0.db.tasks ≡ some row)
        × ((idempotent_admit_result rehydrate row).replay_result
            ≡ some (record (forwarded_frame due.row frame due.row.agent_id) {
              task_id = due.row.task_id;
              output = elim frame.output [ none ↦ none | some o ↦ rehydrate o ];
            }))
  unfolding idempotent_admit_result send notify_task_terminal
  replay_reproduces due moved output error =
      let d = result_details frame reporter in
      let s = state_from_status frame.status in
      (
        rw
            (
              due_forwarded app frame reporter due,
              tasks_after app.db frame.task_id s d due.row due.found due.may,
              moved,
            )
            (rw
              (
                find-update frame.task_id frame.task_id (set_state s d) app.db.tasks (λ r. refl),
                ==_self frame.task_id,
                due.found,
              )
              refl),
        rw
            (
              status_back frame.status,
              idempotent_admit_result,
              coalesce-none frame.output due.row.output output,
              coalesce-none frame.error due.row.error error,
            )
            refl,
      )
