-- ===== src/Tasks/Fail.antt =====
-- bp_router/tasks.py `fail_task`, `fail_inflight_for_agent` and `_sweep_once`, with
-- `find_expired_tasks` and `force_fail_task` of bp_router/db/queries.py.
use backplaned_agents.Prelude.{
  ◌==◌, nat_eq, list_eq, option_eq, Text, codes, ℕ, suc, Bool, true, false, not, ◌&&◌, Option, none,
  some, List, [], ◌∷◌, map, ltb, leb, if◌then◌else◌, take, select,
}
use backplaned_agents.State.{
  TaskState, timed_out, failed, is_terminal, Body, TaskRow, Db, Details, Outcome, done, raised,
  TransitionResult, find_task, task_transition, update_task,
}
use backplaned_agents.Tasks.App.{
  TaskStatus, status_failed, status_timed_out, ResultFrame, result_frame, App, notify_task_terminal,
  abort_llm_tasks, send,
}
use backplaned_agents.Tasks.Cancel.{list_descendants, cancel_each, fan_out}

-- `terminal_state`, which must be FAILED or TIMED_OUT
pub data Ending : Type 0 where
  fails times_out : Ending

abbrev pub ending_state : Ending → TaskState
ending_state fails = failed
ending_state times_out = timed_out

abbrev pub ending_status : Ending → TaskStatus
ending_status fails = status_failed
ending_status times_out = status_timed_out

abbrev pub cascade_reason : Ending → Text
cascade_reason fails = codes "parent_failed"
cascade_reason times_out = codes "parent_timed_out"

-- `error or {"code": reason}`
abbrev pub error_or : Option Body → Text → Body
error_or none reason = (codes "code", reason) ∷ []
error_or (some []) reason = (codes "code", reason) ∷ []
error_or (some (entry ∷ more)) reason = entry ∷ more

-- the arguments of `fail_task` behind the task
pub record Failure : Type 0 where
  pub user_id : Option Text
  pub status_code : ℕ
  pub reason : Text
  pub error : Option Body
  pub actor_agent_id : Option Text
  pub ending : Ending

abbrev pub failure_details : Failure → Details
failure_details f = record {
  reason = f.reason;
  actor_agent_id = f.actor_agent_id;
  payload = [];
  status_code = some f.status_code;
  output = none;
  error = some (error_or f.error f.reason);
}

-- `_cancel_subtree`, and the frames for its plan
unfoldable pub cancel_subtree : App → Text → Text → Text → App
unfolding list_descendants cancel_each abort_llm_tasks fan_out
cancel_subtree app task_id user_id reason =
    let tids = map (λ d. d.task_id) (list_descendants app.db user_id task_id) in
    let (app', plans, count) = cancel_each app tids reason (codes "router") in
    fan_out (abort_llm_tasks app' (map (λ p. p.tid) plans)) reason plans

abbrev pub failure_result : Text → Text → Failure → ResultFrame
failure_result task_id parent_task_id f = record {
  agent_id = codes "router";
  task_id = task_id;
  parent_task_id = some parent_task_id;
  status = ending_status f.ending;
  status_code = f.status_code;
  output = none;
  error = some (error_or f.error f.reason);
}

-- the Result for the agent of the parent task, if there is one
unfoldable pub tell_parent : App → TaskRow → Failure → App
unfolding find_task send
tell_parent app row f = elim row.parent_task_id [
  | none ↦ app
  | some parent ↦ elim (find_task parent app.db.tasks) [
    | none ↦ app
    | some owner ↦ send app owner.agent_id (result_frame (failure_result row.task_id parent f))
  ]
]

unfoldable pub settle_failure : App → TaskRow → Text → Failure → Outcome TransitionResult → App
unfolding notify_task_terminal cancel_subtree tell_parent
settle_failure app row user_id f (raised e) = app
settle_failure app row user_id f (done r) =
    tell_parent
      (cancel_subtree (notify_task_terminal app row.task_id) row.task_id user_id
        (cascade_reason f.ending))
      row f

-- a missing row ends the call, whether it is the user or the parent that is looked up
unfoldable pub fail_task : App → Text → Failure → App
unfolding find_task task_transition settle_failure
fail_task app task_id f = elim (find_task task_id app.db.tasks) [
  | none ↦ app
  | some row ↦
      let (db', outcome) =
        task_transition app.db task_id (ending_state f.ending) (failure_details f) in
      settle_failure (record app { db = db' }) row
        (elim f.user_id [ none ↦ row.user_id | some u ↦ u ]) f outcome
]

-- the loop of `fail_inflight_for_agent` and of `_sweep_once`
unfoldable pub fail_each : App → List TaskRow → (TaskRow → Failure) → App × ℕ
unfolding fail_task
fail_each app [] f = (app, 0)
fail_each app (row ∷ rows) f =
    let (app', count) = fail_each (fail_task app row.task_id (f row)) rows f in (app', suc count)

abbrev pub disconnected : Text → Text → Failure
disconnected agent_id reason = record {
  user_id = none;
  status_code = 503;
  reason = reason;
  error = some ((codes "code", reason) ∷ (codes "agent_id", agent_id) ∷ []);
  actor_agent_id = some (codes "router");
  ending = fails;
}

unfoldable pub fail_inflight_for_agent : App → Text → Text → App × ℕ
unfolding fail_each
fail_inflight_for_agent app agent_id reason =
    fail_each app (select (λ r. r.agent_id == agent_id && not (is_terminal r.state)) app.db.tasks)
      (λ r. disconnected agent_id reason)

abbrev pub is_expired : ℕ → TaskRow → Bool
is_expired now row = elim row.deadline [
  | none ↦ false
  | some deadline ↦ ltb deadline now && not (is_terminal row.state)
]

abbrev pub deadline_of : TaskRow → ℕ
deadline_of row = elim row.deadline [ none ↦ 0 | some deadline ↦ deadline ]

-- `ORDER BY deadline ASC`
unfoldable pub insert_by_deadline : TaskRow → List TaskRow → List TaskRow
insert_by_deadline row [] = row ∷ []
insert_by_deadline row (r ∷ rows) =
    if leb (deadline_of row) (deadline_of r)
    then row ∷ r ∷ rows
    else r ∷ insert_by_deadline row rows

unfoldable pub sort_by_deadline : List TaskRow → List TaskRow
unfolding insert_by_deadline
sort_by_deadline [] = []
sort_by_deadline (row ∷ rows) = insert_by_deadline row (sort_by_deadline rows)

unfoldable pub find_expired_tasks : Db → ℕ → ℕ → List TaskRow
unfolding sort_by_deadline
find_expired_tasks db now limit = take limit (sort_by_deadline (select (is_expired now) db.tasks))

abbrev pub deadline_exceeded : TaskRow → Failure
deadline_exceeded row = record {
  user_id = some row.user_id;
  status_code = 504;
  reason = codes "deadline_exceeded";
  error = some ((codes "code", codes "deadline_exceeded") ∷ []);
  actor_agent_id = none;
  ending = times_out;
}

unfoldable pub sweep_once : App → ℕ → App × ℕ
unfolding find_expired_tasks fail_each
sweep_once app now = fail_each app (find_expired_tasks app.db now 100) deadline_exceeded

-- `force_fail_task`: the rows, and was one updated?
unfoldable pub force_fail_task : Db → Text → Text → ℕ → Option Body → Db × Bool
unfolding find_task update_task
force_fail_task db task_id user_id status_code error = elim (find_task task_id db.tasks) [
  | none ↦ (db, false)
  | some row ↦
      if row.user_id == user_id && not (is_terminal row.state)
      then (
        record db {
          tasks =
              update_task task_id
                (λ r. record r { state = failed; status_code = some status_code; error = error })
                db.tasks;
        },
        true,
      )
      else (db, false)
]
