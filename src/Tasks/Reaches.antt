-- ===== src/Tasks/Reaches.antt =====
-- Every operation that ends tasks writes the tables by `task_transition` alone.
use backplaned_agents.Prelude.{
  ◌==◌, nat_eq, list_eq, option_eq, Text, codes, ℕ, ◌≤◌, ◌≡◌, refl, sym, ap, ◌∙◌, inl, inr, true,
  not, ◌&&◌, some, List, [], ◌∷◌, ◌++◌, map, Option-cases, select,
}
use backplaned_agents.State.{
  TaskState, TaskRow, Db, Details, Outcome, done, raised, TransitionResult, find_task,
  task_transition, is_terminal,
}
use backplaned_agents.State.Histories.{
  Attempt, attempt, terminal_row_is_final, endings, IsAccounted, at_most_one_ending,
}
use backplaned_agents.Tasks.App.{
  ResultFrame, App, notify_task_terminal, abort_llm_tasks, send, state_from_status,
}
use backplaned_agents.Tasks.Complete.{complete_task, result_details}
use backplaned_agents.Tasks.Results.{due_or_dropped, due_forwarded}
use backplaned_agents.Tasks.Cancel.{list_descendants, cancel_each, cancel_task}
use backplaned_agents.Tasks.Cancelled.{
  attempts_of, cancel_each-db, fan_out-db, cancel_task-db, targets,
}
use backplaned_agents.Tasks.Fail.{
  Failure, failure_details, ending_state, cascade_reason, cancel_subtree, tell_parent,
  settle_failure, fail_task, fail_each, fail_inflight_for_agent, sweep_once, disconnected,
  deadline_exceeded, find_expired_tasks,
}

-- one database comes from another by a list of attempted transitions
abbrev pub Reaches : Db → Db → Type 0
Reaches db db' = (more : List Attempt) × (db' ≡ attempt db more)

attempt-append :
    (xs ys : List Attempt) (db : Db) → attempt db (xs ++ ys) ≡ attempt (attempt db xs) ys
unfolding attempt
attempt-append [] ys db = refl
attempt-append (x ∷ xs) ys db = attempt-append xs ys _

pub Reaches-refl : (db : Db) → Reaches db db
unfolding attempt
Reaches-refl db = ([], refl)

Reaches-trans : (a : Db) {b c : Db} → Reaches a b → Reaches b c → Reaches a c
Reaches-trans a (xs, e) (ys, e') =
    (xs ++ ys, e' ∙ ap (λ d. attempt d ys) e ∙ sym (attempt-append xs ys a))

pub Reaches-transition :
    (db : Db) (id : Text) (s : TaskState) (d : Details) → Reaches db (task_transition db id s d).0
unfolding attempt
Reaches-transition db id s d = (record { task_id = id; new_state = s; details = d } ∷ [], refl)

complete_task-Reaches :
    (app : App) (frame : ResultFrame) (reporter : Text)
    → Reaches app.db (complete_task app frame reporter).0.db
unfolding send notify_task_terminal
complete_task-Reaches app frame reporter = elim (due_or_dropped app frame reporter) [
  | inl due ↦ rw (due_forwarded app frame reporter due) (
      Reaches-transition app.db frame.task_id (state_from_status frame.status)
        (result_details frame reporter))
  | inr (same, _) ↦ rw same (Reaches-refl app.db)
]

cancel_task-Reaches :
    (app : App) (task_id user_id reason initiator : Text)
    → Reaches app.db (cancel_task app task_id user_id reason initiator).0.db
cancel_task-Reaches app task_id user_id reason initiator = (
  attempts_of (targets app task_id user_id) reason initiator,
  cancel_task-db app task_id user_id reason initiator,
)

cancel_subtree-Reaches :
    (app : App) (task_id user_id reason : Text)
    → Reaches app.db (cancel_subtree app task_id user_id reason).db
unfolding cancel_subtree abort_llm_tasks
cancel_subtree-Reaches app task_id user_id reason =
    let tids = map (λ d. d.task_id) (list_descendants app.db user_id task_id) in
    let (app', plans, count) = cancel_each app tids reason (codes "router") in
    (
      attempts_of tids reason (codes "router"),
      fan_out-db plans (abort_llm_tasks app' (map (λ p. p.tid) plans)) reason
          ∙ cancel_each-db tids app reason (codes "router"),
    )

tell_parent-db : (app : App) (row : TaskRow) (f : Failure) → (tell_parent app row f).db ≡ app.db
unfolding tell_parent send
tell_parent-db app row f = elim (Option-cases row.parent_task_id) [
  | inl e ↦ rw (e, tell_parent) refl
  | inr (p, e) ↦ elim (Option-cases (find_task p app.db.tasks)) [
    | inl n ↦ rw (e, tell_parent) (rw n refl)
    | inr (o, n) ↦ rw (e, tell_parent) (rw n refl)
  ]
]

pub settle_failure-Reaches :
    (app : App) (row : TaskRow) (user_id : Text) (f : Failure) (o : Outcome TransitionResult)
    → Reaches app.db (settle_failure app row user_id f o).db
unfolding settle_failure notify_task_terminal
settle_failure-Reaches app row user_id f (raised e) = Reaches-refl app.db
settle_failure-Reaches app row user_id f (done r) =
    let (more, e) =
      cancel_subtree-Reaches (notify_task_terminal app row.task_id) row.task_id user_id
        (cascade_reason f.ending) in
    (more, tell_parent-db _ row f ∙ e)

pub fail_task-Reaches :
    (app : App) (task_id : Text) (f : Failure) → Reaches app.db (fail_task app task_id f).db
unfolding fail_task
fail_task-Reaches app task_id f = elim (Option-cases (find_task task_id app.db.tasks)) [
  | inl e ↦ rw (e, fail_task) (Reaches-refl app.db)
  | inr (row, e) ↦
      rw (e, fail_task)
        (Reaches-trans app.db
          (Reaches-transition app.db task_id (ending_state f.ending) (failure_details f))
          (settle_failure-Reaches _ row _ f _))
]

pub fail_each-Reaches :
    (rows : List TaskRow) (app : App) (f : TaskRow → Failure)
    → Reaches app.db (fail_each app rows f).0.db
unfolding fail_each
fail_each-Reaches [] app f = Reaches-refl app.db
fail_each-Reaches (row ∷ rows) app f =
    Reaches-trans app.db (fail_task-Reaches app row.task_id (f row))
      (fail_each-Reaches rows (fail_task app row.task_id (f row)) f)

-- what ends tasks in the router
pub data Handler : Type 0 where
  completes : ResultFrame → Text → Handler
  cancels : Text → Text → Text → Text → Handler
  fails_task : Text → Failure → Handler
  disconnects : Text → Text → Handler
  sweeps : ℕ → Handler

unfoldable pub handle : App → Handler → App
handle app (completes frame reporter) = (complete_task app frame reporter).0
handle app (cancels task_id user_id reason initiator) =
    (cancel_task app task_id user_id reason initiator).0
handle app (fails_task task_id f) = fail_task app task_id f
handle app (disconnects agent_id reason) = (fail_inflight_for_agent app agent_id reason).0
handle app (sweeps now) = (sweep_once app now).0

unfoldable pub handle_all : App → List Handler → App
unfolding handle
handle_all app [] = app
handle_all app (h ∷ more) = handle_all (handle app h) more

pub handle-Reaches : (app : App) (h : Handler) → Reaches app.db (handle app h).db
unfolding handle fail_inflight_for_agent sweep_once
handle-Reaches app (completes frame reporter) = complete_task-Reaches app frame reporter
handle-Reaches app (cancels task_id user_id reason initiator) =
    cancel_task-Reaches app task_id user_id reason initiator
handle-Reaches app (fails_task task_id f) = fail_task-Reaches app task_id f
handle-Reaches app (disconnects agent_id reason) =
    fail_each-Reaches
      (select (λ r. r.agent_id == agent_id && not (is_terminal r.state)) app.db.tasks) app
      (λ r. disconnected agent_id reason)
handle-Reaches app (sweeps now) =
    fail_each-Reaches (find_expired_tasks app.db now 100) app deadline_exceeded

handle_all-Reaches : (more : List Handler) (app : App) → Reaches app.db (handle_all app more).db
unfolding handle_all
handle_all-Reaches [] app = Reaches-refl app.db
handle_all-Reaches (h ∷ more) app =
    Reaches-trans app.db (handle-Reaches app h) (handle_all-Reaches more (handle app h))

-- One ending per task: from a database whose log accounts for its terminal tasks, no sequence of
-- reported results, cancellations, failures, disconnects and deadline sweeps leaves more than one
-- transition of a task into a terminal state in the log.
pub one_ending_ever :
    (app : App) (more : List Handler) (id : Text)
    → IsAccounted app.db
    → endings id (handle_all app more).db.events ≤ 1
one_ending_ever app more id acc =
    let (attempts, e) = handle_all-Reaches more app in
    rw e (at_most_one_ending app.db attempts id acc)

-- A task that has ended keeps its whole row, status code, output and error included, under every
-- sequence of reported results, cancellations, failures, disconnects and deadline sweeps.
pub ended_row_kept :
    (app : App) (more : List Handler) (id : Text) (row : TaskRow)
    → find_task id app.db.tasks ≡ some row
    → is_terminal row.state ≡ true
    → find_task id (handle_all app more).db.tasks ≡ some row
ended_row_kept app more id row found ended_row =
    let (attempts, e) = handle_all-Reaches more app in
    rw e (terminal_row_is_final app.db attempts id row found ended_row)
