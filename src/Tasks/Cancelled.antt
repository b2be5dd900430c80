-- ===== src/Tasks/Cancelled.antt =====
-- What `cancel_task` leaves behind.
use backplaned_agents.Prelude.{
  ◌==◌, nat_eq, list_eq, option_eq, Text, text_iff, ◌≤◌, ◌≡◌, refl, sym, ap, ◌∙◌, inl, inr, true,
  false, ◌||◌, some, List, [], ◌∷◌, map, arith, Bool-cases, contains,
}
use mathlib.Core.Path.{subst}
use backplaned_agents.State.{
  TaskState, cancelled, TaskRow, Db, Details, Outcome, done, raised, TransitionResult, find_task,
  task_transition, is_terminal, is_allowed, same_state,
}
use backplaned_agents.State.Transitions.{done_row, done_result, raised_unchanged, Outcome-cases}
use backplaned_agents.State.Histories.{Attempt, attempt, terminal_row_is_final}
use backplaned_agents.Tasks.App.{App, notify_task_terminal, abort_llm_tasks, send}
use backplaned_agents.Tasks.Cancel.{
  list_descendants, Plan, cancel_details, planned, cancel_one, cancel_each, fan_out, cancel_task,
}

-- the transitions that the loop attempts
abbrev pub attempts_of : List Text → Text → Text → List Attempt
attempts_of [] reason initiator = []
attempts_of (tid ∷ tids) reason initiator =
    record { task_id = tid; new_state = cancelled; details = cancel_details reason initiator }
    ∷ attempts_of tids reason initiator

planned-db :
    (app : App) (tid : Text) (o : Outcome TransitionResult) → (planned app tid o).0.db ≡ app.db
unfolding planned notify_task_terminal
planned-db app tid (done r) = refl
planned-db app tid (raised e) = refl

cancel_one-db :
    (app : App) (tid reason initiator : Text)
    → (cancel_one app tid reason initiator).0.db
      ≡ (task_transition app.db tid cancelled (cancel_details reason initiator)).0
unfolding cancel_one
cancel_one-db app tid reason initiator = planned-db _ tid _

pub cancel_each-db :
    (tids : List Text) (app : App) (reason initiator : Text)
    → (cancel_each app tids reason initiator).0.db
      ≡ attempt app.db (attempts_of tids reason initiator)
unfolding cancel_each attempt
cancel_each-db [] app reason initiator = refl
cancel_each-db (tid ∷ tids) app reason initiator =
    cancel_each-db tids (cancel_one app tid reason initiator).0 reason initiator
    ∙ ap (λ db. attempt db (attempts_of tids reason initiator))
        (cancel_one-db app tid reason initiator)

pub fan_out-db :
    (plans : List Plan) (app : App) (reason : Text) → (fan_out app reason plans).db ≡ app.db
unfolding fan_out send
fan_out-db [] app reason = refl
fan_out-db (plan ∷ plans) app reason = fan_out-db plans _ reason

-- the tasks that a cancellation is for
abbrev pub targets : App → Text → Text → List Text
targets app task_id user_id =
    task_id ∷ map (λ d. d.task_id) (list_descendants app.db user_id task_id)

pub cancel_task-db :
    (app : App) (task_id user_id reason initiator : Text)
    → (cancel_task app task_id user_id reason initiator).0.db
      ≡ attempt app.db (attempts_of (targets app task_id user_id) reason initiator)
unfolding cancel_task abort_llm_tasks
cancel_task-db app task_id user_id reason initiator =
    let (app', plans, count) = cancel_each app (targets app task_id user_id) reason initiator in
    fan_out-db plans (abort_llm_tasks app' (map (λ p. p.tid) plans)) reason
    ∙ cancel_each-db (targets app task_id user_id) app reason initiator

-- A cancellation does not touch a task that has ended: the whole row stays, with its output.
pub cancel_keeps_ended :
    (app : App) (task_id user_id reason initiator id : Text) (row : TaskRow)
    → find_task id app.db.tasks ≡ some row
    → is_terminal row.state ≡ true
    → find_task id (cancel_task app task_id user_id reason initiator).0.db.tasks ≡ some row
cancel_keeps_ended app task_id user_id reason initiator id row found ended =
    rw (cancel_task-db app task_id user_id reason initiator) (
      terminal_row_is_final app.db (attempts_of (targets app task_id user_id) reason initiator) id
        row found ended)

-- the task `id` is there and has ended
abbrev pub HasEnded : Text → Db → Type 0
HasEnded id db =
    (row : TaskRow) × (find_task id db.tasks ≡ some row) × (is_terminal row.state ≡ true)

pub HasEnded-attempt :
    (db : Db) (more : List Attempt) (id : Text) → HasEnded id db → HasEnded id (attempt db more)
HasEnded-attempt db more id (row, found, ended) =
    (row, terminal_row_is_final db more id row found ended, ended)

may_cancel :
    (s : TaskState)
    → is_terminal s ≡ false
    → (same_state s cancelled || is_allowed s cancelled) ≡ true
unfolding is_allowed
may_cancel s h = ground arith

-- one attempt ends the task
attempt_ends :
    (db : Db) (id : Text) (d : Details) (row : TaskRow)
    → find_task id db.tasks ≡ some row
    → HasEnded id (task_transition db id cancelled d).0
unfolding attempt
attempt_ends db id d row found = elim (Bool-cases (is_terminal row.state)) [
  | inl t ↦ (
    row,
    terminal_row_is_final db (record { task_id = id; new_state = cancelled; details = d } ∷ []) id
        row found t,
    t,
  )
  | inr n ↦
      let ((row', found', state'), _) =
        done_row db id cancelled d _ id
          (done_result db id cancelled d row found (may_cancel row.state n)) in
      (row', found', rw state' refl)
]

-- an attempt for another task leaves the row
attempt_other :
    (db : Db) (tid id : Text) (d : Details)
    → (tid == id) ≡ false
    → find_task id (task_transition db tid cancelled d).0.tasks ≡ find_task id db.tasks
attempt_other db tid id d n = elim (Outcome-cases (task_transition db tid cancelled d).1) [
  | inl (r, o) ↦ (done_row db tid cancelled d r id o).1 n
  | inr (e, o) ↦ ap (λ db'. find_task id db'.tasks) (raised_unchanged db tid cancelled d e o)
]

-- the attempts for a list of ids end every task of the list
all_end :
    (tids : List Text) (db : Db) (reason initiator id : Text) (row : TaskRow)
    → contains tids id ≡ true
    → find_task id db.tasks ≡ some row
    → HasEnded id (attempt db (attempts_of tids reason initiator))
unfolding attempt
all_end [] db reason initiator id row c found = absurd (ground arith)
all_end (tid ∷ tids) db reason initiator id row c found =
    let d = cancel_details reason initiator in
    elim (Bool-cases (tid == id)) [
      | inl y ↦ HasEnded-attempt _ (attempts_of tids reason initiator) id (
          subst (λ t. HasEnded id (task_transition db t cancelled d).0)
            (sym ((text_iff tid id).0 y)) (attempt_ends db id d row found))
      | inr n ↦
          all_end tids _ reason initiator id row (rw n at c) (attempt_other db tid id d n ∙ found)
    ]

-- Behind a cancellation the task and each of its descendants that is in the table has ended,
-- whatever state it was in.
pub cancel_ends_targets :
    (app : App) (task_id user_id reason initiator id : Text) (row : TaskRow)
    → contains (targets app task_id user_id) id ≡ true
    → find_task id app.db.tasks ≡ some row
    → HasEnded id (cancel_task app task_id user_id reason initiator).0.db
cancel_ends_targets app task_id user_id reason initiator id row c found =
    rw (cancel_task-db app task_id user_id reason initiator)
      (all_end (targets app task_id user_id) app.db reason initiator id row c found)

-- A task that is in the state CANCELLED already is counted again by the next cancellation of it.
pub recancel_counts :
    (app : App) (task_id user_id reason initiator : Text) (row : TaskRow)
    → find_task task_id app.db.tasks ≡ some row
    → row.state ≡ cancelled
    → 1 ≤ (cancel_task app task_id user_id reason initiator).1
unfolding cancel_task cancel_each cancel_one planned
recancel_counts app task_id user_id reason initiator row found state =
    rw
      (done_result app.db task_id cancelled (cancel_details reason initiator) row found
        (rw state refl))
      (ground arith)
