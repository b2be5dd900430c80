-- ===== src/State.antt =====
-- bp_router/state.py: the task state machine, and `task_transition`, the one function that writes
-- `tasks.state`. A table is a list of rows; a transaction is a step from one database to the next,
-- so the row lock that the caller holds is the atomicity of the step.
pub mod Transitions
pub mod Histories
mod Examples
use backplaned_agents.Prelude.{
  Eq, ◌==◌, nat_eq, list_eq, option_eq, Text, codes, Dict, insert, ℕ, zero, suc, Bool, true, false,
  not, Option, none, some, List, [], ◌∷◌, ◌++◌, arith, if◌then◌else◌, length, any,
}

pub data TaskState : Type 0 where
  queued running waiting_children succeeded failed cancelled timed_out : TaskState

-- `TaskState.is_terminal`
abbrev pub is_terminal : TaskState → Bool
is_terminal succeeded = true
is_terminal failed = true
is_terminal cancelled = true
is_terminal timed_out = true
is_terminal _ = false

-- `frm == to`
abbrev pub same_state : TaskState → TaskState → Bool
same_state queued queued = true
same_state running running = true
same_state waiting_children waiting_children = true
same_state succeeded succeeded = true
same_state failed failed = true
same_state cancelled cancelled = true
same_state timed_out timed_out = true
same_state _ _ = false

-- `_ALLOWED`
unfoldable pub allowed_transitions : TaskState → List TaskState
allowed_transitions queued = running ∷ succeeded ∷ failed ∷ cancelled ∷ timed_out ∷ []
allowed_transitions running = waiting_children ∷ succeeded ∷ failed ∷ cancelled ∷ timed_out ∷ []
allowed_transitions waiting_children = running ∷ failed ∷ cancelled ∷ timed_out ∷ []
allowed_transitions succeeded = []
allowed_transitions failed = []
allowed_transitions cancelled = []
allowed_transitions timed_out = []

-- `to in _ALLOWED.get(frm, set())`
unfoldable pub is_allowed : TaskState → TaskState → Bool
unfolding allowed_transitions
is_allowed frm to = any (same_state to) (allowed_transitions frm)

-- a JSON object with text values, as the router's own error objects are
abbrev pub Body : Type 0
Body = Dict Text Text

-- the columns of `tasks` that the handlers modelled here read or write, but for the time of the last
-- update
pub record TaskRow : Type 0 where
  pub task_id : Text
  pub parent_task_id : Option Text
  pub root_task_id : Text
  pub user_id : Text
  pub session_id : Text
  pub agent_id : Text
  pub caller_agent_id : Text
  pub active_agent_id : Text
  pub state : TaskState
  pub idempotency_key : Option Text
  pub deadline : Option ℕ
  pub status_code : Option ℕ
  pub output : Option Body
  pub error : Option Body

pub data EventKind : Type 0 where
  transition_noop transition admitted delegated : EventKind

-- a row of `task_events`; the event id is its place in the table
pub record TaskEvent : Type 0 where
  pub task_id : Text
  pub kind : EventKind
  pub actor_agent_id : Option Text
  pub from_state : Option TaskState
  pub to_state : Option TaskState
  pub payload : Body

pub record Db : Type 0 where
  pub tasks : List TaskRow
  pub events : List TaskEvent

pub record TransitionResult : Type 0 where
  pub task_id : Text
  pub previous_state : TaskState
  pub new_state : TaskState
  pub event_id : ℕ

pub data TransitionError : Type 0 where
  illegal_transition : Text → TaskState → TaskState → TransitionError
  task_not_found : Text → TransitionError

pub data Outcome {ℓ} (A : Type ℓ) : Type ℓ where
  done : A → Outcome A
  raised : TransitionError → Outcome A

-- the arguments of `task_transition` behind the task and the new state
pub record Details : Type 0 where
  pub reason : Text
  pub actor_agent_id : Option Text
  pub payload : Body
  pub status_code : Option ℕ
  pub output : Option Body
  pub error : Option Body

-- `SELECT ... FROM tasks WHERE task_id = $1`
unfoldable pub find_task : Text → List TaskRow → Option TaskRow
find_task task_id [] = none
find_task task_id (row ∷ rows) = if row.task_id == task_id then some row else find_task task_id rows

-- `UPDATE tasks SET ... WHERE task_id = $1`
unfoldable pub update_task : Text → (TaskRow → TaskRow) → List TaskRow → List TaskRow
update_task task_id change [] = []
update_task task_id change (row ∷ rows) =
    (if row.task_id == task_id then change row else row) ∷ update_task task_id change rows

-- `COALESCE(new, old)`
abbrev pub coalesce {ℓ} : {A : Type ℓ} → Option A → Option A → Option A
coalesce none old = old
coalesce (some new) old = some new

-- the columns that the UPDATE of `task_transition` sets
abbrev pub set_state : TaskState → Details → TaskRow → TaskRow
set_state new_state d row = record row {
  state = new_state;
  status_code = coalesce d.status_code row.status_code;
  output = coalesce d.output row.output;
  error = coalesce d.error row.error;
}

-- `_insert_event`: the new row, and its id
unfoldable pub insert_event : Db → TaskEvent → Db × ℕ
insert_event db event = (record db { events = db.events ++ event ∷ [] }, length db.events)

-- `{**a, **b}`
abbrev pub merge : Body → Body → Body
merge a [] = a
merge a ((k, v) ∷ b) = merge (insert k v a) b

abbrev pub event_of : Text → EventKind → TaskState → TaskState → Details → TaskEvent
event_of task_id kind frm to d = record {
  task_id = task_id;
  kind = kind;
  actor_agent_id = d.actor_agent_id;
  from_state = some frm;
  to_state = some to;
  payload = merge ((codes "reason", d.reason) ∷ []) d.payload;
}

-- the part of `task_transition` behind the locked SELECT
unfoldable pub move : Db → Text → TaskState → TaskState → Details → Db × Outcome TransitionResult
unfolding is_allowed update_task insert_event
move db task_id previous new_state d =
    if same_state previous new_state
    then (let (db', event_id) =
          insert_event db (event_of task_id transition_noop previous new_state d) in
        (
          db',
          done (record {
            task_id = task_id;
            previous_state = previous;
            new_state = new_state;
            event_id = event_id;
          }),
        ))
    else if not (is_allowed previous new_state)
    then (db, raised (illegal_transition task_id previous new_state))
    else (let updated = record db {
      tasks = update_task task_id (set_state new_state d) db.tasks;
    } in
        let (db', event_id) =
          insert_event updated (event_of task_id transition previous new_state d) in
        (
          db',
          done (record {
            task_id = task_id;
            previous_state = previous;
            new_state = new_state;
            event_id = event_id;
          }),
        ))

unfoldable pub task_transition : Db → Text → TaskState → Details → Db × Outcome TransitionResult
unfolding find_task move
task_transition db task_id new_state d = elim (find_task task_id db.tasks) [
  | none ↦ (db, raised (task_not_found task_id))
  | some row ↦ move db task_id row.state new_state d
]
