-- ===== src/Tasks/Checks.antt =====
-- bp_router/tasks.py `_admit_delegation`: the executor of a task hands it on to another agent, with
-- the queries of bp_router/db/queries.py that it makes. The call is cut at its one `await`:
-- `begin_delegation` checks and sends the frame (phases A and B), and `finish_delegation` takes up
-- what came of it (phase C), in the state that other handlers have left by then; both are in
-- Tasks/Delegate.antt, and their checks here. The agents are a function, and so is the level of a
-- user; the audit row is left out.
use backplaned_agents.Prelude.{
  ◌==◌, nat_eq, list_eq, option_eq, Text, codes, lookup, ℕ, suc, ◌⊎◌, inl, inr, Bool, true, false,
  not, ◌&&◌, Option, none, some, List, [], ◌∷◌, leb, if◌then◌else◌, length, take, contains,
}
use backplaned_agents.Acl.Rules.{Rule, AgentView}
use backplaned_agents.Acl.Eval.{decide}
use backplaned_agents.State.{is_terminal, TaskRow, EventKind, delegated, TaskEvent, Db, find_task}
use backplaned_agents.Delivery.{Sent, not_connected, queue_full, queued, awaiting}
use backplaned_agents.Tasks.App.{NewTaskFrame}

pub data AdmitError : Type 0 where
  agent_not_found user_unknown acl_denied task_unknown task_terminal not_active_executor :
      AdmitError
  delegation_depth_exceeded delegation_cycle agent_disconnected queue_is_full ack_timeout :
      AdmitError
  rejected internal_error : AdmitError
  schema_mismatch session_unknown session_closed quota_exceeded spawn_depth_exceeded : AdmitError
  invalid_parent_task : AdmitError

-- `AgentRow`: its view in the rules, and is its status "active"?
pub record AgentRow : Type 0 where
  pub view : AgentView
  pub active : Bool

-- what the call reads besides the state
pub record Setting : Type 0 where
  pub get_agent : Text → Option AgentRow
  pub session_level : Text → Option Text
  pub rules : List Rule
  pub task_delegation_max_depth : ℕ
  pub pending_ack_timeout_s : Option ℕ

-- `lock_task_for_delegation`
unfoldable pub lock_task : Db → Text → Text → Option TaskRow
unfolding find_task
lock_task db user_id task_id = elim (find_task task_id db.tasks) [
  | none ↦ none
  | some row ↦ if row.user_id == user_id then some row else none
]

abbrev pub is_delegated : EventKind → Bool
is_delegated delegated = true
is_delegated _ = false

abbrev pub to_key : Text
to_key = codes "to"

-- the destinations that events tell
unfoldable pub destinations : Text → List TaskEvent → List Text
unfolding lookup
destinations task_id [] = []
destinations task_id (e ∷ events) =
    let rest = destinations task_id events in
    if e.task_id == task_id && is_delegated e.kind
    then elim (lookup to_key e.payload) [ none ↦ rest | some to ↦ to ∷ rest ]
    else rest

-- `list_delegation_destinations` of a task in the user's scope; an event of this kind always has a
-- destination, so the limit can be taken behind the reading
unfoldable pub list_delegation_destinations : Db → Text → ℕ → List Text
unfolding destinations
list_delegation_destinations db task_id limit = take limit (destinations task_id db.events)

-- the checks of the locked row that both transactions make
unfoldable pub check_executor : Db → Text → Text → Text → TaskRow ⊎ AdmitError
unfolding lock_task
check_executor db user_id task_id caller = elim (lock_task db user_id task_id) [
  | none ↦ inr task_unknown
  | some row ↦
      if is_terminal row.state
      then inr task_terminal
      else if not (row.active_agent_id == caller)
      then inr not_active_executor
      else inl row
]

-- the depth and the cycle checks of phase A
unfoldable pub check_chain : Db → Setting → TaskRow → Text → TaskRow ⊎ AdmitError
unfolding list_delegation_destinations
check_chain db setting row destination =
    let prior =
      list_delegation_destinations db row.task_id (suc setting.task_delegation_max_depth) in
    if leb setting.task_delegation_max_depth (length prior)
    then inr delegation_depth_exceeded
    else if contains (row.agent_id ∷ prior) destination
    then inr delegation_cycle
    else inl row

-- the agents, the level and the rules: the level, if all is well
unfoldable pub check_acl : Setting → NewTaskFrame → Text → Text ⊎ AdmitError
unfolding decide
check_acl setting frame caller = elim (setting.get_agent caller) [
  | none ↦ inr agent_not_found
  | some caller_row ↦ elim (setting.get_agent frame.destination_agent_id) [
    | none ↦ inr agent_not_found
    | some callee_row ↦
        if not callee_row.active
        then inr agent_not_found
        else elim (setting.session_level frame.user_id) [
          | none ↦ inr user_unknown
          | some level ↦
              if not (decide setting.rules caller_row.view callee_row.view (some level)).allow
              then inr acl_denied
              else inl level
        ]
  ]
]

-- the frame for the destination
abbrev pub delivery_frame : NewTaskFrame → TaskRow → Text → Text → NewTaskFrame
delivery_frame frame row level caller = record frame {
  task_id = row.task_id;
  parent_task_id = row.parent_task_id;
  user_level = level;
  deadline = row.deadline;
  idempotency_key = none;
  delegating_agent_id = some caller;
}

-- what `deliver_frame` comes to before its `await`; a full queue is an exception that the call does
-- not catch, and a frame that wants an ack is never just queued
abbrev pub ack_of : Sent → ℕ ⊎ AdmitError
ack_of not_connected = inr agent_disconnected
ack_of queue_full = inr queue_is_full
ack_of queued = inr internal_error
ack_of (awaiting fut) = inl fut
