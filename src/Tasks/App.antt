-- ===== src/Tasks/App.antt =====
-- The state that bp_router/tasks.py works on, the frames it sends and its small helpers. The trace,
-- span and correlation ids of frames are left out: nothing here depends on them. An `AgentOutput`
-- is the object that `model_dump` makes of it.
use backplaned_agents.Prelude.{
  ◌==◌, nat_eq, list_eq, option_eq, Text, codes, ℕ, Bool, false, not, Option, none, some, List, [],
  ◌∷◌, ◌++◌, if◌then◌else◌, select, contains,
}
use backplaned_agents.State.{TaskState, succeeded, failed, cancelled, timed_out, Body, Db}
use backplaned_agents.Lru.{Lru, pop, get_item, set_item}
use backplaned_agents.Delivery.{Hub, deliver_frame}

-- bp_protocol/types.py `TaskStatus`
pub data TaskStatus : Type 0 where
  status_succeeded status_failed status_cancelled status_timed_out : TaskStatus

-- `TaskStatus.value`
abbrev pub status_value : TaskStatus → Text
status_value status_succeeded = codes "succeeded"
status_value status_failed = codes "failed"
status_value status_cancelled = codes "cancelled"
status_value status_timed_out = codes "timed_out"

abbrev pub state_from_status : TaskStatus → TaskState
state_from_status status_succeeded = succeeded
state_from_status status_failed = failed
state_from_status status_cancelled = cancelled
state_from_status status_timed_out = timed_out

-- `_STATUS_FROM_STATE.get(state)`
abbrev pub status_from_state : TaskState → Option TaskStatus
status_from_state succeeded = some status_succeeded
status_from_state failed = some status_failed
status_from_state cancelled = some status_cancelled
status_from_state timed_out = some status_timed_out
status_from_state _ = none

-- `_DEFAULT_TERMINAL_STATUS_CODE`
abbrev pub default_status_code : TaskStatus → ℕ
default_status_code status_succeeded = 200
default_status_code status_failed = 500
default_status_code status_cancelled = 499
default_status_code status_timed_out = 504

pub record ResultFrame : Type 0 where
  pub agent_id : Text
  pub task_id : Text
  pub parent_task_id : Option Text
  pub status : TaskStatus
  pub status_code : ℕ
  pub output : Option Body
  pub error : Option Body

-- the `NewTaskFrame` that the router sends on; the payload is an object
pub record NewTaskFrame : Type 0 where
  pub task_id : Text
  pub parent_task_id : Option Text
  pub destination_agent_id : Text
  pub user_id : Text
  pub user_level : Text
  pub session_id : Text
  pub deadline : Option ℕ
  pub idempotency_key : Option Text
  pub input_mode : Option Text
  pub payload : Body
  pub delegating_agent_id : Option Text

pub data Frame : Type 0 where
  result_frame : ResultFrame → Frame
  -- the task and the reason
  cancel_frame : Text → Text → Frame
  new_task_frame : NewTaskFrame → Frame
  -- the task and the event with its content
  progress_frame : Text → Body → Frame

-- `AckFrame`: `accepted` and `reason`
pub record Ack : Type 0 where
  pub accepted : Bool
  pub reason : Option Text

pub record App : Type 0 where
  pub db : Db
  pub hub : Hub Frame Ack
  -- `task_terminal_events`: the tasks that someone waits for, and those whose event was set
  pub terminal_events : List Text
  pub woken : List Text
  -- `caller_agent_cache`: the caller and the active agent
  pub caller_agent_cache : Lru Text (Text × Text)
  -- the tasks of the LLM calls that are running in the router
  pub llm_tasks : List Text

-- `_notify_task_terminal`
unfoldable pub notify_task_terminal : App → Text → App
unfolding pop
notify_task_terminal app task_id = record app {
  terminal_events = select (λ t. not (t == task_id)) app.terminal_events;
  woken = if contains app.terminal_events task_id then app.woken ++ task_id ∷ [] else app.woken;
  caller_agent_cache = (pop app.caller_agent_cache task_id ([], [])).1;
}

-- `_recache_active_agent`
unfoldable pub recache_active_agent : App → Text → Text → App
unfolding get_item set_item
recache_active_agent app task_id active_agent_id = elim (get_item app.caller_agent_cache task_id) [
  | none ↦ app
  | some (entry, cache) ↦ record app {
    caller_agent_cache = set_item cache task_id (entry.0, active_agent_id);
  }
]

-- `_abort_router_side_llm_tasks`
unfoldable pub abort_llm_tasks : App → List Text → App
abort_llm_tasks app task_ids = record app {
  llm_tasks = select (λ t. not (contains task_ids t)) app.llm_tasks;
}

-- `deliver_frame(..., await_ack=False)` with both its errors caught; the last three arguments of
-- `deliver_frame` are not read without an ack
unfoldable pub send : App → Text → Frame → App
unfolding deliver_frame
send app agent_id frame = record app {
  hub = (deliver_frame app.hub agent_id [] frame false none 0).0;
}
