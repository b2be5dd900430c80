-- ===== src/Dispatch.antt =====
-- bp_router/dispatch.py: what the router does with a Result, a Progress, a Cancel and an Ack of an agent,
-- with `task_has_ancestor_with_agent` of bp_router/db/queries.py. The acks that the handlers put into
-- the sender's outbox are the Booleans that they return. A Progress is its event and content.
pub mod Progress
pub mod Cancels
mod Examples
use backplaned_agents.Prelude.{
  Eq, ◌==◌, nat_eq, list_eq, option_eq, Text, ℕ, zero, suc, Bool, true, false, not, ◌&&◌, ◌||◌,
  Option, none, some, List, [], ◌∷◌, arith, if◌then◌else◌, select, contains,
}
use backplaned_agents.Acks.{Acks, resolve}
use backplaned_agents.State.{is_terminal, TaskRow, Body, Db, find_task}
use backplaned_agents.Lru.{get_item, set_item}
use backplaned_agents.Delivery.{Hub, Socket, fanout_frame}
use backplaned_agents.Tasks.App.{App, Frame, Ack, ResultFrame, progress_frame}
use backplaned_agents.Tasks.Complete.{Completion, not_caught, complete_task}
use backplaned_agents.Tasks.Cancel.{max_task_tree_depth, cancel_task}

abbrev pub is_caught : Completion → Bool
is_caught not_caught = false
is_caught _ = true

-- `_handle_result`
unfoldable pub handle_result : App → ResultFrame → Text → App × Bool
unfolding complete_task
handle_result app frame agent_id =
    let (app', completion) = complete_task app frame agent_id in (app', is_caught completion)

-- the part of `_handle_progress` behind the lookup
unfoldable pub forward_progress : App → Text → Text → Body → Text × Text → App
unfolding fanout_frame
forward_progress app agent_id task_id event (caller, active) =
    if agent_id == active
    then record app { hub = (fanout_frame app.hub (caller ∷ []) (progress_frame task_id event)).0 }
    else app

-- a row that was looked up goes into the cache, unless the task has ended
unfoldable pub back_filled : App → Text → TaskRow → App
unfolding set_item
back_filled app task_id row = if is_terminal row.state then app else record app {
  caller_agent_cache =
      set_item app.caller_agent_cache task_id (row.caller_agent_id, row.active_agent_id);
}

-- `_handle_progress`
unfoldable pub handle_progress : App → Text → Text → Body → App
unfolding get_item find_task back_filled forward_progress
handle_progress app agent_id task_id event = elim (get_item app.caller_agent_cache task_id) [
  | some (entry, cache) ↦
      forward_progress (record app { caller_agent_cache = cache }) agent_id task_id event entry
  | none ↦ elim (find_task task_id app.db.tasks) [
    | none ↦ app
    | some row ↦
        forward_progress (back_filled app task_id row) agent_id task_id event
          (row.caller_agent_id, row.active_agent_id)
  ]
]

-- the rows of the recursive query: is one of them assigned to the agent?
unfoldable pub assigned_above : ℕ → List TaskRow → Text → Text → Option Text → Bool
unfolding find_task
assigned_above zero rows user_id agent_id id = false
assigned_above (suc rounds) rows user_id agent_id none = false
assigned_above (suc rounds) rows user_id agent_id (some id) = elim (find_task id rows) [
  | none ↦ false
  | some row ↦
      row.user_id == user_id
      && (row.agent_id == agent_id
          || assigned_above rounds rows user_id agent_id row.parent_task_id)
]

-- `task_has_ancestor_with_agent`: the first row has depth 0
unfoldable pub task_has_ancestor_with_agent : Db → Text → Text → Text → Bool
unfolding assigned_above
task_has_ancestor_with_agent db task_id agent_id user_id =
    assigned_above (suc max_task_tree_depth) db.tasks user_id agent_id (some task_id)

-- the fields of `CancelFrame`
pub record CancelFrame : Type 0 where
  pub task_id : Option Text
  pub ref_correlation_id : Option Text
  pub reason : Text

-- the part of `_handle_cancel` that cancels a task
unfoldable pub cancel_authorised : App → Text → Text → Text → App
unfolding find_task task_has_ancestor_with_agent cancel_task
cancel_authorised app agent_id task_id reason = elim (find_task task_id app.db.tasks) [
  | none ↦ app
  | some row ↦
      if task_has_ancestor_with_agent app.db task_id agent_id row.user_id
      then (cancel_task app task_id row.user_id reason agent_id).0
      else app
]

-- `_handle_cancel`: the LLM calls are those of the sender's socket
unfoldable pub handle_cancel : App → List Text → Text → CancelFrame → App × List Text
unfolding cancel_authorised
handle_cancel app llm_tasks agent_id frame = elim frame.ref_correlation_id [
  | some cid ↦ (app, select (λ c. not (c == cid)) llm_tasks)
  | none ↦ elim frame.task_id [
    | none ↦ (app, llm_tasks)
    | some task_id ↦ (cancel_authorised app agent_id task_id frame.reason, llm_tasks)
  ]
]

-- `_handle_ack` of a frame from the socket `entry`
unfoldable pub handle_ack : App → Socket Frame → Text → Ack → App
unfolding resolve
handle_ack app entry ref_correlation_id ack =
    if not (contains entry.inflight ref_correlation_id) then app else record app {
      hub = record app.hub { acks = (resolve app.hub.acks ref_correlation_id ack).0 };
    }
