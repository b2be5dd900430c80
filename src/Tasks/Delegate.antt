-- ===== src/Tasks/Delegate.antt =====
-- bp_router/tasks.py `_admit_delegation`: the two halves of the call, on the checks of
-- Tasks/Checks.antt.
use backplaned_agents.Prelude.{
  ◌==◌, nat_eq, list_eq, option_eq, Text, codes, ℕ, ◌⊎◌, inl, inr, Bool, true, false, not, Option,
  none, some, [], ◌∷◌, if◌then◌else◌,
}
use backplaned_agents.State.{TaskRow, delegated, TaskEvent, Db, update_task, insert_event}
use backplaned_agents.Delivery.{deliver_frame, acked}
use backplaned_agents.Tasks.App.{new_task_frame, NewTaskFrame, Ack, App, recache_active_agent}
use backplaned_agents.Tasks.Checks.{
  AdmitError, internal_error, rejected, ack_timeout, agent_disconnected, Setting, lock_task,
  check_executor, check_chain, check_acl, delivery_frame, ack_of, to_key,
}

-- the frame goes out, and the caller waits for its ack
unfoldable pub dispatch :
    App → Setting → NewTaskFrame → TaskRow → Text → Text → Text → ℕ → App × (ℕ ⊎ AdmitError)
unfolding deliver_frame
dispatch app setting frame row level caller cid now =
    let (hub', sent) =
      deliver_frame app.hub frame.destination_agent_id cid
        (new_task_frame (delivery_frame frame row level caller)) true setting.pending_ack_timeout_s
        now in
    (record app { hub = hub' }, ack_of sent)

-- up to the `await`: the future of the ack, or an error
unfoldable pub begin_delegation :
    App → Setting → NewTaskFrame → Text → Text → ℕ → App × (ℕ ⊎ AdmitError)
unfolding check_acl check_executor check_chain dispatch
begin_delegation app setting frame caller cid now = elim (check_acl setting frame caller) [
  | inr e ↦ (app, inr e)
  | inl level ↦ elim (check_executor app.db frame.user_id frame.task_id caller) [
    | inr e ↦ (app, inr e)
    | inl row ↦ elim (check_chain app.db setting row frame.destination_agent_id) [
      | inr e ↦ (app, inr e)
      | inl checked ↦ dispatch app setting frame checked level caller cid now
    ]
  ]
]

-- what the awaited future comes to; `lost` is the `ConnectionError` of a disconnect, which the call
-- does not catch
pub data Answer : Type 0 where
  acks : Ack → Answer
  times_out lost : Answer

abbrev pub answer_error : Answer → Option AdmitError
answer_error (acks ack) = if ack.accepted then none else some rejected
answer_error times_out = some ack_timeout
answer_error lost = some agent_disconnected

abbrev pub handed_to : Text → TaskRow → TaskRow
handed_to destination row = record row { active_agent_id = destination }

abbrev pub delegated_event : Text → Text → Text → TaskEvent
delegated_event task_id caller destination = record {
  task_id = task_id;
  kind = delegated;
  actor_agent_id = some caller;
  from_state = none;
  to_state = none;
  payload = (codes "from", caller) ∷ (to_key, destination) ∷ [];
}

-- `reassign_active_agent`: the table, and was the row updated?
unfoldable pub reassign_active_agent : Db → Text → Text → Text → Text → Db × Bool
unfolding lock_task update_task
reassign_active_agent db user_id task_id destination caller = elim (lock_task db user_id task_id) [
  | none ↦ (db, false)
  | some row ↦
      if row.active_agent_id == caller
      then (record db { tasks = update_task task_id (handed_to destination) db.tasks }, true)
      else (db, false)
]

-- phase C
unfoldable pub flip : App → NewTaskFrame → Text → App × (Text ⊎ AdmitError)
unfolding check_executor reassign_active_agent recache_active_agent insert_event
flip app frame caller = elim (check_executor app.db frame.user_id frame.task_id caller) [
  | inr e ↦ (app, inr e)
  | inl row ↦
      let (db', flipped) =
        reassign_active_agent app.db frame.user_id frame.task_id frame.destination_agent_id
          caller in
      if not flipped then (app, inr internal_error) else (
        record (recache_active_agent app frame.task_id frame.destination_agent_id) {
          db =
              (insert_event db'
                (delegated_event frame.task_id caller frame.destination_agent_id)).0;
        },
        inl frame.task_id,
      )
]

-- from the `await` on
unfoldable pub finish_delegation :
    App → NewTaskFrame → Text → Text → Answer → App × (Text ⊎ AdmitError)
unfolding acked flip
finish_delegation app frame caller cid answer =
    let app' = record app { hub = acked app.hub frame.destination_agent_id cid } in
    elim (answer_error answer) [ some e ↦ (app', inr e) | none ↦ flip app' frame caller ]
