-- ===== src/Admit/Admission.antt =====
-- bp_router/tasks.py `admit_task` for a new task. The call is cut where other handlers can run:
-- `check_admission` is steps 1 to 3d, `open_task` is steps 4 and 5 up to the `await`, and
-- `close_admission` takes up what came of the frame, each on the state that it finds. `fail_task` does
-- not raise here, so the fallback of `_safe_fail` is not needed.
use backplaned_agents.Prelude.{
  nat_eq, list_eq, option_eq, Text, codes, ℕ, ◌+◌, inl, inr, true, Option, none, some, List, [],
  ◌∷◌,
}
use backplaned_agents.State.{TaskRow, TaskEvent, admitted, Db, insert_event, Body}
use backplaned_agents.Lru.{set_item}
use backplaned_agents.Delivery.{deliver_frame, Sent, not_connected}
use backplaned_agents.Tasks.App.{App, NewTaskFrame, new_task_frame}
use backplaned_agents.Tasks.Checks.{
  AdmitError, invalid_parent_task, internal_error, agent_disconnected, ack_of,
}
use backplaned_agents.Tasks.Fail.{Failure, fails, fail_task}
use backplaned_agents.Tasks.Replay.{AdmitResult, idempotent_admit_result}
use backplaned_agents.Admit.Queries.{
  Session, NewTask, CreateError, cross_user, same_key, same_id, late_deadline, create_task,
  find_idempotent,
}
use backplaned_agents.Admit.Guards.{
  AdmitSetting, Router, check_session, check_call, check_quota, check_depth,
}

-- the call goes on with something, or it ends with an answer or an error
pub data Progress {ℓ} (A : Type ℓ) : Type ℓ where
  goes_on : A → Progress A
  returns : AdmitResult → Progress A
  refuses : AdmitError → Progress A

-- step 1: the row that the key names. An empty key is not looked up.
unfoldable pub known_task : Db → NewTaskFrame → Text → Option TaskRow
unfolding find_idempotent
known_task db frame caller = elim frame.idempotency_key [
  | none ↦ none
  | some [] ↦ none
  | some (c ∷ key) ↦ find_idempotent caller frame.user_id (c ∷ key) db.tasks
]

abbrev pub new_task : NewTaskFrame → Text → Option ℕ → ℕ → NewTask
new_task frame caller deadline now = record {
  created_at = now;
  user_id = frame.user_id;
  session_id = frame.session_id;
  agent_id = frame.destination_agent_id;
  caller_agent_id = caller;
  parent_task_id = frame.parent_task_id;
  deadline = deadline;
  idempotency_key = frame.idempotency_key;
}

abbrev pub admitted_event : Text → Text → TaskEvent
admitted_event task_id caller = record {
  task_id = task_id;
  kind = admitted;
  actor_agent_id = some caller;
  from_state = none;
  to_state = none;
  payload = (codes "caller", caller) ∷ [];
}

-- `_cache_caller_agent`
unfoldable pub cache_caller_agent : App → Text → Text → Text → App
unfolding set_item
cache_caller_agent app task_id caller active = record app {
  caller_agent_cache = set_item app.caller_agent_cache task_id (caller, active);
}

abbrev pub frame_for : NewTaskFrame → TaskRow → Text → NewTaskFrame
frame_for frame row level = record frame {
  task_id = row.task_id;
  parent_task_id = row.parent_task_id;
  user_level = level;
  deadline = row.deadline;
  idempotency_key = none;
  delegating_agent_id = none;
}

-- the error of `_safe_fail`
abbrev pub admit_failure : Text → ℕ → Text → Option Body → Failure
admit_failure user_id status_code reason error = record {
  user_id = some user_id;
  status_code = status_code;
  reason = reason;
  error = error;
  actor_agent_id = none;
  ending = fails;
}

abbrev pub disconnected_failure : Text → Failure
disconnected_failure user_id =
    admit_failure user_id 503 (codes "agent_disconnected")
      (some ((codes "code", codes "agent_disconnected") ∷ []))

-- no live socket is a failure of the task; a full queue is an exception that nothing here catches
abbrev pub sent_off : App → TaskRow → NewTaskFrame → Sent → App × Progress (TaskRow × ℕ)
sent_off app row frame not_connected =
    (fail_task app row.task_id (disconnected_failure frame.user_id), refuses agent_disconnected)
sent_off app row frame sent =
    (app, elim (ack_of sent) [ inr e ↦ refuses e | inl fut ↦ goes_on (row, fut) ])

module _ {Schema : Type 0} (setting : AdmitSetting Schema) where
  -- steps 1 to 3d: the level of the user
  unfoldable pub check_admission : Router → NewTaskFrame → Text → ℕ → Router × Progress Text
  unfolding known_task idempotent_admit_result check_call check_quota check_depth
  check_admission r frame caller now = elim (known_task r.app.db frame caller) [
    | some existing ↦ (r, returns (idempotent_admit_result setting.rehydrate existing))
    | none ↦ elim (check_call setting r.sessions frame caller) [
      | inr e ↦ (r, refuses e)
      | inl level ↦
          let (quota, granted) = check_quota setting r.admit_quota frame.user_id level now in
          let r' = record r { admit_quota = quota } in
          elim granted [
            | inr e ↦ (r', refuses e)
            | inl ok ↦ elim (check_depth setting r.app.db frame) [
              | inr e ↦ (r', refuses e)
              | inl fits ↦ (r', goes_on level)
            ]
          ]
    ]
  ]

  -- the row of the admit that won a race for the key
  unfoldable pub join_racer : Db → NewTaskFrame → Text → Progress TaskRow
  unfolding find_idempotent idempotent_admit_result
  join_racer db frame caller = elim frame.idempotency_key [
    | none ↦ refuses internal_error
    | some key ↦ elim (find_idempotent caller frame.user_id key db.tasks) [
      | none ↦ refuses internal_error
      | some racer ↦ returns (idempotent_admit_result setting.rehydrate racer)
    ]
  ]

  abbrev pub create_error : Db → NewTaskFrame → Text → CreateError → Progress TaskRow
  create_error db frame caller cross_user = refuses invalid_parent_task
  create_error db frame caller same_key = join_racer db frame caller
  create_error db frame caller same_id = refuses internal_error
  create_error db frame caller late_deadline = refuses internal_error

  abbrev pub deadline_from : NewTaskFrame → ℕ → ℕ
  deadline_from frame now = elim frame.deadline [
    | none ↦ now + setting.default_task_deadline_s
    | some deadline ↦ deadline
  ]

  -- step 4: the transaction
  unfoldable pub persist_task :
      Db → List Session → NewTaskFrame → Text → Text → ℕ → Db × Progress TaskRow
  unfolding check_session create_task join_racer insert_event
  persist_task db sessions frame caller task_id now = elim (check_session sessions frame) [
    | inr e ↦ (db, refuses e)
    | inl still ↦
        let (db', created) =
          create_task db task_id (new_task frame caller (some (deadline_from frame now)) now) in
        elim created [
          | inr e ↦ (db, create_error db frame caller e)
          | inl row ↦ ((insert_event db' (admitted_event row.task_id caller)).0, goes_on row)
        ]
  ]

  -- step 5 up to the `await`: the row and the future of the ack
  unfoldable pub dispatch_task :
      App → TaskRow → NewTaskFrame → Text → Text → Text → ℕ → App × Progress (TaskRow × ℕ)
  unfolding cache_caller_agent deliver_frame fail_task
  dispatch_task app row frame caller level cid now =
      let cached = cache_caller_agent app row.task_id caller frame.destination_agent_id in
      let (hub', sent) =
        deliver_frame cached.hub frame.destination_agent_id cid
          (new_task_frame (frame_for frame row level)) true setting.common.pending_ack_timeout_s
          now in
      sent_off (record cached { hub = hub' }) row frame sent

  -- steps 4 and 5 up to the `await`
  unfoldable pub open_task :
      Router → NewTaskFrame → Text → Text → Text → Text → ℕ → Router × Progress (TaskRow × ℕ)
  unfolding persist_task dispatch_task
  open_task r frame caller level task_id cid now =
      let (db', persisted) = persist_task r.app.db r.sessions frame caller task_id now in
      elim persisted [
        | refuses e ↦ (r, refuses e)
        | returns result ↦ (r, returns result)
        | goes_on row ↦
            let (app', opened) =
              dispatch_task (record r.app { db = db' }) row frame caller level cid now in
            (record r { app = app' }, opened)
      ]
