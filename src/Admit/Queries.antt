-- ===== src/Admit/Queries.antt =====
-- The queries of bp_router/db/queries.py that `admit_task` makes: `find_idempotent`, `create_task` and
-- `count_task_chain_depth`, and the lookup of a session. The id of a new task is a parameter; a column
-- that nothing here reads (priority, the times, the input) is left out.
use backplaned_agents.Prelude.{
  ◌==◌, nat_eq, list_eq, option_eq, Text, ℕ, zero, suc, ◌⊎◌, inl, inr, Bool, true, false, not, ◌&&◌,
  Option, none, some, List, [], ◌∷◌, ◌++◌, ltb, if◌then◌else◌, is_some,
}
use backplaned_agents.State.{TaskRow, Db, queued, find_task}
use backplaned_agents.Tasks.Cancel.{max_task_tree_depth}

-- a row of `sessions`: is `closed_at` set?
pub record Session : Type 0 where
  pub session_id : Text
  pub user_id : Text
  pub closed : Bool

-- `SELECT closed_at FROM sessions WHERE session_id = $1 AND user_id = $2`
unfoldable pub find_session : Text → Text → List Session → Option Session
find_session session_id user_id [] = none
find_session session_id user_id (s ∷ sessions) =
    if s.session_id == session_id && s.user_id == user_id
    then some s
    else find_session session_id user_id sessions

-- a key that is NULL is equal to no key
abbrev pub has_key : Text → Text → Text → TaskRow → Bool
has_key caller_agent_id user_id key row =
    row.caller_agent_id == caller_agent_id
    && row.user_id == user_id
    && row.idempotency_key == some key

unfoldable pub find_idempotent : Text → Text → Text → List TaskRow → Option TaskRow
find_idempotent caller_agent_id user_id key [] = none
find_idempotent caller_agent_id user_id key (row ∷ rows) =
    if has_key caller_agent_id user_id key row
    then some row
    else find_idempotent caller_agent_id user_id key rows

-- the rows of the recursive query: a task of the user, its parent, and so on
unfoldable pub ancestors : ℕ → List TaskRow → Text → Option Text → ℕ
unfolding find_task
ancestors zero rows user_id id = 0
ancestors (suc fuel) rows user_id none = 0
ancestors (suc fuel) rows user_id (some id) = elim (find_task id rows) [
  | none ↦ 0
  | some row ↦
      if row.user_id == user_id then suc (ancestors fuel rows user_id row.parent_task_id) else 0
]

unfoldable pub count_task_chain_depth : Db → Text → Text → ℕ
unfolding ancestors
count_task_chain_depth db user_id task_id =
    ancestors max_task_tree_depth db.tasks user_id (some task_id)

pub data CreateError : Type 0 where
  -- `CrossUserTaskAccess`
  cross_user : CreateError
  -- `UniqueViolationError` of `tasks_idempotency_unique`, and of the primary key
  same_key same_id : CreateError
  -- `CheckViolationError` of `tasks_deadline_after_create`
  late_deadline : CreateError

-- the arguments of `create_task`
pub record NewTask : Type 0 where
  pub user_id : Text
  pub session_id : Text
  pub agent_id : Text
  pub caller_agent_id : Text
  pub parent_task_id : Option Text
  pub deadline : Option ℕ
  pub created_at : ℕ
  pub idempotency_key : Option Text

abbrev pub new_row : Text → Text → NewTask → TaskRow
new_row task_id root_task_id t = record {
  task_id = task_id;
  parent_task_id = t.parent_task_id;
  root_task_id = root_task_id;
  user_id = t.user_id;
  session_id = t.session_id;
  agent_id = t.agent_id;
  caller_agent_id = t.caller_agent_id;
  active_agent_id = t.agent_id;
  state = queued;
  idempotency_key = t.idempotency_key;
  deadline = t.deadline;
  status_code = none;
  output = none;
  error = none;
}

-- `SELECT root_task_id FROM tasks WHERE task_id = $1 AND user_id = $2`, or the id itself for a root
unfoldable pub root_of : Db → Text → Text → Option Text → Option Text
unfolding find_task
root_of db user_id task_id none = some task_id
root_of db user_id task_id (some parent) = elim (find_task parent db.tasks) [
  | none ↦ none
  | some row ↦ if row.user_id == user_id then some row.root_task_id else none
]

-- is the key of the new row taken? A row without a key never is in the way
unfoldable pub key_taken : Db → NewTask → Bool
unfolding find_idempotent
key_taken db t = elim t.idempotency_key [
  | none ↦ false
  | some key ↦ is_some (find_idempotent t.caller_agent_id t.user_id key db.tasks)
]

-- `deadline IS NULL OR deadline > created_at`
abbrev pub deadline_ok : NewTask → Bool
deadline_ok t = elim t.deadline [ none ↦ true | some deadline ↦ ltb t.created_at deadline ]

unfoldable pub create_task : Db → Text → NewTask → Db × (TaskRow ⊎ CreateError)
unfolding root_of key_taken find_task
create_task db task_id t = elim (root_of db t.user_id task_id t.parent_task_id) [
  | none ↦ (db, inr cross_user)
  | some root ↦
      let row = new_row task_id root t in
      if not (deadline_ok t)
      then (db, inr late_deadline)
      else if is_some (find_task task_id db.tasks)
      then (db, inr same_id)
      else if key_taken db t
      then (db, inr same_key)
      else (record db { tasks = db.tasks ++ row ∷ [] }, inl row)
]
