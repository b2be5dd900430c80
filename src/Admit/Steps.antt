-- ===== src/Admit/Steps.antt =====
-- What the operations on tasks do to the tables, as a step relation: state transitions, hand-overs
-- and new rows. The invariants of the tables are kept by every step.
use backplaned_agents.Prelude.{
  nat_eq, list_eq, option_eq, Text, ◌≤◌, ◌≡◌, refl, inl, inr, false, List, [], ◌∷◌, ◌++◌, arith,
  Option-cases,
}
use backplaned_agents.State.{TaskRow, Db, find_task, update_task}
use backplaned_agents.State.Transitions.{find-update}
use backplaned_agents.State.Histories.{
  Attempt, attempt, IsAccounted, ends, ended, endings-append, attempt-IsAccounted,
}
use backplaned_agents.Tasks.App.{NewTaskFrame}
use backplaned_agents.Tasks.Delegate.{handed_to, delegated_event}
use backplaned_agents.Tasks.Handover.{IsHeld}
use backplaned_agents.Admit.Queries.{NewTask, new_row}
use backplaned_agents.Admit.Admission.{admitted_event}
use backplaned_agents.Admit.Frozen.{frozen_update, frozen-attempt}
use backplaned_agents.Admit.Created.{HasUniqueKeys, IsForest, IsCreated, still_found}
use backplaned_agents.Admit.Ids.{HasUniqueIds, same_ids, created_ids}
use backplaned_agents.Admit.Kept.{created_keys, created-IsForest, same_keys, same-IsForest}

abbrev pub handed_db : Db → NewTaskFrame → Text → Db
handed_db db frame caller = record db {
  tasks = update_task frame.task_id (handed_to frame.destination_agent_id) db.tasks;
  events = db.events ++ delegated_event frame.task_id caller frame.destination_agent_id ∷ [];
}

pub data Step (db : Db) : Db → Type 0 where
  moves : (more : List Attempt) → Step db (attempt db more)
  hands_over :
      (frame : NewTaskFrame) (caller : Text)
      → IsHeld db frame caller
      → Step db (handed_db db frame caller)
  creates :
      (task_id caller : Text) (t : NewTask) (db' : Db) (row : TaskRow)
      → IsCreated db task_id t db' row
      → Step db (record db' { events = db'.events ++ admitted_event row.task_id caller ∷ [] })

pub data Steps : Db → Db → Type 0 where
  stay : {db : Db} → Steps db db
  step : {a b c : Db} → Step a b → Steps b c → Steps a c

pub Steps-trans : {a b c : Db} → Steps a b → Steps b c → Steps a c
Steps-trans stay more = more
Steps-trans (step s rest) more = step s (Steps-trans rest more)

-- what holds of the tables at all times
pub record IsSound (db : Db) : Type 0 where
  pub ids : HasUniqueIds db.tasks
  pub keys : HasUniqueKeys db.tasks
  pub forest : IsForest db.tasks
  pub accounted : IsAccounted db

hand_over_accounted :
    (db : Db) (frame : NewTaskFrame) (caller : Text)
    → IsAccounted db
    → IsAccounted (handed_db db frame caller)
unfolding ended
hand_over_accounted db frame caller acc other = ground (
  arith,
  acc other,
  endings-append other db.events (delegated_event frame.task_id caller frame.destination_agent_id),
  find-update frame.task_id other (handed_to frame.destination_agent_id) db.tasks (λ r. refl),
)

ended_append :
    (other : Text) (rows : List TaskRow) (new : TaskRow)
    → ended (find_task other rows) ≤ ended (find_task other (rows ++ new ∷ []))
unfolding ended
ended_append other rows new = elim (Option-cases (find_task other rows)) [
  | inl e ↦ rw e (omega arith)
  | inr (row, e) ↦ rw (e, still_found other rows new row e) (omega arith)
]

no_end : (other task_id caller : Text) → ends other (admitted_event task_id caller) ≡ false
no_end other task_id caller = ground arith

create_accounted :
    (db : Db) (task_id caller : Text) (t : NewTask) (db' : Db) (row : TaskRow)
    → IsCreated db task_id t db' row
    → IsAccounted db
    → IsAccounted (record db' { events = db'.events ++ admitted_event row.task_id caller ∷ [] })
unfolding ended
create_accounted db task_id caller t db' row made acc other = rw made.appended (
    ground (
      arith,
      acc other,
      endings-append other db.events (admitted_event row.task_id caller),
      no_end other row.task_id caller,
      ended_append other db.tasks (new_row task_id made.root t),
    ))

pub Step-IsSound : {db db' : Db} → Step db db' → IsSound db → IsSound db'
Step-IsSound {db} (moves more) s = record {
  ids = same_ids db.tasks _ (frozen-attempt more db) s.ids;
  keys = same_keys db.tasks _ (frozen-attempt more db) s.keys;
  forest = same-IsForest db.tasks _ (frozen-attempt more db) s.forest;
  accounted = attempt-IsAccounted db more s.accounted;
}
Step-IsSound {db} (hands_over frame caller held) s =
    let same =
      frozen_update frame.task_id (handed_to frame.destination_agent_id) db.tasks (λ r. refl) in
    record {
      ids = same_ids db.tasks _ same s.ids;
      keys = same_keys db.tasks _ same s.keys;
      forest = same-IsForest db.tasks _ same s.forest;
      accounted = hand_over_accounted db frame caller s.accounted;
    }
Step-IsSound {db} (creates task_id caller t db' row made) s = record {
  ids = created_ids made s.ids;
  keys = created_keys made s.keys;
  forest = created-IsForest made s.forest;
  accounted = create_accounted db task_id caller t db' row made s.accounted;
}

pub Steps-IsSound : {db db' : Db} → Steps db db' → IsSound db → IsSound db'
Steps-IsSound stay s = s
Steps-IsSound (step one more) s = Steps-IsSound more (Step-IsSound one s)
