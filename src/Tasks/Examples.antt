-- ===== src/Tasks/Examples.antt =====
-- The theorems on ending tasks and handing them on, at concrete tables.
use backplaned_agents.Prelude.{
  ◌==◌, nat_eq, list_eq, option_eq, Text, codes, lookup, ◌≡◌, refl, ◌↔◌, false, Option, none, some,
  List, [], ◌∷◌, arith,
}
use backplaned_agents.State.{TaskState, running, succeeded, queued, TaskRow, find_task}
use backplaned_agents.State.Histories.{endings, ended, IsAccounted}
use backplaned_agents.Tasks.App.{TaskStatus, status_succeeded, ResultFrame, result_frame, App}
use backplaned_agents.Tasks.Complete.{forwarded, forwarded_frame, complete_task}
use backplaned_agents.Tasks.Cancel.{cancel_task}
use backplaned_agents.Tasks.Fail.{Failure, fails, fail_task, sweep_once}
use backplaned_agents.Tasks.Replay.{idempotent_admit_result}
use backplaned_agents.Tasks.Checks.{destinations}
use backplaned_agents.Tasks.Delegate.{begin_delegation, finish_delegation}
use backplaned_agents.Tasks.Results.{IsDue, forwarded_iff, due_effect}
use backplaned_agents.Tasks.Cancelled.{HasEnded}
use backplaned_agents.Tasks.Subtree.{itself, deeper, cancel_ends_subtree}
use backplaned_agents.Delivery.Given.{IsGiven}
use backplaned_agents.Tasks.Reaches.{Handler, completes, cancels, sweeps}
use backplaned_agents.Tasks.Failed.{sweep_ends_expired}
use backplaned_agents.Tasks.Replayed.{ended_row, replay_reproduces}

program : Unit {0}
unfolding lookup find_task complete_task cancel_task fail_task sweep_once begin_delegation
    finish_delegation endings ended destinations
program = tt

abbrev pub row : Text → Option Text → TaskState → TaskRow
row id parent state = record {
  task_id = id;
  parent_task_id = parent;
  root_task_id = codes "t1";
  user_id = codes "u";
  session_id = codes "s";
  agent_id = codes "a";
  caller_agent_id = codes "c";
  active_agent_id = codes "a";
  state = state;
  idempotency_key = none;
  deadline = some 5;
  status_code = none;
  output = none;
  error = none;
}

-- a running task, and a child in some state
abbrev pub app_with : TaskState → App
app_with child = record {
  db = record {
    tasks = row (codes "t1") none running ∷ row (codes "t2") (some (codes "t1")) child ∷ [];
    events = [];
  };
  hub = record {
    sockets =
        (codes "b", record { outbox = []; capacity = 4; inflight = [] })
        ∷ (codes "c", record { outbox = []; capacity = 4; inflight = [] })
        ∷ [];
    acks = record { pending = []; futures = []; default_timeout = 30 };
    dropped = 0;
  };
  terminal_events = codes "t1" ∷ [];
  woken = [];
  caller_agent_cache = record { maxsize = 100; entries = [] };
  llm_tasks = [];
}

abbrev pub app : App
app = app_with queued

abbrev result : Text → TaskStatus → ResultFrame
result id status = record {
  agent_id = codes "a";
  task_id = id;
  parent_task_id = none;
  status = status;
  status_code = 200;
  output = some ((codes "content", codes "hi") ∷ []);
  error = none;
}

abbrev ok : ResultFrame
ok = result (codes "t1") status_succeeded

due : IsDue app ok (codes "a")
unfolding program
due = record { row = row (codes "t1") none running; found = refl; executes = refl; may = refl }

forwarded_iff_example :
    ((complete_task app ok (codes "a")).1 ≡ forwarded) ↔ IsDue app ok (codes "a")
forwarded_iff_example = forwarded_iff app ok (codes "a")

due_effect_example :
    let app' = (complete_task app ok (codes "a")).0 in
    ((r : TaskRow) × (find_task (codes "t1") app'.db.tasks ≡ some r) × (r.state ≡ succeeded))
    × ((codes "t1" == codes "t2") ≡ false
        → find_task (codes "t2") app'.db.tasks ≡ find_task (codes "t2") app.db.tasks)
    × IsGiven app.hub app'.hub due.row.caller_agent_id
        (result_frame (forwarded_frame due.row ok (codes "a")))
due_effect_example = due_effect app ok (codes "a") due (codes "t2")

cancel_ends_subtree_example :
    HasEnded (codes "t2") (cancel_task app (codes "t1") (codes "u") [] []).0.db
unfolding program
cancel_ends_subtree_example =
    cancel_ends_subtree app (codes "t1") (codes "u") [] [] (codes "t2") 1
      (row (codes "t2") (some (codes "t1")) queued) (omega arith)
      (deeper (row (codes "t2") (some (codes "t1")) queued) itself refl refl refl) refl

fresh : IsAccounted app.db
unfolding program
fresh id = omega arith

abbrev race : List Handler
race =
    completes ok (codes "a")
    ∷ cancels (codes "t1") (codes "u") [] []
    ∷ sweeps 9
    ∷ completes ok (codes "a")
    ∷ []

abbrev failure : Failure
failure = record {
  user_id = none;
  status_code = 503;
  reason = codes "lost";
  error = none;
  actor_agent_id = none;
  ending = fails;
}

sweep_ends_expired_example : HasEnded (codes "t1") (sweep_once app 9).0.db
unfolding program
sweep_ends_expired_example =
    sweep_ends_expired app 9 (codes "t1") (row (codes "t1") none running) 5 (omega arith) refl refl
      (omega arith) refl

replay_reproduces_example :
    let r = ended_row ok (codes "a") due.row in
    (find_task (codes "t1") (complete_task app ok (codes "a")).0.db.tasks ≡ some r)
    × ((idempotent_admit_result some r).replay_result
        ≡ some (record (forwarded_frame due.row ok due.row.agent_id) {
          task_id = due.row.task_id;
          output = ok.output;
        }))
unfolding due
replay_reproduces_example = replay_reproduces some app ok (codes "a") due refl refl refl
