-- ===== src/Dispatch/Examples.antt =====
-- The theorems on frames of agents, at two tasks.
use backplaned_agents.Prelude.{
  nat_eq, list_eq, option_eq, Text, codes, lookup, ◌≡◌, refl, sym, ◌≢◌, ◌⊎◌, Option, none, some, [],
  ◌∷◌, arith, some_inj,
}
use backplaned_agents.State.{TaskRow, running, find_task}
use backplaned_agents.Delivery.Given.{IsGiven}
use backplaned_agents.Delivery.{fanout_frame}
use backplaned_agents.Tasks.App.{App, progress_frame}
use backplaned_agents.Tasks.Cancelled.{HasEnded}
use backplaned_agents.Dispatch.{handle_progress, cancel_authorised}
use backplaned_agents.Tasks.Subtree.{itself}
use backplaned_agents.Dispatch.Progress.{progress_from_executor}
use backplaned_agents.Dispatch.Cancels.{
  IsAssignedAbove, here, above, cancel_needs_assignee, assignee_cancels,
}

program : Unit {0}
unfolding lookup find_task handle_progress cancel_authorised fanout_frame
program = tt

-- the id, the parent and the agent, which both tasks were called by "a" for
abbrev row : Text → Option Text → Text → TaskRow
row id parent agent_id = record {
  task_id = id;
  parent_task_id = parent;
  root_task_id = codes "t1";
  user_id = codes "u";
  session_id = codes "s";
  agent_id = agent_id;
  caller_agent_id = codes "a";
  active_agent_id = agent_id;
  state = running;
  idempotency_key = none;
  deadline = none;
  status_code = none;
  output = none;
  error = none;
}

abbrev app : App
app = record {
  db = record {
    tasks =
        row (codes "t1") none (codes "b") ∷ row (codes "t2") (some (codes "t1")) (codes "c") ∷ [];
    events = [];
  };
  hub = record {
    sockets = (codes "a", record { outbox = []; capacity = 4; inflight = [] }) ∷ [];
    acks = record { pending = []; futures = []; default_timeout = 30 };
    dropped = 0;
  };
  terminal_events = [];
  woken = [];
  caller_agent_cache = record {
    maxsize = 100;
    entries = (codes "t1", (codes "a", codes "b")) ∷ [];
  };
  llm_tasks = [];
}

progress_from_executor_example :
    let hub' = (handle_progress app (codes "b") (codes "t1") []).hub in
    (codes "b" ≡ codes "b" → IsGiven app.hub hub' (codes "a") (progress_frame (codes "t1") []))
    × (codes "b" ≢ codes "b" → hub' ≡ app.hub)
unfolding program
progress_from_executor_example =
    progress_from_executor app (codes "b") (codes "t1") [] (row (codes "t1") none (codes "b")) refl
      (λ entry h. (row (codes "t1") none (codes "b"), refl, sym (some_inj h)))

cancel_needs_assignee_example :
    (cancel_authorised app (codes "z") (codes "t2") (codes "stop") ≡ app)
    ⊎ IsAssignedAbove app.db.tasks (codes "u") (codes "z") 64 (codes "t2")
unfolding program
cancel_needs_assignee_example =
    cancel_needs_assignee app (codes "z") (codes "t2") (codes "stop")
      (row (codes "t2") (some (codes "t1")) (codes "c")) refl

assignee_cancels_example :
    HasEnded (codes "t2") (cancel_authorised app (codes "b") (codes "t2") (codes "stop")).db
unfolding program
assignee_cancels_example =
    assignee_cancels app (codes "b") (codes "t2") (codes "stop")
      (row (codes "t2") (some (codes "t1")) (codes "c"))
      (row (codes "t2") (some (codes "t1")) (codes "c")) (codes "t2") 0 refl
      (above (row (codes "t2") (some (codes "t1")) (codes "c")) (codes "t1") refl refl refl
        (here (row (codes "t1") none (codes "b")) refl refl refl))
      (omega arith) itself refl

-- another agent reaches nobody
spoofed : (handle_progress app (codes "z") (codes "t1") []).hub ≡ app.hub
unfolding program
spoofed = refl
