-- ===== src/Admit/Examples.antt =====
-- A router with no tasks yet, and requests to it.
use backplaned_agents.Prelude.{
  nat_eq, list_eq, option_eq, Text, codes, ℕ, ◌≡◌, refl, true, false, Option, none, some, [], ◌∷◌,
  arith,
}
use backplaned_agents.Acl.Rules.{Rule, allow}
use backplaned_agents.State.{failed, TaskRow, find_task, queued}
use backplaned_agents.State.Histories.{endings, ended}
use backplaned_agents.Delivery.{Socket}
use backplaned_agents.Tasks.App.{cancel_frame}
use backplaned_agents.Tasks.App.{Ack, Frame, NewTaskFrame}
use backplaned_agents.Tasks.Checks.{Setting, AgentRow}
use backplaned_agents.Tasks.Delegate.{times_out}
use backplaned_agents.Admit.Queries.{count_task_chain_depth}
use backplaned_agents.Admit.Guards.{AdmitSetting, Router, valid}
use backplaned_agents.Admit.Admission.{goes_on, check_admission, open_task}
use backplaned_agents.Admit.Closing.{close_admission}
use backplaned_agents.Admit.Frozen.{none_not_some}
use backplaned_agents.Admit.Steps.{IsSound}
use backplaned_agents.Admit.Lifecycle.{Call, opens, closes, calls, call}

abbrev pub agent : Text → Option AgentRow
agent id =
    some (record { view = record { agent_id = id; groups = []; capabilities = [] }; active = true })

abbrev pub everyone : Rule
everyone = record {
  rule_id = none;
  ord = 0;
  name = none;
  description = none;
  effect = allow;
  user_level = codes "*";
  caller_pattern = codes "*/*";
  callee_pattern = codes "*/*";
}

abbrev pub common : Setting
common = record {
  get_agent = agent;
  session_level = λ u. some (codes "tier0");
  rules = everyone ∷ [];
  task_delegation_max_depth = 2;
  pending_ack_timeout_s = none;
}

-- a schema is a text here, and all payloads are valid
abbrev pub setting : AdmitSetting Text
setting = record {
  common = common;
  accepts_schema = λ a. (codes "chat", some (codes "{}")) ∷ [];
  validate = λ payload schema. valid;
  quota_admit = λ level. some (record { rate_per_s = 1; burst = 5 });
  spawn_max_depth = 2;
  default_task_deadline_s = 600;
  rehydrate = λ body. some body;
}

-- the capacity of the only socket
abbrev pub router : ℕ → Router
router capacity = record {
  app = record {
    db = record { tasks = []; events = [] };
    hub = record {
      sockets = (codes "b", record { outbox = []; capacity = capacity; inflight = [] }) ∷ [];
      acks = record { pending = []; futures = []; default_timeout = 30 };
      dropped = 0;
    };
    terminal_events = [];
    woken = [];
    caller_agent_cache = record { maxsize = 100; entries = [] };
    llm_tasks = [];
  };
  sessions = record { session_id = codes "s"; user_id = codes "u"; closed = false } ∷ [];
  admit_quota = record { maxsize = 8; entries = [] };
}

abbrev pub frame : Option Text → Text → NewTaskFrame
frame parent destination = record {
  task_id = [];
  parent_task_id = parent;
  destination_agent_id = destination;
  user_id = codes "u";
  user_level = [];
  session_id = codes "s";
  deadline = none;
  idempotency_key = some (codes "k");
  input_mode = none;
  payload = [];
  delegating_agent_id = none;
}

abbrev pub root : NewTaskFrame
root = frame none (codes "b")

abbrev pub child : NewTaskFrame
child = record (frame (some (codes "t1")) (codes "b")) { idempotency_key = none }

abbrev pub opening : Call
opening = opens root (codes "a") (codes "tier0") (codes "t1") (codes "c1") 10

pub empty-IsSound : (capacity : ℕ) → IsSound (router capacity).app.db
unfolding find_task endings ended
empty-IsSound capacity = record {
  ids = tt;
  keys = λ a b caller user key row row' f f' k k'. absurd (none_not_some refl f);
  forest = λ id row f. absurd (none_not_some refl f);
  accounted = λ id. omega arith;
}

abbrev pub row : TaskRow
row = record {
  task_id = codes "t1";
  parent_task_id = none;
  root_task_id = codes "t1";
  user_id = codes "u";
  session_id = codes "s";
  agent_id = codes "b";
  caller_agent_id = codes "a";
  active_agent_id = codes "b";
  state = queued;
  idempotency_key = some (codes "k");
  deadline = some 610;
  status_code = none;
  output = none;
  error = none;
}

abbrev pub yes_ack : Ack
yes_ack = record { accepted = true; reason = none }

program : Unit {0}
unfolding find_task call calls check_admission open_task close_admission count_task_chain_depth
program = tt

pub root_opens :
    (open_task setting (router 4) root (codes "a") (codes "tier0") (codes "t1") (codes "c1") 10).1
    ≡ goes_on (row, 0)
unfolding program
root_opens = refl

-- the destination did not answer in time
abbrev pub failed_row : TaskRow
failed_row = record row {
  state = failed;
  status_code = some 504;
  error = some ((codes "code", codes "ack_timeout") ∷ []);
}

abbrev pub gave_up : Router
gave_up = calls setting (router 4) (opening ∷ closes row root (codes "c1") times_out ∷ [])

abbrev pub waiting : Router
waiting =
    (open_task setting (router 4) root (codes "a") (codes "tier0") (codes "t1") (codes "c1") 10).0

-- the outbox of the destination is full
abbrev pub stalled_socket : Socket Frame
stalled_socket = record {
  outbox = cancel_frame (codes "t0") (codes "late") ∷ [];
  capacity = 1;
  inflight = [];
}

abbrev pub stalled : Router
stalled = record (router 1) {
  app = record (router 1).app {
    hub = record (router 1).app.hub { sockets = (codes "b", stalled_socket) ∷ [] };
  };
}

abbrev pub child_row : TaskRow
child_row = record row {
  task_id = codes "t2";
  parent_task_id = some (codes "t1");
  idempotency_key = none;
}
