-- ===== src/Tasks/Handing.antt =====
-- The theorems on handing tasks on, at a concrete table.
use backplaned_agents.Prelude.{
  nat_eq, list_eq, option_eq, Text, codes, ◌≤◌, ◌≡◌, refl, ◌↔◌, inl, true, Option, none, some, [],
  ◌∷◌, length,
}
use backplaned_agents.Acl.Rules.{Rule, allow}
use backplaned_agents.State.{running, find_task}
use backplaned_agents.Tasks.App.{NewTaskFrame}
use backplaned_agents.Tasks.Checks.{Setting, AgentRow, destinations}
use backplaned_agents.Tasks.Delegate.{begin_delegation, finish_delegation, Answer, acks}
use backplaned_agents.Tasks.Handover.{DidAccept, IsHeld, finish_iff}
use backplaned_agents.Tasks.Chain.{NoRepeat, chain_bounded}
use backplaned_agents.Tasks.Examples.{row, app}

program : Unit {0}
unfolding find_task begin_delegation finish_delegation destinations
program = tt

abbrev agent : Text → Option AgentRow
agent id =
    some (record { view = record { agent_id = id; groups = []; capabilities = [] }; active = true })

abbrev everyone : Rule
everyone = record {
  rule_id = none;
  ord = 0;
  name = none;
  description = none;
  effect = allow;
  user_level = codes "*";
  caller_pattern = codes "*/*";
  callee_pattern = codes "*/*";
}

abbrev setting : Setting
setting = record {
  get_agent = agent;
  session_level = λ u. some (codes "tier0");
  rules = everyone ∷ [];
  task_delegation_max_depth = 2;
  pending_ack_timeout_s = none;
}

abbrev frame : NewTaskFrame
frame = record {
  task_id = codes "t1";
  parent_task_id = none;
  destination_agent_id = codes "b";
  user_id = codes "u";
  user_level = [];
  session_id = codes "s";
  deadline = none;
  idempotency_key = none;
  input_mode = none;
  payload = [];
  delegating_agent_id = none;
}

abbrev yes : Answer
yes = acks (record { accepted = true; reason = none })

held : IsHeld app.db frame (codes "a")
unfolding program
held = record {
  row = row (codes "t1") none running;
  found = refl;
  of_user = refl;
  unended = refl;
  executes = refl;
}

finish_iff_example :
    ((finish_delegation app frame (codes "a") (codes "c1") yes).1 ≡ inl (codes "t1"))
    ↔ (DidAccept yes × IsHeld app.db frame (codes "a"))
finish_iff_example = finish_iff app frame (codes "a") (codes "c1") yes

waits_for_ack : (begin_delegation app setting frame (codes "a") (codes "c1") 10).1 ≡ inl 0
unfolding program
waits_for_ack = refl

chain_bounded_example :
    let chain =
      destinations
        (codes "t1")
        (finish_delegation app frame (codes "a") (codes "c1") yes).0.db.events in
    (length chain ≤ 2) × NoRepeat (held.row.agent_id ∷ chain)
unfolding program
chain_bounded_example =
    chain_bounded app app setting frame (codes "a") (codes "c1") 10 0 yes held waits_for_ack refl
      refl (refl, tt) refl
