-- ===== src/Admit/Witnesses.antt =====
-- The theorems on admissions, at the router of Admit/Examples.antt.
use backplaned_agents.Prelude.{
  nat_eq, list_eq, option_eq, codes, ◌≤◌, ◌≡◌, refl, ◌⊎◌, none, some, [], ◌∷◌, arith,
}
use backplaned_agents.State.{TaskRow, find_task, running, queued}
use backplaned_agents.State.Histories.{endings}
use backplaned_agents.Tasks.Cancelled.{HasEnded}
use backplaned_agents.Tasks.Checks.{agent_disconnected, queue_is_full}
use backplaned_agents.Tasks.Delegate.{acks, times_out}
use backplaned_agents.Tasks.Replay.{AdmitResult}
use backplaned_agents.Admit.Queries.{count_task_chain_depth}
use backplaned_agents.Admit.Admission.{returns, refuses, check_admission, open_task}
use backplaned_agents.Admit.Closing.{close_admission}
use backplaned_agents.Admit.Steps.{IsSound}
use backplaned_agents.Admit.Lifecycle.{closes, calls, call}
use backplaned_agents.Admit.History.{tables-IsSound, ends_once, ended_row_final}
use backplaned_agents.Admit.Opened.{Written, refused_leaves_no_task}
use backplaned_agents.Admit.Waiting.{full_outbox_leaves_queued}
use backplaned_agents.Admit.Retry.{retry_joins}
use backplaned_agents.Admit.Depth.{alone, under, spawn_depth_bounded}
use backplaned_agents.Admit.Closed.{accepted_runs}
use backplaned_agents.Admit.Examples.{
  setting, router, frame, root, child, opening, row, yes_ack, failed_row, gave_up, waiting,
  stalled_socket, stalled, child_row, empty-IsSound, root_opens,
}

program : Unit {0}
unfolding find_task call calls check_admission open_task close_admission count_task_chain_depth
program = tt

tables-IsSound_example : IsSound (calls setting (router 4) (opening ∷ [])).app.db
tables-IsSound_example = tables-IsSound setting (router 4) (opening ∷ []) (empty-IsSound 4)

ends_once_example :
    endings
      (codes "t1")
      (calls setting
        (router 4)
        (opening ∷ closes row root (codes "c1") times_out ∷ [])).app.db.events
    ≤ 1
ends_once_example =
    ends_once setting (router 4) (opening ∷ closes row root (codes "c1") times_out ∷ [])
      (codes "t1") (empty-IsSound 4)

ended_row_final_example :
    find_task
      (codes "t1")
      (calls setting gave_up (closes row root (codes "c1") (acks yes_ack) ∷ [])).app.db.tasks
    ≡ some failed_row
unfolding program
ended_row_final_example =
    ended_row_final setting gave_up (closes row root (codes "c1") (acks yes_ack) ∷ []) (codes "t1")
      failed_row refl refl

refused_leaves_no_task_example :
    let r' =
      (open_task setting
        (router 4)
        (frame none (codes "z"))
        (codes "a")
        (codes "tier0")
        (codes "t1")
        (codes "c1")
        10).0 in
    (r' ≡ router 4) ⊎ HasEnded (codes "t1") r'.app.db ⊎ (agent_disconnected ≡ queue_is_full)
unfolding program
refused_leaves_no_task_example =
    refused_leaves_no_task setting (router 4) (frame none (codes "z")) (codes "a") (codes "tier0")
      (codes "t1") (codes "c1") 10 agent_disconnected refl

written : Written setting stalled root (codes "a") (codes "tier0") (codes "t1") (codes "c1") 10
unfolding program
written = record {
  row = row;
  table = record { tasks = row ∷ []; events = [] };
  made = record {
    root = codes "t1";
    rooted = refl;
    fresh = refl;
    free = refl;
    row_is = refl;
    appended = refl;
  };
  in_session = refl;
  result = refl;
}

full_outbox_leaves_queued_example :
    let (r', answer) =
      open_task setting stalled root (codes "a") (codes "tier0") (codes "t1") (codes "c1") 10 in
    (answer ≡ refuses queue_is_full)
    × ((row : TaskRow) × (find_task (codes "t1") r'.app.db.tasks ≡ some row) × (row.state ≡ queued))
unfolding program
full_outbox_leaves_queued_example =
    full_outbox_leaves_queued setting stalled root (codes "a") (codes "tier0") (codes "t1")
      (codes "c1") 10 stalled_socket refl refl written

retry_joins_example :
    let r' =
      calls setting (router 4) (opening ∷ closes row root (codes "c1") (acks yes_ack) ∷ []) in
    (result : AdmitResult) × (check_admission setting r' root (codes "a") 99 ≡ (r', returns result))
    × (result.task_id ≡ codes "t1")
retry_joins_example =
    retry_joins setting root (codes "a") 107 [] (router 4) (codes "tier0") (codes "t1") (codes "c1")
      10 99 row 0 (closes row root (codes "c1") (acks yes_ack) ∷ []) (empty-IsSound 4) refl
      root_opens

spawn_depth_bounded_example : 2 ≤ setting.spawn_max_depth
unfolding program
spawn_depth_bounded_example =
    spawn_depth_bounded setting waiting [] child (codes "a") (codes "tier0") (codes "t2")
      (codes "c2") 10 10 child_row 1 (codes "t1") row 2 (omega arith)
      (tables-IsSound setting (router 4) (opening ∷ []) (empty-IsSound 4)) refl refl refl refl
      (under child_row refl refl refl (alone row refl refl))

accepted_runs_example :
    let (app', answer) = close_admission waiting.app row root (codes "c1") (acks yes_ack) in
    (answer ≡ returns (record { task_id = codes "t1"; replay_result = none }))
    × ((now : TaskRow) × (find_task (codes "t1") app'.db.tasks ≡ some now) × (now.state ≡ running))
unfolding program
accepted_runs_example = accepted_runs waiting.app row row root (codes "c1") yes_ack refl refl refl
