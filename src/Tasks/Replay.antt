-- ===== src/Tasks/Replay.antt =====
-- bp_router/tasks.py `_idempotent_admit_result`: the answer to a NewTask whose idempotency key is
-- known already. A stored output is replayed as it is: what `_safe_rehydrate_output` makes of one is
-- a parameter.
use backplaned_agents.Prelude.{nat_eq, list_eq, option_eq, Text, Option, none, some}
use backplaned_agents.State.{TaskRow, Body}
use backplaned_agents.Tasks.App.{TaskStatus, status_from_state, default_status_code, ResultFrame}

pub record AdmitResult : Type 0 where
  pub task_id : Text
  pub replay_result : Option ResultFrame

abbrev pub replay_frame : (Body → Option Body) → TaskRow → TaskStatus → ResultFrame
replay_frame rehydrate existing status = record {
  agent_id = existing.agent_id;
  task_id = existing.task_id;
  parent_task_id = existing.parent_task_id;
  status = status;
  status_code = elim existing.status_code [ none ↦ default_status_code status | some code ↦ code ];
  output = elim existing.output [ none ↦ none | some stored ↦ rehydrate stored ];
  error = existing.error;
}

unfoldable pub idempotent_admit_result : (Body → Option Body) → TaskRow → AdmitResult
idempotent_admit_result rehydrate existing = record {
  task_id = existing.task_id;
  replay_result = elim (status_from_state existing.state) [
    | none ↦ none
    | some status ↦ some (replay_frame rehydrate existing status)
  ];
}
