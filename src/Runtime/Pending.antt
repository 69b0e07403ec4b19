-- ===== src/Runtime/Pending.antt =====
-- engine-core/src/runtime/pending.rs: what an instance waits for.
use bpmninja.Prelude.{ℕ, String, Bool, Option, Map}
use bpmninja.Prelude.Int.{ℤ}
use bpmninja.Domain.Error.{Uuid}
use bpmninja.Domain.Timer.{TimerDefinition}

pub record PendingUserTask : Type 0 where
  pub task_id : Uuid
  pub instance_id : Uuid
  pub node_id : String
  pub assignee : String
  pub token_id : Uuid
  pub created_at : ℕ
  pub business_key : Option String

pub record PendingServiceTask (V : Type 0) : Type 0 where
  pub id : Uuid
  pub instance_id : Uuid
  pub definition_key : Uuid
  pub node_id : String
  pub topic : String
  pub token_id : Uuid
  pub business_key : Option String
  pub variables_snapshot : Map String V
  pub created_at : ℕ
  pub worker_id : Option String
  pub lock_expiration : Option ℕ
  pub retries : ℤ
  pub error_message : Option String
  pub error_details : Option String

pub record PendingTimer : Type 0 where
  pub id : Uuid
  pub instance_id : Uuid
  pub node_id : String
  pub expires_at : ℕ
  pub token_id : Uuid
  pub timer_def : Option TimerDefinition
  pub remaining_repetitions : Option ℕ

pub record PendingMessageCatch : Type 0 where
  pub id : Uuid
  pub instance_id : Uuid
  pub node_id : String
  pub message_name : String
  pub token_id : Uuid

pub record PendingSignalCatch : Type 0 where
  pub id : Uuid
  pub instance_id : Uuid
  pub node_id : String
  pub signal_name : String
  pub token_id : Uuid

pub record PendingConditionalCatch : Type 0 where
  pub id : Uuid
  pub instance_id : Uuid
  pub node_id : String
  pub condition : String
  pub token_id : Uuid
  pub last_result : Bool
