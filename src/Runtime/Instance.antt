-- ===== src/Runtime/Instance.antt =====
-- The types of engine-core/src/runtime/instance.rs, and `EventSubscription` of
-- engine-core/src/domain/event_subprocess.rs. `V` is the type of JSON values.
use bpmninja.Prelude.{ℕ, String, Bool, Option, List, Map}
use bpmninja.Prelude.Int.{ℤ}
use bpmninja.Domain.Error.{Uuid, MappingReason}
use bpmninja.Domain.Token.{Token}
use bpmninja.Domain.Incident.{Incident}
use bpmninja.Runtime.Pending.{
  PendingUserTask, PendingServiceTask, PendingTimer, PendingMessageCatch, PendingSignalCatch,
  PendingConditionalCatch,
}

-- `Actions` is the list inside `WaitForEventGroup`.
mutual
  pub data NextAction (V : Type 0) : Type 0 where
    continue : Token V → NextAction V
    continue_multiple : List (Token V) → NextAction V
    wait_for_user : PendingUserTask → NextAction V
    wait_for_service_task : PendingServiceTask V → NextAction V
    wait_for_join : (gateway_id : String) (token : Token V) → NextAction V
    wait_for_timer : PendingTimer → NextAction V
    wait_for_message : PendingMessageCatch → NextAction V
    wait_for_signal : PendingSignalCatch → NextAction V
    wait_for_condition : PendingConditionalCatch → NextAction V
    wait_for_event_group : Actions V → NextAction V
    complete : NextAction V
    error_end : (error_code : String) → NextAction V
    escalation_end : (escalation_code : String) → NextAction V
    spawn_and_continue : (main : Token V) (spawned : List (Token V)) → NextAction V
    interrupt_scope : Token V → NextAction V
    terminate : NextAction V
    wait_for_call_activity : (called_element : String) (token : Token V) → NextAction V
    multi_instance_fork : (node_id : String) (tokens : List (Token V)) → NextAction V
    multi_instance_next : (node_id : String) (token : Token V) → NextAction V

  pub data Actions (V : Type 0) : Type 0 where
    no_actions : Actions V
    action : NextAction V → Actions V → Actions V

pub record MultiInstanceProgress (V : Type 0) : Type 0 where
  pub node_id : String
  pub total : ℕ
  pub completed : ℕ
  pub sequential_token : Option (Token V)
  pub items : List (Option V)

pub data InstanceState (V : Type 0) : Type 0 where
  running : InstanceState V
  waiting_on_user_task : (task_id : Uuid) → InstanceState V
  waiting_on_service_task : (task_id : Uuid) → InstanceState V
  waiting_on_timer : (timer_id : Uuid) → InstanceState V
  waiting_on_message : (message_id : Uuid) → InstanceState V
  waiting_on_signal : (catch_id : Uuid) → InstanceState V
  waiting_on_condition : (catch_id : Uuid) → InstanceState V
  waiting_on_event_based_gateway : InstanceState V
  parallel_execution : (active_token_count : ℕ) → InstanceState V
  waiting_on_call_activity : (sub_instance_id : Uuid) (token : Token V) → InstanceState V
  completed : InstanceState V
  completed_with_error : (error_code : String) → InstanceState V
  suspended : (previous_state : InstanceState V) → InstanceState V

pub record ActiveToken (V : Type 0) : Type 0 where
  pub token : Token V
  pub fork_id : Option String
  pub branch_index : ℕ
  pub completed : Bool

pub record JoinBarrier (V : Type 0) : Type 0 where
  pub gateway_node_id : String
  pub expected_count : ℕ
  pub arrived_tokens : List (Token V)

pub record CompensationRecord : Type 0 where
  pub activity_id : String
  pub handler_node_id : String

pub record OutstandingCall (V : Type 0) : Type 0 where
  pub node_id : String
  pub token : Token V

pub record EventSubscription : Type 0 where
  pub id : Uuid
  pub subprocess_id : String
  pub next_due : Option ℕ
  pub remaining : Option ℕ

-- The texts that the modelled operations write to the audit log: the format and its arguments.
pub data AuditEntry : Type 0 where
  token_arrived : (gateway_id : String) (arrived expected : ℕ) → AuditEntry
  join_condition_met : (gateway_id : String) → AuditEntry
  join_completed : (gateway_id : String) → AuditEntry
  incident_raised : (node_id message : String) → AuditEntry
  incident_retried : (node_id : String) (retries : ℤ) → AuditEntry
  scope_closed scope_interrupted every_token_completed process_terminated : AuditEntry
  step_limit_exceeded : (limit : ℕ) → AuditEntry
  mapping_failed : MappingReason → AuditEntry
  error_ended escalation_ended : (code : String) → AuditEntry
  call_activity_failed : (error_code : String) → AuditEntry
  handler_activated : (subprocess_id : String) (interrupting : Bool) → AuditEntry
  instance_paused instance_unpaused : AuditEntry

pub record ProcessInstance (V : Type 0) : Type 0 where
  pub id : Uuid
  pub definition_key : Uuid
  pub business_key : String
  pub parent_instance_id : Option Uuid
  pub state : InstanceState V
  pub current_node : String
  pub audit_log : List AuditEntry
  pub variables : Map String V
  pub tokens : Map Uuid (Token V)
  pub active_tokens : List (ActiveToken V)
  pub join_barriers : Map String (JoinBarrier V)
  pub multi_instance_state : Map String (MultiInstanceProgress V)
  pub compensation_log : List CompensationRecord
  pub outstanding_calls : Map Uuid (OutstandingCall V)
  pub started_at : Option ℕ
  pub completed_at : Option ℕ
  pub incidents : List Incident
  pub event_subscriptions : List EventSubscription
  pub event_handler_tokens : Map Uuid String
  pub event_scope : Bool
