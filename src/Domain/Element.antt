-- ===== src/Domain/Element.antt =====
-- engine-core/src/domain: element.rs, flow.rs, multi_instance.rs and listener.rs.
use bpmninja.Prelude.{String, Bool, Option, none, some}
use bpmninja.Domain.Timer.{TimerDefinition}

pub record MultiInstanceDef : Type 0 where
  pub is_sequential : Bool
  pub loop_cardinality : Option String
  pub collection : Option String
  pub element_variable : Option String

pub data BpmnElement : Type 0 where
  start_event : BpmnElement
  timer_start_event : TimerDefinition → BpmnElement
  end_event : BpmnElement
  terminate_end_event : BpmnElement
  service_task : (topic : String) (multi_instance : Option MultiInstanceDef) → BpmnElement
  user_task : String → BpmnElement
  script_task : (script : String) (multi_instance : Option MultiInstanceDef) → BpmnElement
  send_task : (message_name : String) (multi_instance : Option MultiInstanceDef) → BpmnElement
  exclusive_gateway : (default : Option String) → BpmnElement
  inclusive_gateway : BpmnElement
  parallel_gateway : BpmnElement
  event_based_gateway : BpmnElement
  complex_gateway : (join_condition default : Option String) → BpmnElement
  timer_catch_event : TimerDefinition → BpmnElement
  boundary_timer_event :
      (attached_to : String) (timer : TimerDefinition) (cancel_activity : Bool) → BpmnElement
  message_start_event : (message_name : String) → BpmnElement
  message_catch_event : (message_name : String) → BpmnElement
  boundary_message_event :
      (attached_to message_name : String) (cancel_activity : Bool) → BpmnElement
  signal_start_event : (signal_name : String) → BpmnElement
  signal_catch_event : (signal_name : String) → BpmnElement
  signal_throw_event : (signal_name : String) → BpmnElement
  signal_end_event : (signal_name : String) → BpmnElement
  boundary_signal_event : (attached_to signal_name : String) (cancel_activity : Bool) → BpmnElement
  conditional_catch_event : (condition : String) → BpmnElement
  boundary_conditional_event :
      (attached_to condition : String) (cancel_activity : Bool) → BpmnElement
  boundary_error_event : (attached_to : String) (error_code : Option String) → BpmnElement
  error_end_event : (error_code : String) → BpmnElement
  escalation_end_event : (escalation_code : String) → BpmnElement
  escalation_throw_event : (escalation_code : String) → BpmnElement
  boundary_escalation_event :
      (attached_to : String) (escalation_code : Option String) (cancel_activity : Bool)
      → BpmnElement
  compensation_throw_event : (activity_ref : Option String) → BpmnElement
  compensation_end_event : (activity_ref : Option String) → BpmnElement
  link_throw_event : (target : String) → BpmnElement
  boundary_compensation_event : (attached_to : String) → BpmnElement
  call_activity : (called_element : String) → BpmnElement
  embedded_sub_process : (start_node_id : String) → BpmnElement
  sub_process_end_event : (sub_process_id : String) → BpmnElement

pub record SequenceFlow : Type 0 where
  pub target : String
  pub condition : Option String

-- `SequenceFlow::simple` and `SequenceFlow::conditional`.
abbrev pub simple : String → SequenceFlow
simple target = record { target = target; condition = none }

abbrev pub conditional : String → String → SequenceFlow
conditional target condition = record { target = target; condition = some condition }

pub data ListenerEvent : Type 0 where
  start end : ListenerEvent

pub record ExecutionListener : Type 0 where
  pub event : ListenerEvent
  pub script : String

pub data ScopeEventListener : Type 0 where
  timer :
      (timer : TimerDefinition) (is_interrupting : Bool) (target_definition : String)
      → ScopeEventListener
  message :
      (message_name : String) (is_interrupting : Bool) (target_definition : String)
      → ScopeEventListener
  error : (error_code : Option String) (target_definition : String) → ScopeEventListener

-- event_subprocess.rs
pub data EventSubProcessTrigger : Type 0 where
  timer : TimerDefinition → EventSubProcessTrigger
  message signal : String → EventSubProcessTrigger
  error escalation : Option String → EventSubProcessTrigger
