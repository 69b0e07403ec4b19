-- ===== src/Tests/Samples.antt =====
-- A small process, tokens, tasks and an engine.
use bpmninja.Prelude.{
  ℕ, String, Bool, false, Option, none, some, [], ◌∷◌, Map, string_eq, ◌==◌, contains_key,
}
use bpmninja.Prelude.Int.{pos}
use bpmninja.Domain.Error.{Uuid}
use bpmninja.Domain.Timer.{Calendar}
use bpmninja.Domain.Element.{BpmnElement, simple, conditional}
use bpmninja.Domain.Data.{Json, ActivityMappings, MappingValue}
use bpmninja.Domain.Token.{Token}
use bpmninja.Domain.Incident.{Incident, IncidentKind}
use bpmninja.Domain.Graph.{ProcessDefinition, Nodes, Flows}
use bpmninja.Runtime.Instance.{ProcessInstance, InstanceState}
use bpmninja.Runtime.Pending.{PendingServiceTask}
use bpmninja.Runtime.State.{Engine}

abbrev pub json : Json ℕ
json = record { array = λ _. 0; object = λ _. 0; is_blank = λ s. s == "" }

-- A condition holds if the variable of that name is there.
abbrev pub holds : String → Map String ℕ → Bool
holds condition variables = contains_key condition variables

abbrev pub calendar : Calendar
calendar = record { from_std = λ d. some d; next_occurrence = λ expression at. none }

abbrev pub ids : ℕ → Uuid
ids k = 100

-- A fork and a join around two tasks, then a choice.
abbrev pub nodes : Nodes
nodes =
    ("start", BpmnElement.start_event)
    ∷ ("fork", BpmnElement.parallel_gateway)
    ∷ ("a", BpmnElement.service_task "print" none)
    ∷ ("b", BpmnElement.user_task "ann")
    ∷ ("join", BpmnElement.parallel_gateway)
    ∷ ("choice", BpmnElement.exclusive_gateway (some "end"))
    ∷ ("end", BpmnElement.end_event)
    ∷ []

abbrev pub flows : Flows
flows =
    ("start", simple "fork" ∷ [])
    ∷ ("fork", simple "a" ∷ simple "b" ∷ [])
    ∷ ("a", simple "join" ∷ [])
    ∷ ("b", simple "join" ∷ [])
    ∷ ("join", simple "choice" ∷ [])
    ∷ ("choice", conditional "a" "again" ∷ simple "end" ∷ [])
    ∷ []

abbrev pub mappings : ActivityMappings ℕ
mappings = record {
  inputs =
      record { target = "copies"; value = MappingValue.literal 2 }
      ∷ record { target = "page"; value = MappingValue.variable "count" }
      ∷ [];
  outputs = [];
  call_inputs = none;
  call_outputs = none;
}

abbrev pub process : ProcessDefinition ℕ
process = record {
  key = 1;
  id = "printing";
  version = pos 1;
  nodes = nodes;
  flows = flows;
  listeners = [];
  event_listeners = [];
  event_subprocesses = [];
  data_variables = [];
  variable_defaults = [];
  data_mappings = ("a", mappings) ∷ [];
}

abbrev pub token_at : Uuid → String → Map String ℕ → Token ℕ
token_at id node variables = record {
  id = id;
  current_node = node;
  variables = variables;
  is_merged = false;
  data_scope = none;
}

abbrev pub incident : Uuid → Option String → Incident
incident id node_id = record {
  id = id;
  kind = IncidentKind.service_task;
  node_id = node_id;
  task_id = some 7;
  message = "out of paper";
  details = none;
  created_at = 5;
  last_seen_at = 5;
  occurrences = 1;
  resolved_at = none;
  resolved_by = none;
}

abbrev pub instance_one : ProcessInstance ℕ
instance_one = record {
  id = 2;
  definition_key = 1;
  business_key = "order";
  parent_instance_id = none;
  state = InstanceState.running;
  current_node = "fork";
  audit_log = [];
  variables = [];
  tokens = [];
  active_tokens = [];
  join_barriers = [];
  multi_instance_state = [];
  compensation_log = [];
  outstanding_calls = [];
  started_at = some 0;
  completed_at = none;
  incidents = incident 9 (some "a") ∷ [];
  event_subscriptions = [];
  event_handler_tokens = [];
  event_scope = false;
}

abbrev pub task : Option String → Option ℕ → PendingServiceTask ℕ
task worker_id lock_expiration = record {
  id = 7;
  instance_id = 2;
  definition_key = 1;
  node_id = "a";
  topic = "print";
  token_id = 3;
  business_key = none;
  variables_snapshot = [];
  created_at = 5;
  worker_id = worker_id;
  lock_expiration = lock_expiration;
  retries = pos 1;
  error_message = none;
  error_details = none;
}

abbrev pub empty_engine : Engine ℕ
empty_engine = record {
  definitions = (1, process) ∷ [];
  instances = (2, instance_one) ∷ [];
  pending_user_tasks = [];
  pending_service_tasks = [];
  service_task_topic_index = [];
  task_handlers = [];
  in_process_inflight = [];
  pending_timers = [];
  timer_due_index = [];
  pending_message_catches = [];
  pending_signal_catches = [];
  pending_conditional_catches = [];
  effects = [];
}

abbrev pub engine_with : PendingServiceTask ℕ → Engine ℕ
engine_with t = record empty_engine {
  pending_service_tasks = (7, t) ∷ [];
  service_task_topic_index = ("print", 7 ∷ []) ∷ [];
}
