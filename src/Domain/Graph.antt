-- ===== src/Domain/Graph.antt =====
-- The data of engine-core/src/domain/definition.rs and its queries on the process graph.
-- `ProcessDefinition` holds the fields of one scope; `DefinitionTree` adds `sub_processes`.
use bpmninja.Prelude.{
  ℕ, String, Bool, true, false, ◌&&◌, Option, none, some, List, [], ◌∷◌, ◌++◌, Map, get, values,
  ◌==◌, string_eq, if◌then◌else◌, leb, length, select, any, find,
}
use bpmninja.Prelude.Int.{ℤ}
use bpmninja.Domain.Error.{Uuid}
use bpmninja.Domain.Element.{
  BpmnElement, SequenceFlow, ExecutionListener, ScopeEventListener, EventSubProcessTrigger,
}
use bpmninja.Domain.Data.{ActivityMappings}

-- event_subprocess.rs
pub record EventSubProcess : Type 0 where
  pub id : String
  pub start_node : String
  pub node_ids : List String
  pub trigger : EventSubProcessTrigger
  pub is_interrupting : Bool

abbrev pub Nodes : Type 0
Nodes = Map String BpmnElement

abbrev pub Flows : Type 0
Flows = Map String (List SequenceFlow)

pub record ProcessDefinition (V : Type 0) : Type 0 where
  pub key : Uuid
  pub id : String
  pub version : ℤ
  pub nodes : Nodes
  pub flows : Flows
  pub listeners : Map String (List ExecutionListener)
  pub event_listeners : List ScopeEventListener
  pub event_subprocesses : List EventSubProcess
  pub data_variables : List String
  pub variable_defaults : Map String V
  pub data_mappings : Map String (ActivityMappings V)

mutual
  pub data DefinitionTree (V : Type 0) : Type 0 where
    tree : ProcessDefinition V → SubProcesses V → DefinitionTree V

  pub data SubProcesses (V : Type 0) : Type 0 where
    no_subs : SubProcesses V
    sub : DefinitionTree V → SubProcesses V → SubProcesses V

abbrev pub is_start : BpmnElement → Bool
is_start BpmnElement.start_event = true
is_start (BpmnElement.timer_start_event _) = true
is_start (BpmnElement.message_start_event _) = true
is_start (BpmnElement.signal_start_event _) = true
is_start _ = false

abbrev pub is_gateway : BpmnElement → Bool
is_gateway (BpmnElement.exclusive_gateway _) = true
is_gateway BpmnElement.inclusive_gateway = true
is_gateway BpmnElement.parallel_gateway = true
is_gateway BpmnElement.event_based_gateway = true
is_gateway (BpmnElement.complex_gateway _ _) = true
is_gateway _ = false

-- `flows.get(id).map_or(&[], …)`
unfoldable pub outgoing_flows : Flows → String → List SequenceFlow
outgoing_flows flows from_id = elim (get from_id flows) [ none ↦ [] | some fs ↦ fs ]

-- The target of the only flow.
abbrev pub single_target : List SequenceFlow → Option String
single_target (sf ∷ []) = some sf.target
single_target _ = none

-- `flows.values().flat_map(|f| f.iter())`
unfoldable pub all_flows : List (List SequenceFlow) → List SequenceFlow
all_flows [] = []
all_flows (fs ∷ rest) = fs ++ all_flows rest

unfoldable pub incoming_count : Flows → String → ℕ
unfolding all_flows
incoming_count flows node_id =
    length (select (λ sf. sf.target == node_id) (all_flows (values flows)))

module _ {V : Type 0} (def : ProcessDefinition V) where
  unfoldable pub event_subprocess_node : String → Bool
  event_subprocess_node id =
      any (λ handler. any (λ node. node == id) handler.node_ids) def.event_subprocesses

  unfoldable pub event_subprocess_by_id : String → Option EventSubProcess
  event_subprocess_by_id id = find (λ handler. handler.id == id) def.event_subprocesses

  unfoldable pub start_event : Option (String × BpmnElement)
  unfolding event_subprocess_node
  start_event = find (λ e. if event_subprocess_node e.0 then false else is_start e.1) def.nodes

  unfoldable pub get_node : String → Option BpmnElement
  get_node id = get id def.nodes

  unfoldable pub next_nodes : String → List SequenceFlow
  unfolding outgoing_flows
  next_nodes from_id = outgoing_flows def.flows from_id

  unfoldable pub next_node : String → Option String
  unfolding next_nodes
  next_node from_id = single_target (next_nodes from_id)

  unfoldable pub incoming_flow_count : String → ℕ
  unfolding incoming_count
  incoming_flow_count node_id = incoming_count def.flows node_id

  unfoldable pub is_join_gateway : String → Bool
  unfolding incoming_flow_count
  is_join_gateway node_id = leb 2 (incoming_flow_count node_id)

  unfoldable pub is_split_gateway : String → Bool
  unfolding next_nodes
  is_split_gateway node_id = elim (get node_id def.nodes) [
    | none ↦ false
    | some element ↦ is_gateway element && leb 2 (length (next_nodes node_id))
  ]
