-- ===== src/Domain/Definition/Validation.antt =====
-- `ProcessDefinition::new`: the checks in the order of the source. The first that fails decides
-- the error; the loops follow the iteration order of the maps.
use bpmninja.Prelude.{
  String, Bool, true, false, ◌&&◌, Option, none, some, List, [], ◌∷◌, Map, get, contains_key,
  values, string_eq, if◌then◌else◌, ltb, nat_beq, length, select,
}
use bpmninja.Prelude.Int.{ℤ}
use bpmninja.Domain.Error.{
  Uuid, EngineResult, EngineError, ok, err, ◌>>◌, Reason, invalid_definition, no_such_node,
}
use bpmninja.Domain.Element.{BpmnElement, SequenceFlow, ExecutionListener, ScopeEventListener}
use bpmninja.Domain.Graph.{
  Nodes, Flows, ProcessDefinition, DefinitionTree, SubProcesses, tree, is_start, is_gateway,
  outgoing_flows, incoming_count,
}

abbrev pub Check : Type 0
Check = EngineResult (Unit {0})

abbrev pub require : Bool → EngineError → Check
require true e = ok tt
require false e = err e

-- `for x in xs { f(x)?; }`
abbrev pub for_each {ℓ} : {A : Type ℓ} → (A → Check) → List A → Check
for_each f [] = ok tt
for_each f (x ∷ xs) = f x >> for_each f xs

abbrev pub is_end : BpmnElement → Bool
is_end BpmnElement.end_event = true
is_end (BpmnElement.error_end_event _) = true
is_end (BpmnElement.escalation_end_event _) = true
is_end (BpmnElement.compensation_end_event _) = true
is_end BpmnElement.terminate_end_event = true
is_end (BpmnElement.sub_process_end_event _) = true
is_end (BpmnElement.signal_end_event _) = true
is_end _ = false

-- The elements that may stand without an outgoing flow.
abbrev pub may_stop : BpmnElement → Bool
may_stop (BpmnElement.embedded_sub_process _) = true
may_stop (BpmnElement.boundary_compensation_event _) = true
may_stop e = is_end e

abbrev pub boundary_host : BpmnElement → Option String
boundary_host (BpmnElement.boundary_timer_event a _ _) = some a
boundary_host (BpmnElement.boundary_message_event a _ _) = some a
boundary_host (BpmnElement.boundary_error_event a _) = some a
boundary_host (BpmnElement.boundary_escalation_event a _ _) = some a
boundary_host (BpmnElement.boundary_signal_event a _ _) = some a
boundary_host (BpmnElement.boundary_conditional_event a _ _) = some a
boundary_host (BpmnElement.boundary_compensation_event a) = some a
boundary_host _ = none

abbrev pub is_event_catch : BpmnElement → Bool
is_event_catch (BpmnElement.message_catch_event _) = true
is_event_catch (BpmnElement.timer_catch_event _) = true
is_event_catch (BpmnElement.signal_catch_event _) = true
is_event_catch _ = false

abbrev pub is_event_based : BpmnElement → Bool
is_event_based BpmnElement.event_based_gateway = true
is_event_based _ = false

module _ (nodes : Nodes) (flows : Flows) where
  abbrev pub check_starts : Check
  check_starts =
      let start_count = length (select is_start (values nodes)) in
      if nat_beq start_count 0
      then err (invalid_definition Reason.no_start_event)
      else if ltb 1 start_count
      then err (invalid_definition Reason.multiple_start_events)
      else ok tt

  abbrev pub check_ends : Check
  check_ends =
      if nat_beq (length (select is_end (values nodes))) 0
      then err (invalid_definition Reason.no_end_event)
      else ok tt

  abbrev pub check_flow : String × List SequenceFlow → Check
  check_flow (from, targets) =
      require (contains_key from nodes) (no_such_node from)
      >> for_each (λ sf. require (contains_key sf.target nodes) (no_such_node sf.target)) targets

  abbrev pub check_boundary : String × BpmnElement → Check
  check_boundary (node_id, element) = elim (boundary_host element) [
    | none ↦ ok tt
    | some attached_to ↦
        require (contains_key attached_to nodes)
          (invalid_definition (Reason.boundary_unattached node_id attached_to))
  ]

  abbrev pub check_outgoing : String × BpmnElement → Check
  check_outgoing (node_id, element) =
      if may_stop element
      then ok tt
      else if nat_beq (length (outgoing_flows flows node_id)) 0
      then err (invalid_definition (Reason.no_outgoing_flow node_id))
      else ok tt

  abbrev pub check_event_target : String → SequenceFlow → Check
  check_event_target node_id sf = elim (get sf.target nodes) [
    | none ↦ ok tt
    | some target_element ↦
        require (is_event_catch target_element)
          (invalid_definition (Reason.event_gateway_target node_id sf.target))
  ]

  abbrev pub check_gateway_flows : String × BpmnElement → Check
  check_gateway_flows (node_id, element) =
      if is_gateway element
        && (ltb (length (outgoing_flows flows node_id)) 2 && ltb (incoming_count flows node_id) 2)
      then err (invalid_definition (Reason.gateway_flows node_id))
      else ok tt

  abbrev pub check_event_based : String × BpmnElement → Check
  check_event_based (node_id, element) =
      let targets = for_each (check_event_target node_id) (outgoing_flows flows node_id) in
      if is_event_based element then targets else ok tt

  abbrev pub check_gateway : String × BpmnElement → Check
  check_gateway n = check_gateway_flows n >> check_event_based n

  unfoldable pub validate : Check
  validate =
      check_starts
      >> (check_ends
          >> (for_each check_flow flows
              >> (for_each check_boundary nodes
                  >> (for_each check_outgoing nodes >> for_each check_gateway nodes))))

module _ {V : Type 0} (key : Uuid) (id : String) (version : ℤ) (nodes : Nodes) (flows : Flows)
    (listeners : Map String (List ExecutionListener))
    (event_listeners : List ScopeEventListener) where
  -- The definition that `new` builds; `key` is the `Uuid::new_v4()` of the call.
  unfoldable pub built : ProcessDefinition V
  built = record {
    key = key;
    id = id;
    version = version;
    nodes = nodes;
    flows = flows;
    listeners = listeners;
    event_listeners = event_listeners;
    event_subprocesses = [];
    data_variables = [];
    variable_defaults = [];
    data_mappings = [];
  }

  unfoldable pub new : SubProcesses V → EngineResult (DefinitionTree V)
  unfolding validate
  new sub_processes = validate nodes flows >> ok (tree built sub_processes)
