-- ===== src/Engine/Topology.antt =====
-- engine-core/src/engine/executor/helpers.rs: queries on the process graph during execution.
pub mod Search
use bpmninja.Prelude.{
  ℕ, zero, suc, ◌-◌, ◌+◌, String, Bool, true, false, ◌&&◌, ◌||◌, Option, none, some, List, [], ◌∷◌,
  ◌++◌, Map, get, values, ◌==◌, string_eq, option_eq, if◌then◌else◌, nat_beq, length, find, any,
}
use bpmninja.Domain.Error.{EngineResult, ok, err, invalid_definition, no_matching_flow}
use bpmninja.Domain.Element.{BpmnElement, SequenceFlow}
use bpmninja.Domain.Graph.{
  Nodes, ProcessDefinition, next_nodes, is_join_gateway, is_split_gateway, all_flows,
}

module _ {V : Type 0} (holds : String → Map String V → Bool) where
  abbrev pub flow_open : Map String V → SequenceFlow → Bool
  flow_open variables f = elim f.condition [ none ↦ true | some c ↦ holds c variables ]

  unfoldable pub resolve_next_target :
      ProcessDefinition V → String → Map String V → EngineResult String
  resolve_next_target def from variables = elim (find (flow_open variables) (next_nodes def from)) [
    | none ↦ err (invalid_definition (no_matching_flow from))
    | some f ↦ ok f.target
  ]

abbrev pub code_matches : Option String → String → Bool
code_matches bound code = elim bound [ none ↦ true | some c ↦ c == code ]

abbrev pub catches_error : String → String → String × BpmnElement → Bool
catches_error node code (_, BpmnElement.boundary_error_event attached_to bound) =
    attached_to == node && code_matches bound code
catches_error node code _ = false

abbrev pub node_name : Option (String × BpmnElement) → Option String
node_name none = none
node_name (some n) = some n.0

-- `nodes.iter().find_map(…)`: the first node, in iteration order, that matches.
unfoldable pub find_boundary_error_event : Nodes → String → String → Option String
find_boundary_error_event nodes attached_to_node error_code =
    node_name (find (catches_error attached_to_node error_code) nodes)

abbrev pub compensates : String → String × BpmnElement → Bool
compensates activity_id (_, BpmnElement.boundary_compensation_event attached_to) =
    attached_to == activity_id
compensates activity_id _ = false

abbrev pub first_target : List SequenceFlow → Option String
first_target [] = none
first_target (f ∷ _) = some f.target

unfoldable pub find_compensation_handler :
    {V : Type 0} → ProcessDefinition V → String → Option String
find_compensation_handler def activity_id =
    elim (node_name (find (compensates activity_id) def.nodes)) [
      | none ↦ none
      | some boundary_id ↦ first_target (next_nodes def boundary_id)
    ]

unfoldable pub same_gateway_type : BpmnElement → BpmnElement → Bool
same_gateway_type (BpmnElement.exclusive_gateway _) (BpmnElement.exclusive_gateway _) = true
same_gateway_type BpmnElement.inclusive_gateway BpmnElement.inclusive_gateway = true
same_gateway_type BpmnElement.parallel_gateway BpmnElement.parallel_gateway = true
same_gateway_type _ _ = false

-- The work queue of `find_downstream_join`: nodes with their nesting depth.
abbrev pub Queue : Type 0
Queue = List (String × ℕ)

abbrev pub enqueue : List SequenceFlow → ℕ → Queue
enqueue [] depth = []
enqueue (f ∷ flows) depth = (f.target, depth) ∷ enqueue flows depth

-- What one visited node does: it is the join that is looked for, or its flows are queued at a depth.
pub data Visit : Type 0 where
  found : Visit
  descend : ℕ → Visit

module _ {V : Type 0} (def : ProcessDefinition V) (split_element : BpmnElement) where
  unfoldable pub visit : String → ℕ → Visit
  visit node depth = elim (get node def.nodes) [
    | none ↦ descend depth
    | some element ↦
        if is_join_gateway def node && same_gateway_type split_element element
        then (if nat_beq depth 1 then found else descend (depth - 1))
        else if is_split_gateway def node && same_gateway_type split_element element
        then descend (depth + 1)
        else descend depth
  ]

  -- The `while let` loop. `none` means that the fuel ran out.
  unfoldable pub search : ℕ → List String → Queue → Option (Option String)
  search zero visited queue = none
  search (suc fuel) visited [] = some none
  search (suc fuel) visited ((node, depth) ∷ queue) = elim (any (λ v. v == node) visited) [
    | true ↦ search fuel visited queue
    | false ↦ elim (visit node depth) [
      | found ↦ some (some node)
      | descend next ↦ search fuel (node ∷ visited) (queue ++ enqueue (next_nodes def node) next)
    ]
  ]

-- The fuel: a round for each queued flow, and one to find the queue empty.
unfoldable pub search_fuel : {V : Type 0} → ProcessDefinition V → String → ℕ
search_fuel def start_node =
    suc (length (next_nodes def start_node) + length (all_flows (values def.flows)))

unfoldable pub find_downstream_join :
    {V : Type 0} → ProcessDefinition V → String → Option (Option String)
unfolding search search_fuel
find_downstream_join def start_node = elim (get start_node def.nodes) [
  | none ↦ some none
  | some split_element ↦
      search def split_element (search_fuel def start_node) []
        (enqueue (next_nodes def start_node) 1)
]
