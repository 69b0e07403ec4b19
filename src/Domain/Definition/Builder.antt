-- ===== src/Domain/Definition/Builder.antt =====
-- `ProcessDefinitionBuilder` and `validate_condition_expressions` of
-- engine-core/src/domain/definition.rs.
pub mod Accepted
use bpmninja.Prelude.{
  ℕ, String, ◌++◌, Option, none, some, List, [], ◌∷◌, Map, get, insert, string_eq,
}
use bpmninja.Prelude.Int.{ℤ, pos}
use bpmninja.Domain.Error.{
  Uuid, EngineResult, EngineError, ok, err, ◌>>=◌, ◌>>◌, Reason, invalid_definition,
}
use bpmninja.Domain.Element.{
  BpmnElement, SequenceFlow, ExecutionListener, ListenerEvent, ScopeEventListener, simple,
  conditional,
}
use bpmninja.Domain.Graph.{
  Nodes, Flows, ProcessDefinition, DefinitionTree, SubProcesses, tree, no_subs, sub,
}
use bpmninja.Domain.Definition.Validation.{Check, for_each, new}
use bpmninja.Condition.Syntax.{Float, Parsed}
use bpmninja.Condition.Literals.{Unicode}
use bpmninja.Condition.Evaluator.{validate_condition}

abbrev pub join_condition_of : BpmnElement → Option String
join_condition_of (BpmnElement.complex_gateway join _) = join
join_condition_of _ = none

abbrev pub event_condition_of : BpmnElement → Option String
event_condition_of (BpmnElement.conditional_catch_event condition) = some condition
event_condition_of (BpmnElement.boundary_conditional_event _ condition _) = some condition
event_condition_of _ = none

-- `map_err` to the error of the definition.
abbrev pub reported : {F : Type 0} → (ℕ → Reason) → Parsed F (Unit {0}) → Check
reported reason (ok _) = ok tt
reported reason (err e) = err (invalid_definition (reason e.pos))

module _ {F : Type 0} (fl : Float F) (u : Unicode) where
  -- No value of a variable is needed to check a condition, so the type of these does not matter.
  unfoldable pub check_condition : (ℕ → Reason) → Option String → Check
  unfolding validate_condition
  check_condition reason none = ok tt
  check_condition reason (some condition) =
      reported reason (validate_condition (Unit {0}) fl u condition)

  abbrev pub check_flow_condition : String → SequenceFlow → Check
  check_flow_condition source flow =
      check_condition (Reason.flow_condition source flow.target) flow.condition

  abbrev pub check_node_conditions : String × BpmnElement → Check
  check_node_conditions (node_id, element) =
      check_condition (Reason.join_condition node_id) (join_condition_of element)
      >> check_condition (Reason.event_condition node_id) (event_condition_of element)

  unfoldable pub validate_condition_expressions : Nodes → Flows → Check
  validate_condition_expressions nodes flows =
      for_each (λ f. for_each (check_flow_condition f.0) f.1) flows
      >> for_each check_node_conditions nodes

pub record ProcessDefinitionBuilder (V : Type 0) : Type 0 where
  pub id : String
  pub key : Option Uuid
  pub version : ℤ
  pub nodes : Nodes
  pub flows : Flows
  pub listeners : Map String (List ExecutionListener)
  pub event_listeners : List ScopeEventListener
  pub sub_processes : SubProcesses V

-- `map.entry(k).or_default().push(a)`
unfoldable pub push_entry : {A : Type 0} → String → A → Map String (List A) → Map String (List A)
push_entry k a m = elim (get k m) [
  | none ↦ insert k (a ∷ []) m
  | some old ↦ insert k (old ++ a ∷ []) m
]

abbrev pub push_sub : {V : Type 0} → SubProcesses V → DefinitionTree V → SubProcesses V
push_sub no_subs t = sub t no_subs
push_sub (sub first rest) t = sub first (push_sub rest t)

module _ {V : Type 0} where
  abbrev pub builder : String → ProcessDefinitionBuilder V
  builder id = record {
    id = id;
    key = none;
    version = pos 1;
    nodes = [];
    flows = [];
    listeners = [];
    event_listeners = [];
    sub_processes = no_subs;
  }

  unfoldable pub with_key : Uuid → ProcessDefinitionBuilder V → ProcessDefinitionBuilder V
  with_key key b = record b { key = some key }

  unfoldable pub with_version : ℤ → ProcessDefinitionBuilder V → ProcessDefinitionBuilder V
  with_version version b = record b { version = version }

  unfoldable pub node :
      String → BpmnElement → ProcessDefinitionBuilder V → ProcessDefinitionBuilder V
  unfolding insert
  node id element b = record b { nodes = insert id element b.nodes }

  unfoldable pub flow : (from to : String) → ProcessDefinitionBuilder V → ProcessDefinitionBuilder V
  unfolding push_entry
  flow from to b = record b { flows = push_entry from (simple to) b.flows }

  unfoldable pub conditional_flow :
      (from to condition : String) → ProcessDefinitionBuilder V → ProcessDefinitionBuilder V
  unfolding push_entry
  conditional_flow from to condition b = record b {
    flows = push_entry from (conditional to condition) b.flows;
  }

  unfoldable pub listener :
      String → ListenerEvent → String → ProcessDefinitionBuilder V → ProcessDefinitionBuilder V
  unfolding push_entry
  listener node_id event script b = record b {
    listeners = push_entry node_id (record { event = event; script = script }) b.listeners;
  }

  unfoldable pub scope_event :
      ScopeEventListener → ProcessDefinitionBuilder V → ProcessDefinitionBuilder V
  scope_event l b = record b { event_listeners = b.event_listeners ++ l ∷ [] }

  unfoldable pub sub_process :
      DefinitionTree V → ProcessDefinitionBuilder V → ProcessDefinitionBuilder V
  sub_process t b = record b { sub_processes = push_sub b.sub_processes t }

  abbrev pub keyed : Option Uuid → DefinitionTree V → DefinitionTree V
  keyed none t = t
  keyed (some key) (tree def subs) = tree (record def { key = key }) subs

  -- `fresh` is the `Uuid::new_v4()` of `ProcessDefinition::new`.
  unfoldable pub build :
      {F : Type 0}
      → Float F
      → Unicode
      → Uuid
      → ProcessDefinitionBuilder V
      → EngineResult (DefinitionTree V)
  unfolding validate_condition_expressions new
  build fl u fresh b =
      validate_condition_expressions fl u b.nodes b.flows
      >> (new fresh b.id b.version b.nodes b.flows b.listeners b.event_listeners b.sub_processes
          >>= λ t. ok (keyed b.key t))
