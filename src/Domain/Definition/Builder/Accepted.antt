-- ===== src/Domain/Definition/Builder/Accepted.antt =====
-- What `ProcessDefinitionBuilder::build` accepts.
use bpmninja.Prelude.{ℕ, String, ◌≡◌, refl, ◌↔◌, Option, none, some, string_eq, All}
use bpmninja.Domain.Error.{Uuid, ok, err, ◌>>=◌, >>=-eq-ok, Reason}
use bpmninja.Domain.Element.{SequenceFlow}
use bpmninja.Domain.Graph.{Nodes, Flows, DefinitionTree}
use bpmninja.Domain.Definition.Validation.{for_each, new}
use bpmninja.Domain.Definition.WellFormed.{
  IsWellFormed, Passes, for_each-All, then_All_iff, new-ok_iff,
}
use bpmninja.Domain.Definition.Builder.{
  reported, join_condition_of, event_condition_of, check_condition, check_flow_condition,
  check_node_conditions, validate_condition_expressions, ProcessDefinitionBuilder, keyed, build,
}
use bpmninja.Condition.Syntax.{Float, Expr, Parsed}
use bpmninja.Condition.Literals.{Unicode}
use bpmninja.Condition.Parser.{parse_condition}
use bpmninja.Condition.Evaluator.{validate_condition}

parsed_iff :
    {F A : Type 0} (reason : ℕ → Reason) (m : Parsed F A)
    → Passes (reported reason (m >>= λ _. ok tt)) ↔ ((a : A) × (m ≡ ok a))
parsed_iff reason (ok a) = (λ _. (a, refl), λ _. refl)
parsed_iff reason (err e) = (λ h. cc, λ (a, h). cc)

module _ {F : Type 0} (fl : Float F) (u : Unicode) where
  -- The text is the condition of some expression.
  abbrev pub Parses : String → Type 0
  Parses condition = (e : Expr F (Unit {0})) × (parse_condition fl u condition ≡ ok e)

  abbrev pub ParsesAny : Option String → Type 0
  ParsesAny none = Unit
  ParsesAny (some condition) = Parses condition

  -- Every condition of a flow, a join and a conditional event is one of the condition language.
  pub record HasConditions (nodes : Nodes) (flows : Flows) : Type 0 where
    pub on_flows : All (λ f. All (λ (sf : SequenceFlow). ParsesAny sf.condition) f.1) flows
    pub on_nodes :
        All (λ n. ParsesAny (join_condition_of n.1) × ParsesAny (event_condition_of n.1)) nodes

  check_condition_iff :
      (reason : ℕ → Reason) (condition : Option String)
      → Passes (check_condition fl u reason condition) ↔ ParsesAny condition
  unfolding check_condition validate_condition
  check_condition_iff reason none = (λ _. tt, λ _. refl)
  check_condition_iff reason (some condition) =
      parsed_iff reason (parse_condition {V = Unit {0}} fl u condition)

  conditions_iff :
      (nodes : Nodes) (flows : Flows)
      → Passes (validate_condition_expressions fl u nodes flows) ↔ HasConditions nodes flows
  unfolding validate_condition_expressions
  conditions_iff nodes flows =
      let (to, from) =
        then_All_iff (for_each (λ f. for_each (check_flow_condition fl u f.0) f.1) flows)
          (for_each (check_node_conditions fl u) nodes)
          (for_each-All (λ f. for_each (check_flow_condition fl u f.0) f.1) flows
            (λ f.
              for_each-All (check_flow_condition fl u f.0) f.1
                (λ sf. check_condition_iff (Reason.flow_condition f.0 sf.target) sf.condition)))
          (for_each-All (check_node_conditions fl u) nodes (λ n.
            then_All_iff (check_condition fl u (Reason.join_condition n.0) (join_condition_of n.1))
              (check_condition fl u (Reason.event_condition n.0) (event_condition_of n.1))
              (check_condition_iff (Reason.join_condition n.0) (join_condition_of n.1))
              (check_condition_iff (Reason.event_condition n.0) (event_condition_of n.1)))) in
      (λ h. record { on_flows = (to h).0; on_nodes = (to h).1 }, λ h. from (h.on_flows, h.on_nodes))

  -- A builder gives a definition exactly if each of its conditions can be parsed and its graph is
  -- well-formed.
  pub build-ok_iff :
      {V : Type 0} (fresh : Uuid) (b : ProcessDefinitionBuilder V)
      → ((t : DefinitionTree V) × (build fl u fresh b ≡ ok t))
        ↔ (HasConditions b.nodes b.flows × IsWellFormed b.nodes b.flows)
  unfolding build
  build-ok_iff fresh b =
      let checks = validate_condition_expressions fl u b.nodes b.flows in
      let made =
        new fresh b.id b.version b.nodes b.flows b.listeners b.event_listeners b.sub_processes in
      let graph =
        new-ok_iff fresh b.id b.version b.nodes b.flows b.listeners b.event_listeners
          b.sub_processes in
      (
        λ (t, h).
            let (_, passed, rest) = >>=-eq-ok checks (λ _. made >>= λ t. ok (keyed b.key t)) h in
            let (plain, built, _) = >>=-eq-ok made (λ t. ok (keyed b.key t)) rest in
            ((conditions_iff b.nodes b.flows).0 passed, graph.0 (plain, built)),
        λ (conditions, formed).
            let passed = (conditions_iff b.nodes b.flows).1 conditions in
            let (t, built) = graph.1 formed in (keyed b.key t, rw passed (rw built)),
      )
