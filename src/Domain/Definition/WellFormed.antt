-- ===== src/Domain/Definition/WellFormed.antt =====
-- What `ProcessDefinition::new` accepts, stated on the graph and proved equivalent to the checks.
use bpmninja.Prelude.{
  ◌≤◌, String, ◌≡◌, refl, ◌↔◌, ◌⊎◌, Bool, true, false, Option, none, some, List, [], ◌∷◌, Map, get,
  contains_key, values, string_eq, length, select, All, All-mono, arith, if◌then◌else◌,
}
use bpmninja.Prelude.Int.{ℤ}
use bpmninja.Domain.Error.{Uuid, EngineResult, EngineError, ok, err, ◌>>◌}
use bpmninja.Domain.Element.{BpmnElement, SequenceFlow, ExecutionListener, ScopeEventListener}
use bpmninja.Domain.Graph.{
  Nodes, Flows, DefinitionTree, SubProcesses, tree, is_start, is_gateway, outgoing_flows,
  incoming_count,
}
use bpmninja.Domain.Definition.Validation.{
  Check, require, for_each, is_end, may_stop, boundary_host, is_event_catch, is_event_based,
  check_starts, check_ends, check_flow, check_boundary, check_outgoing, check_event_target,
  check_gateway_flows, check_event_based, check_gateway, validate, built, new,
}

abbrev pub Has : {A : Type 0} → String → Map String A → Type 0
Has k m = contains_key k m ≡ true

-- A well-formed graph.
pub record IsWellFormed (nodes : Nodes) (flows : Flows) : Type 0 where
  pub one_start : length (select is_start (values nodes)) ≡ 1
  pub ended : 1 ≤ length (select is_end (values nodes))
  pub closed : All (λ f. Has f.0 nodes × All (λ sf. Has sf.target nodes) f.1) flows
  pub attached : All (λ n. (a : String) → boundary_host n.1 ≡ some a → Has a nodes) nodes
  pub continued : All (λ n. may_stop n.1 ≡ false → 1 ≤ length (outgoing_flows flows n.0)) nodes
  pub branching :
      All
        (λ n.
          is_gateway n.1 ≡ true
          → (2 ≤ length (outgoing_flows flows n.0)) ⊎ (2 ≤ incoming_count flows n.0))
        nodes
  pub awaiting :
      All
        (λ n.
          is_event_based n.1 ≡ true
          → All
              (λ sf. (t : BpmnElement) → get sf.target nodes ≡ some t → is_event_catch t ≡ true)
              (outgoing_flows flows n.0))
        nodes

abbrev pub Passes : Check → Type 0
Passes c = c ≡ ok tt

pub then_iff : (m k : Check) → Passes (m >> k) ↔ (Passes m × Passes k)
then_iff (ok tt) k = (λ h. (refl, h), λ h. h.1)
then_iff (err e) k = (λ h. cc, λ h. cc)

for_each_iff {ℓ} :
    {A : Type ℓ} (f : A → Check) (xs : List A) → Passes (for_each f xs) ↔ All (λ x. Passes (f x)) xs
for_each_iff f [] = (λ _. tt, λ _. refl)
for_each_iff f (x ∷ xs) =
    let (to, from) = then_iff (f x) (for_each f xs) in
    let (to', from') = for_each_iff f xs in
    (λ h. ((to h).0, to' (to h).1), λ h. from (h.0, from' h.1))

pub for_each-All {ℓ κ} :
    {A : Type ℓ} {P : A → Type κ} (f : A → Check) (xs : List A)
    → ((x : A) → Passes (f x) ↔ P x)
    → Passes (for_each f xs) ↔ All P xs
for_each-All f xs each = (
  λ h. All-mono (λ x. (each x).0) xs ((for_each_iff f xs).0 h),
  λ h. (for_each_iff f xs).1 (All-mono (λ x. (each x).1) xs h),
)

require_iff : (b : Bool) (e : EngineError) → Passes (require b e) ↔ (b ≡ true)
require_iff true e = (λ _. refl, λ _. refl)
require_iff false e = (λ h. cc, λ h. cc)

option_iff :
    {A : Type 0} (o : Option A) (b : A → Bool) (e : A → EngineError)
    → Passes (elim o [ none ↦ ok tt | some a ↦ require (b a) (e a) ])
      ↔ ((a : A) → o ≡ some a → b a ≡ true)
option_iff none b e = (λ _ a h. cc, λ _. refl)
option_iff (some x) b e = (
  λ h a q. ground (arith, (require_iff (b x) (e x)).0 h),
  λ h. (require_iff (b x) (e x)).1 (h x refl),
)

pub then_All_iff {ℓ κ} :
    {P : Type ℓ} {Q : Type κ} (m k : Check)
    → Passes m ↔ P
    → Passes k ↔ Q
    → Passes (m >> k) ↔ (P × Q)
then_All_iff m k p q =
    let (to, from) = then_iff m k in
    (λ h. (p.0 (to h).0, q.0 (to h).1), λ h. from (p.1 h.0, q.1 h.1))

regroup {a b c d e f} :
    {A : Type a} {B : Type b} {C : Type c} {D : Type d} {E : Type e} {F : Type f}
    → A × (B × (C × (D × (E × F))))
    → A × B × C × D × E × F
regroup h = (h.0, h.1.0, h.1.1.0, h.1.1.1.0, h.1.1.1.1.0, h.1.1.1.1.1)

All-zip {ℓ κ μ} :
    {A : Type ℓ} (P : A → Type κ) (Q : A → Type μ) (xs : List A)
    → All P xs
    → All Q xs
    → All (λ x. P x × Q x) xs
All-zip P Q [] p q = tt
All-zip P Q (x ∷ xs) p q = ((p.0, q.0), All-zip P Q xs p.1 q.1)

when_iff {κ} :
    {P : Type κ} (b : Bool) (c : Check)
    → Passes c ↔ P
    → Passes (if b then c else ok tt) ↔ (b ≡ true → P)
when_iff true c p = (λ h _. p.0 h, λ h. p.1 (h refl))
when_iff false c p = (λ h q. cc, λ _. refl)

bind-Passes : {A : Type 0} (m : Check) (k : EngineResult A) {a : A} → (m >> k) ≡ ok a → Passes m
bind-Passes (ok tt) k h = refl
bind-Passes (err e) k h = cc

module _ (nodes : Nodes) (flows : Flows) where
  starts_iff : Passes (check_starts nodes flows) ↔ (length (select is_start (values nodes)) ≡ 1)
  starts_iff = ground arith

  ends_iff : Passes (check_ends nodes flows) ↔ (1 ≤ length (select is_end (values nodes)))
  ends_iff = ground arith

  flow_iff :
      (f : String × List SequenceFlow)
      → Passes (check_flow nodes flows f) ↔ (Has f.0 nodes × All (λ sf. Has sf.target nodes) f.1)
  flow_iff (from, targets) =
      then_All_iff (require (contains_key from nodes) _) (for_each _ targets)
        (require_iff (contains_key from nodes) _)
        (for_each-All _ targets (λ sf. require_iff (contains_key sf.target nodes) _))

  boundary_iff :
      (n : String × BpmnElement)
      → Passes (check_boundary nodes flows n)
        ↔ ((a : String) → boundary_host n.1 ≡ some a → Has a nodes)
  boundary_iff (node_id, element) = option_iff (boundary_host element) (λ a. contains_key a nodes) _

  outgoing_iff :
      (n : String × BpmnElement)
      → Passes (check_outgoing nodes flows n)
        ↔ (may_stop n.1 ≡ false → 1 ≤ length (outgoing_flows flows n.0))
  outgoing_iff (node_id, element) = ground arith

  target_iff :
      (node_id : String) (sf : SequenceFlow)
      → Passes (check_event_target nodes flows node_id sf)
        ↔ ((t : BpmnElement) → get sf.target nodes ≡ some t → is_event_catch t ≡ true)
  target_iff node_id sf = option_iff (get sf.target nodes) is_event_catch _

  gateway_flows_iff :
      (n : String × BpmnElement)
      → Passes (check_gateway_flows nodes flows n) ↔ (
          is_gateway n.1 ≡ true
          → (2 ≤ length (outgoing_flows flows n.0)) ⊎ (2 ≤ incoming_count flows n.0))
  gateway_flows_iff (node_id, element) = ground arith

  event_based_iff :
      (n : String × BpmnElement)
      → Passes (check_event_based nodes flows n) ↔ (
          is_event_based n.1 ≡ true
          → All
              (λ sf. (t : BpmnElement) → get sf.target nodes ≡ some t → is_event_catch t ≡ true)
              (outgoing_flows flows n.0))
  event_based_iff (node_id, element) =
      when_iff (is_event_based element) _
        (for_each-All _ (outgoing_flows flows node_id) (target_iff node_id))

  gateways_iff :
      Passes (for_each (check_gateway nodes flows) nodes)
      ↔ All
          (λ n.
            (is_gateway n.1 ≡ true
              → (2 ≤ length (outgoing_flows flows n.0)) ⊎ (2 ≤ incoming_count flows n.0))
            × (is_event_based n.1 ≡ true
                → All
                    (λ sf.
                      (t : BpmnElement) → get sf.target nodes ≡ some t → is_event_catch t ≡ true)
                    (outgoing_flows flows n.0)))
          nodes
  gateways_iff = for_each-All _ nodes λ n.
      then_All_iff (check_gateway_flows nodes flows n) (check_event_based nodes flows n)
        (gateway_flows_iff n) (event_based_iff n)

  -- The checks pass on the well-formed graphs and on no other.
  pub validate-IsWellFormed : Passes (validate nodes flows) ↔ IsWellFormed nodes flows
  unfolding validate
  validate-IsWellFormed =
      let (split, join) = then_All_iff (check_starts nodes flows) _ starts_iff (
        then_All_iff (check_ends nodes flows) _ ends_iff (
          then_All_iff (for_each (check_flow nodes flows) flows) _ (for_each-All _ flows flow_iff) (
            then_All_iff (for_each (check_boundary nodes flows) nodes) _
              (for_each-All _ nodes boundary_iff)
              (then_All_iff (for_each (check_outgoing nodes flows) nodes) _
                (for_each-All _ nodes outgoing_iff) gateways_iff)))) in
      (
        λ h.
            let (starts, ends, flows_ok, hosts, leaves, gates) = regroup (split h) in
            record {
              one_start = starts;
              ended = ends;
              closed = flows_ok;
              attached = hosts;
              continued = leaves;
              branching = All-mono (λ n g. g.0) nodes gates;
              awaiting = All-mono (λ n g. g.1) nodes gates;
            },
        λ w. join (
          w.one_start,
          (
            w.ended,
            (w.closed, (w.attached, (w.continued, All-zip _ _ nodes w.branching w.awaiting))),
          ),
        ),
      )

-- A definition is created exactly from a well-formed graph: with one start event, an end event,
-- flows between existing nodes, boundary events on existing nodes, an outgoing flow from every node
-- that needs one, two flows at each gateway, and only catch events behind an event-based gateway.
pub new-ok_iff :
    {V : Type 0} (key : Uuid) (id : String) (version : ℤ) (nodes : Nodes) (flows : Flows)
    (listeners : Map String (List ExecutionListener)) (event_listeners : List ScopeEventListener)
    (subs : SubProcesses V)
    → ((t : DefinitionTree V) × (new key id version nodes flows listeners event_listeners subs
          ≡ ok t))
      ↔ IsWellFormed nodes flows
unfolding new
new-ok_iff key id version nodes flows listeners event_listeners subs = (
  λ (t, h). (validate-IsWellFormed nodes flows).0 (bind-Passes (validate nodes flows) _ h),
  λ w. (
    tree (built key id version nodes flows listeners event_listeners) subs,
    rw ((validate-IsWellFormed nodes flows).1 w),
  ),
)
