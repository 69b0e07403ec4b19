-- ===== src/Engine/Topology/Search.antt =====
-- The search for the join of a split ends.
use bpmninja.Prelude.{
  ℕ, zero, suc, ◌+◌, ◌≤◌, ◌<◌, String, ◌≡◌, refl, subst, ◌⊎◌, inl, inr, true, false, Option, none,
  some, List, [], ◌∷◌, ◌++◌, get, values, ◌==◌, string_eq, eq_iff, length, length-append, any,
  arith, Bool-cases, Option-cases, if◌then◌else◌,
}
use bpmninja.Domain.Element.{BpmnElement, SequenceFlow}
use bpmninja.Domain.Graph.{
  Flows, ProcessDefinition, next_nodes, outgoing_flows, all_flows, is_join_gateway,
}
use bpmninja.Engine.Topology.{
  Queue, enqueue, Visit, found, descend, visit, search, search_fuel, find_downstream_join,
  same_gateway_type,
}

length-enqueue :
    (flows : List SequenceFlow) (depth : ℕ) → length (enqueue flows depth) ≡ length flows
length-enqueue [] depth = refl
length-enqueue (f ∷ flows) depth = omega (arith, length-enqueue flows depth)

-- The flows that leave nodes not visited yet.
left : List String → Flows → ℕ
left visited [] = 0
left visited ((node, fs) ∷ flows) =
    (if any (λ v. v == node) visited then 0 else length fs) + left visited flows

left-le :
    (node : String) (visited : List String) (flows : Flows)
    → left (node ∷ visited) flows ≤ left visited flows
unfolding left
left-le node visited [] = omega arith
left-le node visited ((k, fs) ∷ flows) = ground (arith, left-le node visited flows)

string_eq_cases : (s t : String) → (s ≡ t) ⊎ (((s == t) ≡ false) × ((t == s) ≡ false))
string_eq_cases s t = elim (Bool-cases (s == t)) [
  | inl same ↦ inl ((eq_iff s t).0 same)
  | inr other ↦ inr (other, ground (arith, eq_iff s t, eq_iff t s))
]

-- Visiting a node uses up its flows.
left-visit :
    (node : String) (visited : List String) (flows : Flows)
    → any (λ v. v == node) visited ≡ false
    → length (outgoing_flows flows node) + left (node ∷ visited) flows ≤ left visited flows
unfolding left outgoing_flows get
left-visit node visited [] h = omega arith
left-visit node visited ((k, fs) ∷ flows) h = elim (string_eq_cases k node) [
  | inl same ↦ rw same (ground (arith, eq_iff node node, left-le node visited flows))
  | inr (e, e') ↦ ground (arith, e, e', left-visit node visited flows h)
]

Visit-cases : (v : Visit) → (v ≡ found) ⊎ ((next : ℕ) × (v ≡ descend next))
Visit-cases found = inl refl
Visit-cases (descend next) = inr (next, refl)

module _ {V : Type 0} (def : ProcessDefinition V) (split_element : BpmnElement) where
  left-next_nodes :
      (node : String) (visited : List String)
      → any (λ v. v == node) visited ≡ false
      → length (next_nodes def node) + left (node ∷ visited) def.flows ≤ left visited def.flows
  unfolding next_nodes
  left-next_nodes node visited h = left-visit node visited def.flows h

  -- Fuel above the queued flows and the flows of the nodes to come is never used up.
  search_total :
      (fuel : ℕ) (visited : List String) (queue : Queue)
      → length queue + left visited def.flows < fuel
      → (r : Option String) × (search def split_element fuel visited queue ≡ some r)
  unfolding search
  search_total zero visited queue h = elim h [ ]
  search_total (suc fuel) visited [] h = (none, refl)
  search_total (suc fuel) visited ((node, depth) ∷ queue) h =
      elim (Bool-cases (any (λ v. v == node) visited)) [
        | inl seen ↦
            let (r, e) = search_total fuel visited queue (omega arith) in (r, ground (arith, e))
        | inr unseen ↦ elim (Visit-cases (visit def split_element node depth)) [
          | inl e ↦ (some node, ground arith)
          | inr (next, e) ↦
              let (r, e') =
                search_total fuel (node ∷ visited) (queue ++ enqueue (next_nodes def node) next) (
                  omega (
                    arith,
                    length-append queue (enqueue (next_nodes def node) next),
                    length-enqueue (next_nodes def node) next,
                    left-next_nodes node visited unseen,
                  )) in
              (r, ground (arith, e'))
        ]
      ]

left_nil-le : (flows : Flows) → left [] flows ≤ length (all_flows (values flows))
unfolding left all_flows
left_nil-le [] = omega arith
left_nil-le ((k, fs) ∷ flows) =
    omega (arith, left_nil-le flows, length-append fs (all_flows (values flows)))

fuel_suffices :
    {V : Type 0} (def : ProcessDefinition V) (start_node : String)
    → length (enqueue (next_nodes def start_node) 1) + left [] def.flows
      < search_fuel def start_node
unfolding search_fuel
fuel_suffices def start_node =
    omega (arith, length-enqueue (next_nodes def start_node) 1, left_nil-le def.flows)

-- The join that a split waits for: a converging gateway of the split's own kind.
pub record IsJoinFor {V : Type 0} (def : ProcessDefinition V) (split_element : BpmnElement)
    (join : String) : Type 0 where
  pub element : BpmnElement
  pub placed : get join def.nodes ≡ some element
  pub converges : is_join_gateway def join ≡ true
  pub same_kind : same_gateway_type split_element element ≡ true

module _ {V : Type 0} (def : ProcessDefinition V) (split_element : BpmnElement) where
  visit-IsJoinFor :
      (node : String) (depth : ℕ)
      → visit def split_element node depth ≡ found
      → IsJoinFor def split_element node
  unfolding visit
  visit-IsJoinFor node depth h = elim (Option-cases (get node def.nodes)) [
    | inl e ↦ absurd (ground arith)
    | inr (element, e) ↦ record {
      element = element;
      placed = e;
      converges = ground (arith, e);
      same_kind = ground (arith, e);
    }
  ]

  search-IsJoinFor :
      (fuel : ℕ) (visited : List String) (queue : Queue) (join : String)
      → search def split_element fuel visited queue ≡ some (some join)
      → IsJoinFor def split_element join
  unfolding search
  search-IsJoinFor zero visited queue join h = cc
  search-IsJoinFor (suc fuel) visited [] join h = cc
  search-IsJoinFor (suc fuel) visited ((node, depth) ∷ queue) join h =
      elim (Bool-cases (any (λ v. v == node) visited)) [
        | inl seen ↦ search-IsJoinFor fuel visited queue join (ground arith)
        | inr unseen ↦ elim (Visit-cases (visit def split_element node depth)) [
          | inl e ↦
              let same : node ≡ join = ground arith in
              subst (IsJoinFor def split_element) same (visit-IsJoinFor node depth e)
          | inr (next, e) ↦
              search-IsJoinFor fuel (node ∷ visited) (queue ++ enqueue (next_nodes def node) next)
                join (ground arith)
        ]
      ]

-- The search for the downstream join of a split ends on every graph, cyclic ones included: the
-- fuel, which counts the flows of the definition, is never used up. A node that it finds is a
-- gateway with several incoming flows and of the kind of the split.
pub find_downstream_join_sound :
    {V : Type 0} (def : ProcessDefinition V) (start_node : String)
    → ((find_downstream_join def start_node ≡ some none)
        ⊎ ((join : String) × (split_element : BpmnElement) × (find_downstream_join def start_node
              ≡ some (some join))
            × (get start_node def.nodes ≡ some split_element)
            × IsJoinFor def split_element join))
unfolding find_downstream_join
find_downstream_join_sound def start_node = elim (Option-cases (get start_node def.nodes)) [
  | inl e ↦ inl (rw (e, find_downstream_join))
  | inr (element, e) ↦
      let (r, h) =
        search_total def element (search_fuel def start_node) []
          (enqueue (next_nodes def start_node) 1) (fuel_suffices def start_node) in
      elim (Option-cases r) [
        | inl none_found ↦ inl (rw (e, find_downstream_join) (rw none_found at h))
        | inr (join, some_found) ↦
            let h' = rw some_found at h in
            inr (
              join,
              element,
              rw (e, find_downstream_join) h',
              e,
              search-IsJoinFor def element (search_fuel def start_node) [] _ join h',
            )
      ]
]
