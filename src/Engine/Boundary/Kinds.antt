-- ===== src/Engine/Boundary/Kinds.antt =====
-- Which nodes the scans of engine-core/src/engine/boundary.rs and engine-core/src/engine/mod.rs find.
use bpmninja.Prelude.{
  ◌≡◌, refl, inl, inr, String, Bool, Option, none, some, [], ◌∷◌, string_eq, ◌==◌, eq_iff,
  if◌then◌else◌, arith, Bool-cases,
}
use bpmninja.Domain.Element.{BpmnElement}
use bpmninja.Domain.Timer.{TimerDefinition}
use bpmninja.Domain.Graph.{Nodes}
use bpmninja.Engine.Boundary.{
  push_bound, scan_bounds, is_bound_timer, bound_timers, push_node, bound_waits,
}
use bpmninja.Engine.Boundary.Scan.{attach, attached, ids}

-- What an event of a kind that is attached to the node waits for.
abbrev pub timer_on : String → BpmnElement → Option TimerDefinition
timer_on node (BpmnElement.boundary_timer_event attached_to timer _) =
    if attached_to == node then some timer else none
timer_on node _ = none

abbrev pub message_on : String → BpmnElement → Option String
message_on node (BpmnElement.boundary_message_event attached_to message_name _) =
    if attached_to == node then some message_name else none
message_on node _ = none

abbrev pub signal_on : String → BpmnElement → Option String
signal_on node (BpmnElement.boundary_signal_event attached_to signal_name _) =
    if attached_to == node then some signal_name else none
signal_on node _ = none

abbrev pub condition_on : String → BpmnElement → Option String
condition_on node (BpmnElement.boundary_conditional_event attached_to condition _) =
    if attached_to == node then some condition else none
condition_on node _ = none

module _ (node : String) where
  pub message_builds :
      (e : BpmnElement) (a : String)
      → message_on node e ≡ some a
      → (c : Bool) × (BpmnElement.boundary_message_event node a c ≡ e)
  message_builds (BpmnElement.boundary_message_event b x c) a h = elim (Bool-cases (b == node)) [
    | inl same ↦ (c, cc (same, (eq_iff b node).0 same, h))
    | inr other ↦ cc (other, h)
  ]
  message_builds _ a h = cc

  pub message_made :
      (a : String) (c : Bool)
      → message_on node (BpmnElement.boundary_message_event node a c) ≡ some a
  message_made a c = ground (arith, eq_iff node node)

  pub scan-messages :
      (nodes : Nodes) → (scan_bounds node nodes).messages ≡ attached (message_on node) nodes
  unfolding scan_bounds attached
  scan-messages [] = refl
  scan-messages ((id, e) ∷ nodes) = pushed e (scan-messages nodes)
    where
      pushed :
          (e : BpmnElement)
          → (scan_bounds node nodes).messages ≡ attached (message_on node) nodes
          → (push_bound node id e (scan_bounds node nodes)).messages
            ≡ attach (message_on node) id (message_on node e) (attached (message_on node) nodes)
      pushed (BpmnElement.boundary_message_event b x c) h = ground arith
      pushed (BpmnElement.boundary_signal_event b x c) h = ground arith
      pushed (BpmnElement.boundary_conditional_event b x c) h = ground arith
      pushed (BpmnElement.boundary_timer_event b x c) h = ground arith
      pushed _ h = h

  pub bound-messages :
      (nodes : Nodes) → (bound_waits node nodes).messages ≡ ids (attached (message_on node) nodes)
  unfolding bound_waits attached
  bound-messages [] = refl
  bound-messages ((id, e) ∷ nodes) = pushed e (bound-messages nodes)
    where
      pushed :
          (e : BpmnElement)
          → (bound_waits node nodes).messages ≡ ids (attached (message_on node) nodes)
          → (push_node node id e (bound_waits node nodes)).messages
            ≡ ids
                (attach (message_on node) id (message_on node e) (attached (message_on node) nodes))
      pushed (BpmnElement.boundary_message_event b x c) h = ground arith
      pushed (BpmnElement.boundary_signal_event b x c) h = ground arith
      pushed (BpmnElement.boundary_conditional_event b x c) h = ground arith
      pushed _ h = h

  pub signal_builds :
      (e : BpmnElement) (a : String)
      → signal_on node e ≡ some a
      → (c : Bool) × (BpmnElement.boundary_signal_event node a c ≡ e)
  signal_builds (BpmnElement.boundary_signal_event b x c) a h = elim (Bool-cases (b == node)) [
    | inl same ↦ (c, cc (same, (eq_iff b node).0 same, h))
    | inr other ↦ cc (other, h)
  ]
  signal_builds _ a h = cc

  pub signal_made :
      (a : String) (c : Bool) → signal_on node (BpmnElement.boundary_signal_event node a c) ≡ some a
  signal_made a c = ground (arith, eq_iff node node)

  pub scan-signals :
      (nodes : Nodes) → (scan_bounds node nodes).signals ≡ attached (signal_on node) nodes
  unfolding scan_bounds attached
  scan-signals [] = refl
  scan-signals ((id, e) ∷ nodes) = pushed e (scan-signals nodes)
    where
      pushed :
          (e : BpmnElement)
          → (scan_bounds node nodes).signals ≡ attached (signal_on node) nodes
          → (push_bound node id e (scan_bounds node nodes)).signals
            ≡ attach (signal_on node) id (signal_on node e) (attached (signal_on node) nodes)
      pushed (BpmnElement.boundary_signal_event b x c) h = ground arith
      pushed (BpmnElement.boundary_message_event b x c) h = ground arith
      pushed (BpmnElement.boundary_conditional_event b x c) h = ground arith
      pushed (BpmnElement.boundary_timer_event b x c) h = ground arith
      pushed _ h = h

  pub bound-signals :
      (nodes : Nodes) → (bound_waits node nodes).signals ≡ ids (attached (signal_on node) nodes)
  unfolding bound_waits attached
  bound-signals [] = refl
  bound-signals ((id, e) ∷ nodes) = pushed e (bound-signals nodes)
    where
      pushed :
          (e : BpmnElement)
          → (bound_waits node nodes).signals ≡ ids (attached (signal_on node) nodes)
          → (push_node node id e (bound_waits node nodes)).signals
            ≡ ids (attach (signal_on node) id (signal_on node e) (attached (signal_on node) nodes))
      pushed (BpmnElement.boundary_signal_event b x c) h = ground arith
      pushed (BpmnElement.boundary_message_event b x c) h = ground arith
      pushed (BpmnElement.boundary_conditional_event b x c) h = ground arith
      pushed _ h = h

  pub condition_builds :
      (e : BpmnElement) (a : String)
      → condition_on node e ≡ some a
      → (c : Bool) × (BpmnElement.boundary_conditional_event node a c ≡ e)
  condition_builds (BpmnElement.boundary_conditional_event b x c) a h =
      elim (Bool-cases (b == node)) [
        | inl same ↦ (c, cc (same, (eq_iff b node).0 same, h))
        | inr other ↦ cc (other, h)
      ]
  condition_builds _ a h = cc

  pub condition_made :
      (a : String) (c : Bool)
      → condition_on node (BpmnElement.boundary_conditional_event node a c) ≡ some a
  condition_made a c = ground (arith, eq_iff node node)

  pub scan-conditionals :
      (nodes : Nodes) → (scan_bounds node nodes).conditionals ≡ attached (condition_on node) nodes
  unfolding scan_bounds attached
  scan-conditionals [] = refl
  scan-conditionals ((id, e) ∷ nodes) = pushed e (scan-conditionals nodes)
    where
      pushed :
          (e : BpmnElement)
          → (scan_bounds node nodes).conditionals ≡ attached (condition_on node) nodes
          → (push_bound node id e (scan_bounds node nodes)).conditionals
            ≡ attach
                (condition_on node)
                id
                (condition_on node e)
                (attached (condition_on node) nodes)
      pushed (BpmnElement.boundary_conditional_event b x c) h = ground arith
      pushed (BpmnElement.boundary_message_event b x c) h = ground arith
      pushed (BpmnElement.boundary_signal_event b x c) h = ground arith
      pushed (BpmnElement.boundary_timer_event b x c) h = ground arith
      pushed _ h = h

  pub bound-conditionals :
      (nodes : Nodes)
      → (bound_waits node nodes).conditionals ≡ ids (attached (condition_on node) nodes)
  unfolding bound_waits attached
  bound-conditionals [] = refl
  bound-conditionals ((id, e) ∷ nodes) = pushed e (bound-conditionals nodes)
    where
      pushed :
          (e : BpmnElement)
          → (bound_waits node nodes).conditionals ≡ ids (attached (condition_on node) nodes)
          → (push_node node id e (bound_waits node nodes)).conditionals
            ≡ ids (
                attach
                  (condition_on node)
                  id
                  (condition_on node e)
                  (attached (condition_on node) nodes))
      pushed (BpmnElement.boundary_conditional_event b x c) h = ground arith
      pushed (BpmnElement.boundary_message_event b x c) h = ground arith
      pushed (BpmnElement.boundary_signal_event b x c) h = ground arith
      pushed _ h = h

  pub timer_builds :
      (e : BpmnElement) (a : TimerDefinition)
      → timer_on node e ≡ some a
      → (c : Bool) × (BpmnElement.boundary_timer_event node a c ≡ e)
  timer_builds (BpmnElement.boundary_timer_event b x c) a h = elim (Bool-cases (b == node)) [
    | inl same ↦ (c, cc (same, (eq_iff b node).0 same, h))
    | inr other ↦ cc (other, h)
  ]
  timer_builds _ a h = cc

  pub timer_made :
      (a : TimerDefinition) (c : Bool)
      → timer_on node (BpmnElement.boundary_timer_event node a c) ≡ some a
  timer_made a c = ground (arith, eq_iff node node)

  pub scan-timers :
      (nodes : Nodes) → (scan_bounds node nodes).timers ≡ attached (timer_on node) nodes
  unfolding scan_bounds attached
  scan-timers [] = refl
  scan-timers ((id, e) ∷ nodes) = pushed e (scan-timers nodes)
    where
      pushed :
          (e : BpmnElement)
          → (scan_bounds node nodes).timers ≡ attached (timer_on node) nodes
          → (push_bound node id e (scan_bounds node nodes)).timers
            ≡ attach (timer_on node) id (timer_on node e) (attached (timer_on node) nodes)
      pushed (BpmnElement.boundary_timer_event b x c) h = ground arith
      pushed (BpmnElement.boundary_message_event b x c) h = ground arith
      pushed (BpmnElement.boundary_signal_event b x c) h = ground arith
      pushed (BpmnElement.boundary_conditional_event b x c) h = ground arith
      pushed _ h = h

  pub bound_timers-ids :
      (nodes : Nodes) → bound_timers node nodes ≡ ids (attached (timer_on node) nodes)
  unfolding bound_timers attached
  bound_timers-ids [] = refl
  bound_timers-ids ((id, e) ∷ nodes) = pushed e (bound_timers-ids nodes)
    where
      pushed :
          (e : BpmnElement)
          → bound_timers node nodes ≡ ids (attached (timer_on node) nodes)
          → (if is_bound_timer node e
              then id ∷ bound_timers node nodes
              else bound_timers node nodes)
            ≡ ids (attach (timer_on node) id (timer_on node e) (attached (timer_on node) nodes))
      pushed (BpmnElement.boundary_timer_event b x c) h = ground arith
      pushed _ h = h
