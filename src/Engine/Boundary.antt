-- ===== src/Engine/Boundary.antt =====
-- Boundary events: `setup_boundary_events` of engine-core/src/engine/boundary.rs, and
-- `cancel_boundary_timers` and `cancel_boundary_waits` of engine-core/src/engine/mod.rs. `fresh` gives
-- the `Uuid::new_v4()` of each wait.
pub mod Scan
pub mod Kinds
pub mod Listed
pub mod Cancelled
use bpmninja.Prelude.{
  ℕ, suc, ◌+◌, String, Bool, true, false, not, ◌&&◌, Option, none, some, List, [], ◌∷◌, ◌++◌, Map,
  map, get, values, select, any, nat_eq, string_eq, ◌==◌, nat_beq, if◌then◌else◌, length,
}
use bpmninja.Domain.Error.{Uuid}
use bpmninja.Domain.Element.{BpmnElement}
use bpmninja.Domain.Timer.{TimerDefinition, Calendar, next_expiry, initial_remaining_repetitions}
use bpmninja.Domain.Token.{Token}
use bpmninja.Domain.Graph.{Nodes, ProcessDefinition}
use bpmninja.Runtime.Pending.{
  PendingTimer, PendingMessageCatch, PendingSignalCatch, PendingConditionalCatch,
}
use bpmninja.Runtime.State.{
  Engine, Effect, remove_persisted_timer, remove_persisted_message_catch,
  remove_persisted_signal_catch, remove_persisted_conditional_catch,
}
use bpmninja.Engine.TimerIndex.{retain_pending_timers}

pub record BoundaryEvents : Type 0 where
  pub timers : List PendingTimer
  pub messages : List PendingMessageCatch
  pub signals : List PendingSignalCatch
  pub conditionals : List PendingConditionalCatch

-- The four lists that the scan of `setup_boundary_events` fills.
pub record Bounds : Type 0 where
  pub timers : List (String × TimerDefinition)
  pub messages : List (String × String)
  pub signals : List (String × String)
  pub conditionals : List (String × String)

-- The match on a node.
abbrev pub push_bound : (node : String) → String → BpmnElement → Bounds → Bounds
push_bound node id (BpmnElement.boundary_timer_event attached_to timer _) found =
    if attached_to == node then record found { timers = (id, timer) ∷ found.timers } else found
push_bound node id (BpmnElement.boundary_message_event attached_to message_name _) found =
    if attached_to == node
    then record found { messages = (id, message_name) ∷ found.messages }
    else found
push_bound node id (BpmnElement.boundary_signal_event attached_to signal_name _) found =
    if attached_to == node
    then record found { signals = (id, signal_name) ∷ found.signals }
    else found
push_bound node id (BpmnElement.boundary_conditional_event attached_to condition _) found =
    if attached_to == node
    then record found { conditionals = (id, condition) ∷ found.conditionals }
    else found
push_bound node id _ found = found

-- What an earlier node pushes stands before what the later ones push.
unfoldable pub scan_bounds : (node : String) → Nodes → Bounds
scan_bounds node [] = record { timers = []; messages = []; signals = []; conditionals = [] }
scan_bounds node ((id, element) ∷ nodes) = push_bound node id element (scan_bounds node nodes)

abbrev pub unwrap_or : Option ℕ → ℕ → ℕ
unwrap_or none now = now
unwrap_or (some at) now = at

module _ (calendar : Calendar) (now : ℕ) (fresh : ℕ → Uuid) (instance_id token_id : Uuid) where
  -- The waits of the events that were found; `k` numbers the identifiers.
  unfoldable pub timers_for : ℕ → List (String × TimerDefinition) → List PendingTimer
  timers_for k [] = []
  timers_for k ((node_id, timer) ∷ rest) =
      record {
        id = fresh k;
        instance_id = instance_id;
        node_id = node_id;
        expires_at = unwrap_or (next_expiry calendar timer now) now;
        token_id = token_id;
        timer_def = some timer;
        remaining_repetitions = initial_remaining_repetitions timer;
      }
      ∷ timers_for (suc k) rest

  unfoldable pub messages_for : ℕ → List (String × String) → List PendingMessageCatch
  messages_for k [] = []
  messages_for k ((node_id, message_name) ∷ rest) =
      record {
        id = fresh k;
        instance_id = instance_id;
        node_id = node_id;
        message_name = message_name;
        token_id = token_id;
      }
      ∷ messages_for (suc k) rest

  unfoldable pub signals_for : ℕ → List (String × String) → List PendingSignalCatch
  signals_for k [] = []
  signals_for k ((node_id, signal_name) ∷ rest) =
      record {
        id = fresh k;
        instance_id = instance_id;
        node_id = node_id;
        signal_name = signal_name;
        token_id = token_id;
      }
      ∷ signals_for (suc k) rest

  unfoldable pub conditionals_for : ℕ → List (String × String) → List PendingConditionalCatch
  conditionals_for k [] = []
  conditionals_for k ((node_id, condition) ∷ rest) =
      record {
        id = fresh k;
        instance_id = instance_id;
        node_id = node_id;
        condition = condition;
        token_id = token_id;
        last_result = false;
      }
      ∷ conditionals_for (suc k) rest

unfoldable pub setup_boundary_events :
    {V : Type 0}
    → Calendar
    → (now : ℕ) → (ℕ → Uuid)
    → ProcessDefinition V
    → String
    → Uuid
    → Token V
    → BoundaryEvents
unfolding scan_bounds timers_for messages_for signals_for conditionals_for
setup_boundary_events calendar now fresh def attached_node_id instance_id token =
    let bounds = scan_bounds attached_node_id def.nodes in
    let timers = bounds.timers in
    let messages = bounds.messages in
    let signals = bounds.signals in
    let conditionals = bounds.conditionals in
    let first_signal = length timers + length messages in
    record {
      timers = timers_for calendar now fresh instance_id token.id 0 timers;
      messages = messages_for calendar now fresh instance_id token.id (length timers) messages;
      signals = signals_for calendar now fresh instance_id token.id first_signal signals;
      conditionals =
          conditionals_for calendar now fresh instance_id token.id (first_signal + length signals)
            conditionals;
    }

module _ {V : Type 0} where
  abbrev pub nodes_of : Option (ProcessDefinition V) → Nodes
  nodes_of none = []
  nodes_of (some def) = def.nodes

-- The `filter_map` of `cancel_boundary_timers`.
abbrev pub is_bound_timer : (node : String) → BpmnElement → Bool
is_bound_timer node (BpmnElement.boundary_timer_event attached_to _ _) = attached_to == node
is_bound_timer node _ = false

unfoldable pub bound_timers : (node : String) → Nodes → List String
bound_timers node [] = []
bound_timers node ((id, element) ∷ nodes) =
    let rest = bound_timers node nodes in if is_bound_timer node element then id ∷ rest else rest

-- The loop of `cancel_boundary_waits` and the lists that it fills.
pub record BoundNodes : Type 0 where
  pub messages : List String
  pub signals : List String
  pub conditionals : List String

abbrev pub push_node : (node : String) → String → BpmnElement → BoundNodes → BoundNodes
push_node node id (BpmnElement.boundary_message_event attached_to _ _) found =
    if attached_to == node then record found { messages = id ∷ found.messages } else found
push_node node id (BpmnElement.boundary_signal_event attached_to _ _) found =
    if attached_to == node then record found { signals = id ∷ found.signals } else found
push_node node id (BpmnElement.boundary_conditional_event attached_to _ _) found =
    if attached_to == node then record found { conditionals = id ∷ found.conditionals } else found
push_node node id _ found = found

unfoldable pub bound_waits : (node : String) → Nodes → BoundNodes
bound_waits node [] = record { messages = []; signals = []; conditionals = [] }
bound_waits node ((id, element) ∷ nodes) = push_node node id element (bound_waits node nodes)

-- Whether an entry is a wait of the instance at one of the nodes.
abbrev pub is_mine : Uuid → (bound : List String) → Uuid → String → Bool
is_mine instance_id bound owner node_id = nat_beq owner instance_id && any (λ b. b == node_id) bound

module _ {V : Type 0} where
  unfoldable pub cancel_boundary_timers : Uuid → String → Engine V → Engine V
  unfolding bound_timers retain_pending_timers
  cancel_boundary_timers instance_id node s = elim (get instance_id s.instances) [
    | none ↦ s
    | some inst ↦
        let bound = bound_timers node (nodes_of (get inst.definition_key s.definitions)) in
        let mine : PendingTimer → Bool = λ t. is_mine instance_id bound t.instance_id t.node_id in
        let kept = retain_pending_timers (λ t. not (mine t)) s in
        record kept {
          effects =
              kept.effects
              ++ map (λ e. remove_persisted_timer e.1.id) (select (λ e. mine e.1) s.pending_timers);
        }
  ]

  unfoldable pub cancel_boundary_waits : Uuid → String → Engine V → Engine V
  unfolding bound_waits
  cancel_boundary_waits instance_id node s = elim (get instance_id s.instances) [
    | none ↦ s
    | some inst ↦
        let bound = bound_waits node (nodes_of (get inst.definition_key s.definitions)) in
        let messages : PendingMessageCatch → Bool =
          λ m. is_mine instance_id bound.messages m.instance_id m.node_id in
        let signals : PendingSignalCatch → Bool =
          λ g. is_mine instance_id bound.signals g.instance_id g.node_id in
        let conditionals : PendingConditionalCatch → Bool =
          λ c. is_mine instance_id bound.conditionals c.instance_id c.node_id in
        record s {
          pending_message_catches = select (λ e. not (messages e.1)) s.pending_message_catches;
          pending_signal_catches = select (λ e. not (signals e.1)) s.pending_signal_catches;
          pending_conditional_catches =
              select (λ e. not (conditionals e.1)) s.pending_conditional_catches;
          effects =
              s.effects
              ++ (map (λ e. remove_persisted_message_catch e.1.id)
                    (select (λ e. messages e.1) s.pending_message_catches)
                  ++ (map (λ e. remove_persisted_signal_catch e.1.id)
                        (select (λ e. signals e.1) s.pending_signal_catches)
                      ++ map (λ e. remove_persisted_conditional_catch e.1.id)
                          (select (λ e. conditionals e.1) s.pending_conditional_catches)));
        }
  ]
