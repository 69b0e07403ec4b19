-- ===== src/Engine/Boundary/Cancelled.antt =====
-- Entering an activity sets up its boundary events, and leaving it cancels them, and nothing else.
use bpmninja.Prelude.{
  Among, ℕ, ◌≡◌, refl, sym, ◌∙◌, ap, ◌⊎◌, inl, inr, ◌↔◌, String, Bool, true, not, Option, none,
  some, List, map, any, get, get-select, kept, All, nat_eq, string_eq, ◌==◌, nat_beq_iff,
  Bool-cases, subst, arith,
}
use bpmninja.Domain.Error.{Uuid}
use bpmninja.Domain.Element.{BpmnElement}
use bpmninja.Domain.Timer.{TimerDefinition, Calendar}
use bpmninja.Domain.Token.{Token}
use bpmninja.Domain.Graph.{Nodes, ProcessDefinition}
use bpmninja.Runtime.Instance.{ProcessInstance}
use bpmninja.Runtime.Pending.{
  PendingTimer, PendingMessageCatch, PendingSignalCatch, PendingConditionalCatch,
}
use bpmninja.Runtime.State.{Engine}
use bpmninja.Engine.Waits.Released.{HasKeyedWaits}
use bpmninja.Engine.Waits.Dropped.{retain_pending_timers_retained}
use bpmninja.Engine.Boundary.{
  bound_timers, bound_waits, setup_boundary_events, nodes_of, is_mine, cancel_boundary_timers,
  cancel_boundary_waits,
}
use bpmninja.Engine.Boundary.Scan.{
  IsBound, attached, attached_iff, ids, any-ids, ids-any, Among-map,
}
use bpmninja.Engine.Boundary.Kinds.{
  timer_on, message_on, signal_on, condition_on, message_builds, message_made, scan-messages,
  bound-messages, signal_builds, signal_made, scan-signals, bound-signals, condition_builds,
  condition_made, scan-conditionals, bound-conditionals, timer_builds, timer_made, scan-timers,
  bound_timers-ids,
}
use bpmninja.Engine.Boundary.Listed.{
  messages_listed, messages_owned, signals_listed, signals_owned, conditionals_listed,
  conditionals_owned, timers_listed, timers_owned,
}

-- What becomes of an entry: it is gone if it is meant, and else it stays.
abbrev pub Fate : {W : Type 0} → (W → Type 0) → Option W → Option W → Type 0
Fate Meant none after = after ≡ none
Fate Meant (some w) after = Meant w × (after ≡ none) ⊎ (¬ Meant w) × (after ≡ some w)

module _ {A W : Type 0} (make : A → Bool → BpmnElement) (nodes : Nodes) where
  -- The waits are those of the bound nodes, with their values.
  abbrev pub SetsUp : (W → String) → (W → A → Type 0) → List W → Type 0
  SetsUp node_of IsFor waits =
      (node_id : String) (a : A)
      → IsBound make nodes node_id a ↔ ((w : W) × Among w waits × (node_of w ≡ node_id) × IsFor w a)

  -- The wait is one of the instance at a bound node.
  abbrev pub IsMine : (id : Uuid) (instance_of : W → Uuid) (node_of : W → String) → W → Type 0
  IsMine id instance_of node_of w =
      (instance_of w ≡ id) × ((a : A) × IsBound make nodes (node_of w) a)

  module _ (on : BpmnElement → Option A)
      (builds : (e : BpmnElement) (a : A) → on e ≡ some a → (c : Bool) × (make a c ≡ e))
      (made : (a : A) (c : Bool) → on (make a c) ≡ some a) where
    listed-SetsUp :
        (node_of : W → String) (value_of : W → A) (waits : List W)
        → map (λ w. (node_of w, value_of w)) waits ≡ attached on nodes
        → SetsUp node_of (λ w a. value_of w ≡ a) waits
    listed-SetsUp node_of value_of waits listed node_id a =
        let f : W → String × A = λ w. (node_of w, value_of w) in
        (
          (λ bound.
              let (w, among, is) = (Among-map f waits (node_id, a)).0 (
                subst (Among (node_id, a)) (sym listed)
                  ((attached_iff on make builds made nodes node_id a).1 bound)) in
              (w, among, ap (λ x. x.0) is, ap (λ x. x.1) is)),
          (λ (w, among, at, is). (attached_iff on make builds made nodes node_id a).0 (
              subst (Among (node_id, a)) listed (
                (Among-map f waits (node_id, a)).1
                  (w, among, ap (λ n. (n, value_of w)) at ∙ ap (λ v. (node_id, v)) is)))),
        )

    IsMine-Fate :
        (id : Uuid) (instance_of : W → Uuid) (node_of : W → String) (bound : List String)
        → bound ≡ ids (attached on nodes)
        → (o : Option W)
        → Fate
            (IsMine id instance_of node_of)
            o
            (kept (λ w. not (is_mine id bound (instance_of w) (node_of w))) o)
    IsMine-Fate id instance_of node_of bound scanned none = refl
    IsMine-Fate id instance_of node_of bound scanned (some w) =
        elim (Bool-cases (is_mine id bound (instance_of w) (node_of w))) [
          | inl mine ↦
              let (a, there) =
                any-ids (attached on nodes) (node_of w)
                  (subst (λ b. any (λ x. x == node_of w) b ≡ true) scanned (ground arith)) in
              rw mine (
                inl (
                  (
                    ground (arith, nat_beq_iff (instance_of w) id),
                    (a, (attached_iff on make builds made nodes (node_of w) a).0 there),
                  ),
                  refl,
                ))
          | inr other ↦ rw other (
              inr (
                (λ (own, (a, bound_there)).
                    let found =
                      subst (λ b. any (λ x. x == node_of w) b ≡ true) (sym scanned)
                        (ids-any (attached on nodes) (node_of w) a
                          ((attached_iff on make builds made nodes (node_of w) a).1 bound_there)) in
                    ground (arith, found, other, nat_beq_iff (instance_of w) id)),
                refl,
              ))
        ]

module _ {V : Type 0} (calendar : Calendar) (now : ℕ) (fresh : ℕ → Uuid) (def : ProcessDefinition V)
    (node : String) (id : Uuid) (token : Token V) where
  -- Entering an activity.
  abbrev pub Entered : Type 0
  Entered =
      let found = setup_boundary_events calendar now fresh def node id token in
      SetsUp (BpmnElement.boundary_message_event node) def.nodes (λ m. m.node_id)
        (λ m name. m.message_name ≡ name) found.messages
      × SetsUp (BpmnElement.boundary_signal_event node) def.nodes (λ g. g.node_id)
          (λ g name. g.signal_name ≡ name) found.signals
      × SetsUp (BpmnElement.boundary_conditional_event node) def.nodes (λ c. c.node_id)
          (λ c condition. c.condition ≡ condition) found.conditionals
      × All (λ m. (m.instance_id ≡ id) × (m.token_id ≡ token.id)) found.messages
      × All (λ g. (g.instance_id ≡ id) × (g.token_id ≡ token.id)) found.signals
      × All (λ c. (c.instance_id ≡ id) × (c.token_id ≡ token.id)) found.conditionals

  entered : Entered
  unfolding setup_boundary_events
  entered = (
    listed-SetsUp (BpmnElement.boundary_message_event node) def.nodes (message_on node)
        (message_builds node) (message_made node) (λ m. m.node_id) (λ m. m.message_name) _
        (messages_listed calendar now fresh id token.id _ _ ∙ scan-messages node def.nodes),
    listed-SetsUp (BpmnElement.boundary_signal_event node) def.nodes (signal_on node)
        (signal_builds node) (signal_made node) (λ g. g.node_id) (λ g. g.signal_name) _
        (signals_listed calendar now fresh id token.id _ _ ∙ scan-signals node def.nodes),
    listed-SetsUp (BpmnElement.boundary_conditional_event node) def.nodes (condition_on node)
        (condition_builds node) (condition_made node) (λ c. c.node_id) (λ c. c.condition) _
        (conditionals_listed calendar now fresh id token.id _ _ ∙ scan-conditionals node def.nodes),
    messages_owned calendar now fresh id token.id _ _,
    signals_owned calendar now fresh id token.id _ _,
    conditionals_owned calendar now fresh id token.id _ _,
  )

  -- Leaving an activity.
  abbrev pub Left : Engine V → Engine V → Type 0
  Left s after =
      ((k : Uuid)
        → Fate
            (IsMine {A = String} (BpmnElement.boundary_message_event node) def.nodes id
              (λ (m : PendingMessageCatch). m.instance_id) (λ m. m.node_id))
            (get k s.pending_message_catches) (get k after.pending_message_catches))
      × ((k : Uuid)
          → Fate
              (IsMine {A = String} (BpmnElement.boundary_signal_event node) def.nodes id
                (λ (g : PendingSignalCatch). g.instance_id) (λ g. g.node_id))
              (get k s.pending_signal_catches) (get k after.pending_signal_catches))
      × ((k : Uuid)
          → Fate
              (IsMine {A = String} (BpmnElement.boundary_conditional_event node) def.nodes id
                (λ (c : PendingConditionalCatch). c.instance_id) (λ c. c.node_id))
              (get k s.pending_conditional_catches) (get k after.pending_conditional_catches))

  -- Entering an activity makes a message, signal or conditional catch for each boundary event of that
  -- kind that is attached to it, with the node and what the event waits for, and for nothing else; all
  -- are catches of the instance and of the token. Leaving it takes away every pending catch of the
  -- instance at a boundary event of that kind that is attached to the activity, and no other catch;
  -- for that the instance must be there, its definition be registered, and every pending map have its
  -- entries under their own identifiers.
  pub setup-cancel_waits :
      (inst : ProcessInstance V) (s : Engine V)
      → get id s.instances ≡ some inst
      → get inst.definition_key s.definitions ≡ some def
      → HasKeyedWaits s
      → Entered × Left s (cancel_boundary_waits id node s)
  unfolding cancel_boundary_waits
  setup-cancel_waits inst s there known keyed = (
    entered,
    (
      (λ k.
          rw (there, cancel_boundary_waits)
            (rw (known, nodes_of)
              (subst (Fate _ (get k s.pending_message_catches))
                (sym (get-select k _ s.pending_message_catches keyed.messages.0))
                (IsMine-Fate (BpmnElement.boundary_message_event node) def.nodes (message_on node)
                  (message_builds node) (message_made node) id (λ m. m.instance_id) (λ m. m.node_id)
                  (bound_waits node def.nodes).messages (bound-messages node def.nodes)
                  (get k s.pending_message_catches))))),
      (λ k.
          rw (there, cancel_boundary_waits)
            (rw (known, nodes_of)
              (subst (Fate _ (get k s.pending_signal_catches))
                (sym (get-select k _ s.pending_signal_catches keyed.signals.0))
                (IsMine-Fate (BpmnElement.boundary_signal_event node) def.nodes (signal_on node)
                  (signal_builds node) (signal_made node) id (λ g. g.instance_id) (λ g. g.node_id)
                  (bound_waits node def.nodes).signals (bound-signals node def.nodes)
                  (get k s.pending_signal_catches))))),
      (λ k.
          rw (there, cancel_boundary_waits)
            (rw (known, nodes_of)
              (subst (Fate _ (get k s.pending_conditional_catches))
                (sym (get-select k _ s.pending_conditional_catches keyed.conditionals.0))
                (IsMine-Fate (BpmnElement.boundary_conditional_event node) def.nodes
                  (condition_on node) (condition_builds node) (condition_made node) id
                  (λ c. c.instance_id) (λ c. c.node_id) (bound_waits node def.nodes).conditionals
                  (bound-conditionals node def.nodes) (get k s.pending_conditional_catches))))),
    ),
  )

  -- The same of the timers: the nodes and definitions of the timers are those of the attached timer
  -- events, and leaving the activity cancels the timers of the instance at these.
  setup-cancel_timers :
      (inst : ProcessInstance V) (s : Engine V)
      → get id s.instances ≡ some inst
      → get inst.definition_key s.definitions ≡ some def
      → HasKeyedWaits s
      → let found = (setup_boundary_events calendar now fresh def node id token).timers in
        (map {B = String × Option TimerDefinition} (λ t. (t.node_id, t.timer_def)) found
          ≡ map {B = String × Option TimerDefinition}
              (λ x. (x.0, some x.1))
              (attached (timer_on node) def.nodes))
        × All (λ t. (t.instance_id ≡ id) × (t.token_id ≡ token.id)) found
        × ((k : Uuid)
            → Fate
                (IsMine
                  (BpmnElement.boundary_timer_event node)
                  def.nodes
                  id
                  (λ (t : PendingTimer). t.instance_id)
                  (λ t. t.node_id))
                (get k s.pending_timers)
                (get k (cancel_boundary_timers id node s).pending_timers))
  unfolding setup_boundary_events cancel_boundary_timers
  setup-cancel_timers inst s there known keyed = (
    timers_listed calendar now fresh id token.id _ _
        ∙ ap (λ found. map {B = String × Option TimerDefinition} (λ x. (x.0, some x.1)) found)
            (scan-timers node def.nodes),
    timers_owned calendar now fresh id token.id _ _,
    (λ k.
        rw (there, cancel_boundary_timers)
          (rw (known, nodes_of)
            (subst (Fate _ (get k s.pending_timers))
              (sym (
                ap (λ m. get k m) (retain_pending_timers_retained _ s)
                ∙ get-select k _ s.pending_timers keyed.timers.0))
              (IsMine-Fate (BpmnElement.boundary_timer_event node) def.nodes (timer_on node)
                (timer_builds node) (timer_made node) id (λ t. t.instance_id) (λ t. t.node_id)
                (bound_timers node def.nodes) (bound_timers-ids node def.nodes)
                (get k s.pending_timers))))),
  )
