-- ===== src/Engine/EventScope/Started.antt =====
-- What `try_activate_event_code` of engine-core/src/engine/event_subprocess.rs starts.
use bpmninja.Prelude.{
  Among, ℕ, ◌≡◌, ◌≢◌, refl, sym, ap, ◌⊎◌, inl, inr, String, Bool, true, Option, none, some, List,
  [], ◌∷◌, Map, get, nat_eq, nat_beq, nat_beq_iff, string_eq, option_eq, if◌then◌else◌, any, arith,
  Bool-cases, subst,
}
use bpmninja.Domain.Error.{Uuid, EngineResult, ok}
use bpmninja.Domain.Timer.{Calendar}
use bpmninja.Domain.Token.{Token, with_variables}
use bpmninja.Domain.Graph.{ProcessDefinition, EventSubProcess}
use bpmninja.Runtime.Instance.{ProcessInstance, EventSubscription}
use bpmninja.Runtime.State.{Engine}
use bpmninja.Engine.EventScope.{
  ScopeActivation, interrupting, parallel, Candidate, candidates, code_event, is_runnable, sorted,
  first,
}
use bpmninja.Engine.EventScope.Handler.{handler_token}
use bpmninja.Engine.EventScope.Activation.{
  activate_handler, activate_first, try_activate_event_code,
}
use bpmninja.Engine.EventScope.Joined.{Joins, activate_handler-Joins}
use bpmninja.Engine.EventScope.Choice.{Chosen, sorted-Chosen}
use bpmninja.Engine.EventScope.Preferred.{
  Preferred, NoneHandles, Chosen-Preferred, NoneCatches-NoneHandles,
}

any-Among :
    (x : EventSubscription) (xs : List EventSubscription)
    → Among x xs
    → any (λ y. nat_beq y.id x.id) xs ≡ true
any-Among x [] there = elim there [ ]
any-Among x (y ∷ ys) (inl same) = ground (arith, ap (λ z. z.id) same, nat_beq_iff y.id x.id)
any-Among x (y ∷ ys) (inr later) = ground (arith, any-Among x ys later)

module _ {V : Type 0} (calendar : Calendar) (now : ℕ) (new_id instance_id : Uuid) (thrown : String)
    (is_escalation : Bool) (variables : Map String V) (exclude : Option String) where
  -- The result of an activation.
  abbrev pub activation : EventSubProcess → Token V → ScopeActivation V
  activation handler token = if handler.is_interrupting then interrupting token else parallel token

  -- What starts: nothing, if no open subscription has such a handler, and the engine stays as it is;
  -- or a preferred handler, by a token at its start node, where the instance then has the token and
  -- stands, unless the handler interrupts an instance that has outstanding calls.
  abbrev pub Starts :
      ProcessDefinition V
      → ProcessInstance V
      → Engine V
      → EngineResult (Option (ScopeActivation V)) × Engine V
      → Type 0
  Starts def inst s (result, s') =
      ((result ≡ ok none)
        × (s' ≡ s)
        × NoneHandles def thrown is_escalation exclude inst.event_subscriptions)
      ⊎ ((x : EventSubscription) × (h : EventSubProcess) × (token : Token V) × Preferred def thrown
            is_escalation exclude inst.event_subscriptions x h
          × (result ≡ ok (some (activation h token)))
          × (token.current_node ≡ h.start_node)
          × ((h.is_interrupting ≡ true) × (inst.outstanding_calls ≢ [])
              ⊎ Joins new_id instance_id h token s')
          × (s' ≡ (activate_handler calendar now new_id instance_id h x variables code_event s).1))

  activate_handler_started :
      (h : EventSubProcess) (x : EventSubscription) (inst : ProcessInstance V) (s : Engine V)
      → get instance_id s.instances ≡ some inst
      → is_runnable inst.state ≡ true
      → Among x inst.event_subscriptions
      → (activate_handler calendar now new_id instance_id h x variables code_event s).0
        ≡ ok (some (activation h (handler_token new_id h variables inst)))
  unfolding activate_handler
  activate_handler_started h x inst s there may among =
      rw (there, activate_handler)
        (rw (may, ◌≡◌)
          (rw (any-Among x inst.event_subscriptions among, ◌≡◌)
            (elim (Bool-cases h.is_interrupting) [
              | inl interrupts ↦ rw interrupts refl
              | inr beside ↦ rw beside refl
            ])))

  first-Starts :
      (def : ProcessDefinition V) (inst : ProcessInstance V) (s : Engine V)
      → get instance_id s.instances ≡ some inst
      → is_runnable inst.state ≡ true
      → (o : Option Candidate) → Chosen def thrown is_escalation exclude inst.event_subscriptions o
      → Starts def inst s (activate_first calendar now new_id instance_id variables o s)
  unfolding with_variables
  first-Starts def inst s there may none nothing = inl (
    refl,
    refl,
    NoneCatches-NoneHandles def thrown is_escalation exclude inst.event_subscriptions nothing,
  )
  first-Starts def inst s there may (some c) chosen = inr (
    c.subscription,
    c.handler,
    handler_token new_id c.handler variables inst,
    Chosen-Preferred def thrown is_escalation exclude inst.event_subscriptions c chosen,
    activate_handler_started c.handler c.subscription inst s there may chosen.0,
    refl,
    activate_handler-Joins calendar now new_id instance_id variables c.handler c.subscription inst s
        there may (any-Among c.subscription inst.event_subscriptions chosen.0),
    refl,
  )

  choice_first :
      (def : ProcessDefinition V) (inst : ProcessInstance V) (s : Engine V)
      → get instance_id s.instances ≡ some inst
      → is_runnable inst.state ≡ true
      → get inst.definition_key s.definitions ≡ some def
      → try_activate_event_code calendar now new_id instance_id thrown is_escalation variables
          exclude s
        ≡ activate_first calendar now new_id instance_id variables
            (first (sorted (candidates def thrown is_escalation exclude inst.event_subscriptions)))
            s
  unfolding try_activate_event_code
  choice_first def inst s there may known =
      rw (there, try_activate_event_code)
        (rw (may, try_activate_event_code) (rw (known, try_activate_event_code) refl))

  -- In an instance that is there and may run, with a registered definition, a thrown code starts a
  -- handler of an open subscription that is not excluded, by a token at the start node of the
  -- handler: one that is for this code, with the least identifier of those; or, if there is none, one
  -- that is for every code, with the least identifier of those. The instance then has the token and
  -- stands at that node, unless the handler interrupts it while it has outstanding calls. Without
  -- either handler nothing changes.
  pub try_activate_event_code-Starts :
      (def : ProcessDefinition V) (inst : ProcessInstance V) (s : Engine V)
      → get instance_id s.instances ≡ some inst
      → is_runnable inst.state ≡ true
      → get inst.definition_key s.definitions ≡ some def
      → Starts def inst s (
          try_activate_event_code calendar now new_id instance_id thrown is_escalation variables
            exclude s)
  try_activate_event_code-Starts def inst s there may known =
      subst (Starts def inst s) (sym (choice_first def inst s there may known)) (
        first-Starts def inst s there may
          (first (sorted (candidates def thrown is_escalation exclude inst.event_subscriptions)))
          (sorted-Chosen def thrown is_escalation exclude inst.event_subscriptions))
