-- ===== src/Engine/EventScope/Joined.antt =====
-- The instance that `activate_handler` of engine-core/src/engine/event_subprocess.rs leaves.
use bpmninja.Prelude.{
  ℕ, ◌≡◌, ◌≢◌, refl, sym, ap, ◌∙◌, ◌⊎◌, inl, inr, String, true, false, Option, none, some, List, [],
  ◌∷◌, Map, get, get-insert_self, insert, nat_eq, any, nat_beq, Bool-cases, subst,
}
use bpmninja.Domain.Error.{Uuid}
use bpmninja.Domain.Timer.{Calendar}
use bpmninja.Domain.Token.{Token}
use bpmninja.Domain.Graph.{EventSubProcess}
use bpmninja.Runtime.Instance.{ProcessInstance, EventSubscription}
use bpmninja.Runtime.State.{Engine}
use bpmninja.Engine.Waits.{each}
use bpmninja.Engine.Waits.Cancelled.{cancel_scope_waits_instances}
use bpmninja.Engine.EventScope.{code_event, is_runnable, is_timer, TimerReschedule}
use bpmninja.Engine.EventScope.Handler.{
  put_instance, handler_token, with_handler, without_scope, renewed, retain_consumption,
}
use bpmninja.Engine.EventScope.Activation.{interrupt, run_beside, activate_handler}

empty_or : {A : Type 0} (xs : List A) → (xs ≡ []) ⊎ (xs ≢ [])
empty_or [] = inl refl
empty_or (x ∷ xs) = inr (λ e. cc)

module _ {V : Type 0} (new_id instance_id : Uuid) where
  -- The instance stands at the start node of the handler and has the token.
  abbrev pub Joins : EventSubProcess → Token V → Engine V → Type 0
  Joins h token s' =
      (joined : ProcessInstance V) × (get instance_id s'.instances ≡ some joined)
      × (get new_id joined.tokens ≡ some token)
      × (joined.current_node ≡ h.start_node)

module _ {V : Type 0} (calendar : Calendar) (now : ℕ) (new_id instance_id : Uuid)
    (variables : Map String V) where
  with_handler-Joins :
      (h : EventSubProcess) (inst : ProcessInstance V) (s s' : Engine V)
      → s'.instances ≡ insert instance_id (with_handler new_id h variables inst) s.instances
      → Joins new_id instance_id h (handler_token new_id h variables inst) s'
  unfolding with_handler
  with_handler-Joins h inst s s' put = (
    with_handler new_id h variables inst,
    ap (λ m. get instance_id m) put ∙ get-insert_self instance_id _ s.instances,
    get-insert_self new_id (handler_token new_id h variables inst) inst.tokens,
    refl,
  )

  renewed_variables :
      (h : EventSubProcess) (x : EventSubscription) (next : Option TimerReschedule)
      (inst : ProcessInstance V)
      → (renewed h x next inst).variables ≡ inst.variables
  renewed_variables h x (some next) inst = refl
  renewed_variables h x none inst = elim (Bool-cases (is_timer h.trigger)) [
    | inl timer ↦ rw timer refl
    | inr other ↦ rw other refl
  ]

  run_beside-Joins :
      (h : EventSubProcess) (x : EventSubscription) (inst : ProcessInstance V) (s : Engine V)
      → Joins new_id instance_id h
          (handler_token new_id h variables inst)
          (run_beside calendar now new_id instance_id h x variables code_event inst s)
  unfolding run_beside retain_consumption
  run_beside-Joins h x inst s =
      subst
        (λ vs.
          Joins new_id instance_id h
            (handler_token new_id h variables (record inst { variables = vs }))
            (run_beside calendar now new_id instance_id h x variables code_event inst s))
        (renewed_variables h x _ inst)
        (with_handler-Joins h (renewed h x _ inst) s
          (run_beside calendar now new_id instance_id h x variables code_event inst s) refl)

  interrupt-Joins :
      (h : EventSubProcess) (inst : ProcessInstance V) (s : Engine V)
      → inst.outstanding_calls ≡ []
      → Joins new_id instance_id h
          (handler_token new_id h variables inst)
          (interrupt calendar now new_id instance_id h variables inst s)
  unfolding interrupt each
  interrupt-Joins h inst s alone =
      with_handler-Joins h (without_scope inst) s
        (interrupt calendar now new_id instance_id h variables inst s)
        (rw (alone, interrupt)
          (cancel_scope_waits_instances instance_id
            (put_instance instance_id (with_handler new_id h variables (without_scope inst)) s)))

  module _ (h : EventSubProcess) (x : EventSubscription) (inst : ProcessInstance V) (s : Engine V)
      (there : get instance_id s.instances ≡ some inst) (may : is_runnable inst.state ≡ true)
      (among : any (λ y. nat_beq y.id x.id) inst.event_subscriptions ≡ true) where
    activate_handler_interrupts :
        h.is_interrupting ≡ true
        → (activate_handler calendar now new_id instance_id h x variables code_event s).1
          ≡ interrupt calendar now new_id instance_id h variables inst s
    unfolding activate_handler
    activate_handler_interrupts interrupts =
        rw (there, activate_handler) (rw (may, ◌≡◌) (rw (among, ◌≡◌) (rw (interrupts, ◌≡◌) refl)))

    activate_handler_beside :
        h.is_interrupting ≡ false
        → (activate_handler calendar now new_id instance_id h x variables code_event s).1
          ≡ run_beside calendar now new_id instance_id h x variables code_event inst s
    unfolding activate_handler
    activate_handler_beside beside =
        rw (there, activate_handler) (rw (may, ◌≡◌) (rw (among, ◌≡◌) (rw (beside, ◌≡◌) refl)))

    -- Only an interruption that aborts calls may leave something else.
    pub activate_handler-Joins :
        (h.is_interrupting ≡ true) × (inst.outstanding_calls ≢ [])
        ⊎ Joins new_id instance_id h
            (handler_token new_id h variables inst)
            (activate_handler calendar now new_id instance_id h x variables code_event s).1
    activate_handler-Joins =
        let Joined : Engine V → Type 0 =
          Joins new_id instance_id h (handler_token new_id h variables inst) in
        elim (Bool-cases h.is_interrupting) [
          | inl interrupts ↦ elim (empty_or inst.outstanding_calls) [
            | inl alone ↦ inr (
                subst Joined (sym (activate_handler_interrupts interrupts))
                  (interrupt-Joins h inst s alone))
            | inr calls ↦ inl (interrupts, calls)
          ]
          | inr beside ↦
              inr
                (subst Joined (sym (activate_handler_beside beside)) (run_beside-Joins h x inst s))
        ]
