-- ===== src/Engine/EventScope/Activation.antt =====
-- engine-core/src/engine/event_subprocess.rs: which handlers start. `now` is the clock reading and
-- `new_id` the `Uuid::new_v4()` of the token of the handler.
use bpmninja.Prelude.{
  ℕ, String, Bool, not, Option, none, some, Map, get, keys, nat_eq, string_eq, if◌then◌else◌,
  nat_beq, length, any, find,
}
use bpmninja.Domain.Error.{
  Uuid, EngineResult, ok, err, no_such_instance, invalid_definition, subprocess_missing,
}
use bpmninja.Domain.Timer.{Calendar}
use bpmninja.Domain.Graph.{EventSubProcess, event_subprocess_by_id}
use bpmninja.Runtime.Instance.{ProcessInstance, InstanceState, EventSubscription}
use bpmninja.Runtime.State.{Engine, emit, persist_instance, find_instance, find_definition}
use bpmninja.Engine.Waits.{each, cancel_scope_waits}
use bpmninja.Engine.EventScope.{
  EventConsumption, code_event, ScopeActivation, interrupting, parallel, is_terminal, is_runnable,
  reschedule_timer, Candidate, candidates, sorted, first,
}
use bpmninja.Engine.EventScope.Handler.{
  consumption_id, move_due, without_scope, abort_interrupted_instance, renewed, handler_token,
  with_handler, reinsert_consumption, retain_consumption, put_instance,
}

module _ {V : Type 0} (calendar : Calendar) (now : ℕ) (new_id : Uuid) where
  -- The start of a handler that interrupts, and of one that does not, on an instance that may run.
  unfoldable pub interrupt :
      Uuid → EventSubProcess → Map String V → ProcessInstance V → Engine V → Engine V
  unfolding with_handler each abort_interrupted_instance cancel_scope_waits
  interrupt instance_id handler variables inst s = emit (persist_instance instance_id) (
      each (abort_interrupted_instance (length s.instances) now) (keys inst.outstanding_calls) (
        cancel_scope_waits instance_id (
          put_instance instance_id (with_handler new_id handler variables (without_scope inst)) s)))

  unfoldable pub run_beside :
      Uuid
      → EventSubProcess
      → EventSubscription
      → Map String V
      → EventConsumption
      → ProcessInstance V
      → Engine V
      → Engine V
  unfolding with_handler reschedule_timer move_due retain_consumption
  run_beside instance_id handler subscription variables consumption inst s =
      let next = reschedule_timer calendar handler subscription now in
      emit (persist_instance instance_id) (
        retain_consumption consumption subscription next (
          put_instance instance_id
            (with_handler new_id handler variables (renewed handler subscription next inst)) s))

  unfoldable pub activate_handler :
      Uuid
      → EventSubProcess
      → EventSubscription
      → Map String V
      → EventConsumption
      → Engine V
      → EngineResult (Option (ScopeActivation V)) × Engine V
  unfolding interrupt run_beside
  activate_handler instance_id handler subscription variables consumption s =
      elim (get instance_id s.instances) [
        | none ↦ (err (no_such_instance instance_id), s)
        | some inst ↦
            if not (is_runnable inst.state)
            then (ok none, s)
            else if not (any (λ x. nat_beq x.id subscription.id) inst.event_subscriptions)
            then (ok none, s)
            else if handler.is_interrupting
            then (
              ok (some (interrupting (handler_token new_id handler variables inst))),
              interrupt instance_id handler variables inst s,
            )
            else (
              ok (some (parallel (handler_token new_id handler variables inst))),
              run_beside instance_id handler subscription variables consumption inst s,
            )
      ]

  abbrev pub activate_first :
      Uuid
      → Map String V
      → Option Candidate
      → Engine V
      → EngineResult (Option (ScopeActivation V)) × Engine V
  activate_first instance_id variables none s = (ok none, s)
  activate_first instance_id variables (some c) s =
      activate_handler instance_id c.handler c.subscription variables code_event s

  unfoldable pub try_activate_event_code :
      Uuid
      → String
      → (is_escalation : Bool) → Map String V
      → Option String
      → Engine V
      → EngineResult (Option (ScopeActivation V)) × Engine V
  unfolding candidates sorted activate_handler
  try_activate_event_code instance_id thrown is_escalation variables exclude s =
      elim (find_instance s instance_id) [
        | err e ↦ (err e, s)
        | ok inst ↦
            if not (is_runnable inst.state)
            then (ok none, s)
            else elim (find_definition s inst.definition_key) [
              | err e ↦ (err e, s)
              | ok def ↦
                  activate_first instance_id variables
                    (first (
                      sorted
                        (candidates def thrown is_escalation exclude inst.event_subscriptions)))
                    s
            ]
      ]

  -- The subscription of a timer, a message or a signal fires.
  unfoldable pub activate_event_subscription :
      Uuid
      → EventConsumption
      → Map String V
      → Engine V
      → EngineResult (Option (ScopeActivation V)) × Engine V
  unfolding consumption_id reinsert_consumption event_subprocess_by_id activate_handler
  activate_event_subscription instance_id consumption variables s =
      elim (find_instance s instance_id) [
        | err e ↦ (err e, s)
        | ok inst ↦ elim inst.state [
          | InstanceState.suspended _ ↦ (ok none, reinsert_consumption consumption s)
          | state ↦
              if is_terminal state
              then (ok none, s)
              else elim (find (λ x. nat_beq x.id (consumption_id consumption))
                  inst.event_subscriptions) [
                    | none ↦ (ok none, s)
                    | some subscription ↦ elim (find_definition s inst.definition_key) [
                      | err e ↦ (err e, s)
                      | ok def ↦ elim (event_subprocess_by_id def subscription.subprocess_id) [
                        | none ↦ (
                          err (invalid_definition (subprocess_missing subscription.subprocess_id)),
                          s,
                        )
                        | some handler ↦
                            activate_handler instance_id handler subscription variables consumption
                              s
                      ]
                    ]
                  ]
        ]
      ]
