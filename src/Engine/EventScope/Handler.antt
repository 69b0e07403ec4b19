-- ===== src/Engine/EventScope/Handler.antt =====
-- engine-core/src/engine/event_subprocess.rs: starting a handler. `now` is the clock reading and
-- `new_id` the `Uuid::new_v4()` of the token of the handler.
use bpmninja.Prelude.{
  ℕ, zero, suc, String, true, false, not, Option, none, some, List, [], ◌∷◌, ◌++◌, Map, get, insert,
  extend, keys, nat_eq, string_eq, if◌then◌else◌, ltb, nat_beq, length, select,
}
use bpmninja.Domain.Error.{Uuid}
use bpmninja.Domain.Token.{Token, with_variables}
use bpmninja.Domain.Graph.{EventSubProcess}
use bpmninja.Runtime.Instance.{
  ProcessInstance, InstanceState, EventSubscription, scope_interrupted, handler_activated,
}
use bpmninja.Runtime.State.{Engine, emit, persist_instance}
use bpmninja.Engine.Incidents.{push_audit_log}
use bpmninja.Engine.TimerIndex.{insert_pending_timer}
use bpmninja.Engine.Waits.{each, cancel_scope_waits}
use bpmninja.Engine.EventScope.{
  EventConsumption, timer, message, signal, code_event, TimerReschedule, is_terminal, is_timer,
}

unfoldable pub consumption_id : EventConsumption → Uuid
consumption_id (timer t) = t.id
consumption_id (message catch) = catch.id
consumption_id (signal catch) = catch.id
consumption_id code_event = 0

-- `iter_mut().find(…)` on the subscriptions, and the update of what was found.
unfoldable pub move_due : Uuid → TimerReschedule → List EventSubscription → List EventSubscription
move_due id next [] = []
move_due id next (x ∷ xs) =
    if nat_beq x.id id
    then record x { next_due = some next.expires_at; remaining = next.remaining } ∷ xs
    else x ∷ move_due id next xs

module _ {V : Type 0} where
  -- What an interruption takes from an instance.
  abbrev pub without_scope : ProcessInstance V → ProcessInstance V
  without_scope inst = record inst {
    tokens = [];
    active_tokens = [];
    join_barriers = [];
    multi_instance_state = [];
    outstanding_calls = [];
    event_subscriptions = [];
    event_handler_tokens = [];
  }

  unfoldable pub interrupted : (now : ℕ) → ProcessInstance V → ProcessInstance V
  unfolding push_audit_log
  interrupted now inst = push_audit_log scope_interrupted (record (without_scope inst) {
    state = InstanceState.completed_with_error "SCOPE_INTERRUPTED";
    completed_at = some now;
  })

  -- `abort_interrupted_instance`. A call ends an instance before it goes on to its children, so the
  -- number of instances that have not ended is enough fuel.
  unfoldable pub abort_interrupted_instance : (fuel now : ℕ) → Uuid → Engine V → Engine V
  unfolding interrupted cancel_scope_waits each
  abort_interrupted_instance zero now instance_id s = s
  abort_interrupted_instance (suc fuel) now instance_id s = elim (get instance_id s.instances) [
    | none ↦ s
    | some inst ↦ elim (is_terminal inst.state) [
      | true ↦ s
      | false ↦ each (abort_interrupted_instance fuel now) (keys inst.outstanding_calls) (
          emit (persist_instance instance_id) (
            cancel_scope_waits instance_id
              (record s { instances = insert instance_id (interrupted now inst) s.instances })))
    ]
  ]

  -- What a handler that does not interrupt does to the subscriptions.
  abbrev pub renewed :
      EventSubProcess
      → EventSubscription
      → Option TimerReschedule
      → ProcessInstance V
      → ProcessInstance V
  renewed handler subscription (some next) inst = record inst {
    event_subscriptions = move_due subscription.id next inst.event_subscriptions;
  }
  renewed handler subscription none inst =
      if is_timer handler.trigger
      then record inst {
        event_subscriptions =
            select (λ x. not (nat_beq x.id subscription.id)) inst.event_subscriptions;
      }
      else inst

  abbrev pub parallel_state : InstanceState V → ℕ → InstanceState V
  parallel_state (InstanceState.parallel_execution count) n =
      if ltb 1 n then InstanceState.parallel_execution n else InstanceState.parallel_execution count
  parallel_state state n = InstanceState.parallel_execution n

  -- The token of the handler, and the instance that it joins.
  abbrev pub handler_token :
      (new_id : Uuid) → EventSubProcess → Map String V → ProcessInstance V → Token V
  handler_token new_id handler variables inst =
      with_variables new_id handler.start_node (extend inst.variables variables)

  unfoldable pub with_handler :
      (new_id : Uuid) → EventSubProcess → Map String V → ProcessInstance V → ProcessInstance V
  unfolding with_variables push_audit_log
  with_handler new_id handler variables inst =
      let token = handler_token new_id handler variables inst in
      let tokens = insert new_id token inst.tokens in
      push_audit_log (handler_activated handler.id handler.is_interrupting) (record inst {
        variables = extend inst.variables variables;
        event_handler_tokens = insert new_id handler.id inst.event_handler_tokens;
        tokens = tokens;
        active_tokens =
            inst.active_tokens
            ++ record {
              token = token;
              fork_id = some handler.id;
              branch_index = length inst.active_tokens;
              completed = false;
            }
              ∷ [];
        current_node = handler.start_node;
        state =
            if handler.is_interrupting
            then InstanceState.running
            else parallel_state inst.state (length tokens);
      })

  abbrev pub put_instance : Uuid → ProcessInstance V → Engine V → Engine V
  put_instance id inst s = record s { instances = insert id inst s.instances }

  unfoldable pub reinsert_consumption : EventConsumption → Engine V → Engine V
  unfolding insert_pending_timer
  reinsert_consumption (timer t) s = insert_pending_timer t s
  reinsert_consumption (message catch) s = record s {
    pending_message_catches = insert catch.id catch s.pending_message_catches;
  }
  reinsert_consumption (signal catch) s = record s {
    pending_signal_catches = insert catch.id catch s.pending_signal_catches;
  }
  reinsert_consumption code_event s = s

  unfoldable pub retain_consumption :
      EventConsumption → EventSubscription → Option TimerReschedule → Engine V → Engine V
  unfolding insert_pending_timer
  retain_consumption (message catch) subscription reschedule s = record s {
    pending_message_catches = insert catch.id catch s.pending_message_catches;
  }
  retain_consumption (signal catch) subscription reschedule s = record s {
    pending_signal_catches = insert catch.id catch s.pending_signal_catches;
  }
  retain_consumption (timer t) subscription (some next) s =
      insert_pending_timer
        (record t {
          expires_at = next.expires_at;
          token_id = subscription.id;
          timer_def = some next.definition;
          remaining_repetitions = next.remaining;
        })
        s
  retain_consumption (timer t) subscription none s = s
  retain_consumption code_event subscription reschedule s = s
