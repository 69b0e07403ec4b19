-- ===== src/Engine/Waits.antt =====
-- What an instance waits for, over all maps of pending entries: the `retain` calls that
-- engine-core/src/engine/executor/next_action.rs and engine-core/src/engine/instance_ops.rs make
-- when an instance ends or is deleted, and `cancel_scope_waits` and `close_event_scope` of
-- engine-core/src/engine/event_subprocess.rs.
pub mod Loops
pub mod Released
pub mod Bodies
pub mod Dropped
pub mod Cancelled
pub mod Subscription
pub mod Scope
pub mod Consistent
use bpmninja.Prelude.{
  Bool, true, false, not, Option, none, some, List, [], ◌∷◌, Map, map, get, insert, remove, nat_eq,
  if◌then◌else◌, nat_beq, select,
}
use bpmninja.Domain.Error.{Uuid}
use bpmninja.Runtime.Pending.{
  PendingUserTask, PendingServiceTask, PendingTimer, PendingMessageCatch, PendingSignalCatch,
  PendingConditionalCatch,
}
use bpmninja.Runtime.Instance.{EventSubscription, ProcessInstance, scope_closed}
use bpmninja.Runtime.State.{
  Engine, Effect, emit, remove_persisted_user_task, remove_persisted_service_task,
  remove_persisted_timer, remove_persisted_message_catch, remove_persisted_signal_catch,
  remove_persisted_conditional_catch,
}
use bpmninja.Engine.Incidents.{push_audit_log}
use bpmninja.Engine.TopicIndex.{
  remove_pending_service_task, clear_pending_service_tasks_for_instance,
}
use bpmninja.Engine.TimerIndex.{remove_pending_timer, retain_pending_timers}

-- `for id in ids { … }`
unfoldable pub each : {S : Type 0} → (Uuid → S → S) → List Uuid → S → S
each f [] s = s
each f (id ∷ ids) s = each f ids (f id s)

-- `iter().filter(|e| e.instance_id == instance_id).map(|e| e.id).collect()`
unfoldable pub ids_of :
    {A : Type 0} → (A → Uuid) → (A → Uuid) → (instance_id : Uuid) → Map Uuid A → List Uuid
ids_of owner ident instance_id m =
    map (λ e. ident e.1) (select (λ e. nat_beq (owner e.1) instance_id) m)

module _ {V : Type 0} where
  -- The `retain` calls of `Terminate` and of `delete_instance`, in their order.
  unfoldable pub drop_waits : Uuid → Engine V → Engine V
  unfolding clear_pending_service_tasks_for_instance retain_pending_timers
  drop_waits instance_id s =
      let users = record s {
        pending_user_tasks =
            select (λ e. not (nat_beq e.1.instance_id instance_id)) s.pending_user_tasks;
      } in
      let services = clear_pending_service_tasks_for_instance instance_id users in
      let timers = retain_pending_timers (λ t. not (nat_beq t.instance_id instance_id)) services in
      record timers {
        pending_message_catches =
            select (λ e. not (nat_beq e.1.instance_id instance_id)) timers.pending_message_catches;
        pending_signal_catches =
            select (λ e. not (nat_beq e.1.instance_id instance_id)) timers.pending_signal_catches;
        pending_conditional_catches =
            select (λ e. not (nat_beq e.1.instance_id instance_id))
              timers.pending_conditional_catches;
      }

  -- The bodies of the loops of `cancel_scope_waits`.
  unfoldable pub cancel_user_task : Uuid → Engine V → Engine V
  cancel_user_task id s =
      emit (remove_persisted_user_task id)
        (record s { pending_user_tasks = remove id s.pending_user_tasks })

  unfoldable pub cancel_service_task : Uuid → Engine V → Engine V
  unfolding remove_pending_service_task
  cancel_service_task id s =
      emit (remove_persisted_service_task id) (remove_pending_service_task id s).1

  unfoldable pub cancel_timer : Uuid → Engine V → Engine V
  unfolding remove_pending_timer
  cancel_timer id s = emit (remove_persisted_timer id) (remove_pending_timer id s).1

  unfoldable pub cancel_message_catch : Uuid → Engine V → Engine V
  cancel_message_catch id s =
      emit (remove_persisted_message_catch id)
        (record s { pending_message_catches = remove id s.pending_message_catches })

  unfoldable pub cancel_signal_catch : Uuid → Engine V → Engine V
  cancel_signal_catch id s =
      emit (remove_persisted_signal_catch id)
        (record s { pending_signal_catches = remove id s.pending_signal_catches })

  unfoldable pub cancel_conditional_catch : Uuid → Engine V → Engine V
  cancel_conditional_catch id s =
      emit (remove_persisted_conditional_catch id)
        (record s { pending_conditional_catches = remove id s.pending_conditional_catches })

  -- What the loops of `cancel_scope_waits` run over.
  abbrev pub users_of : Uuid → Engine V → List Uuid
  users_of instance_id s =
      ids_of (λ (t : PendingUserTask). t.instance_id) (λ t. t.task_id) instance_id
        s.pending_user_tasks

  abbrev pub services_of : Uuid → Engine V → List Uuid
  services_of instance_id s =
      ids_of (λ (t : PendingServiceTask V). t.instance_id) (λ t. t.id) instance_id
        s.pending_service_tasks

  abbrev pub timers_of : Uuid → Engine V → List Uuid
  timers_of instance_id s =
      ids_of (λ (t : PendingTimer). t.instance_id) (λ t. t.id) instance_id s.pending_timers

  abbrev pub messages_of : Uuid → Engine V → List Uuid
  messages_of instance_id s =
      ids_of (λ (t : PendingMessageCatch). t.instance_id) (λ t. t.id) instance_id
        s.pending_message_catches

  abbrev pub signals_of : Uuid → Engine V → List Uuid
  signals_of instance_id s =
      ids_of (λ (t : PendingSignalCatch). t.instance_id) (λ t. t.id) instance_id
        s.pending_signal_catches

  abbrev pub conditionals_of : Uuid → Engine V → List Uuid
  conditionals_of instance_id s =
      ids_of (λ (t : PendingConditionalCatch). t.instance_id) (λ t. t.id) instance_id
        s.pending_conditional_catches

  -- The identifiers are collected before the first removal.
  unfoldable pub cancel_scope_waits : Uuid → Engine V → Engine V
  unfolding each ids_of cancel_user_task cancel_service_task cancel_timer cancel_message_catch
      cancel_signal_catch cancel_conditional_catch
  cancel_scope_waits instance_id s = each cancel_conditional_catch (conditionals_of instance_id s) (
      each cancel_signal_catch (signals_of instance_id s) (
        each cancel_message_catch (messages_of instance_id s) (
          each cancel_timer (timers_of instance_id s) (
            each cancel_service_task (services_of instance_id s)
              (each cancel_user_task (users_of instance_id s) s)))))

  -- The loop body of `close_event_scope`.
  unfoldable pub close_subscription : Uuid → Engine V → Engine V
  unfolding cancel_timer cancel_message_catch cancel_signal_catch
  close_subscription id s = cancel_signal_catch id (cancel_message_catch id (cancel_timer id s))

  abbrev pub close_subscriptions :
      List EventSubscription → Uuid → ProcessInstance V → Engine V → Engine V
  close_subscriptions [] instance_id inst s = s
  close_subscriptions (first ∷ rest) instance_id inst s =
      each close_subscription (map (λ x. x.id) (first ∷ rest)) (record s {
        instances =
            insert instance_id
              (push_audit_log scope_closed (record inst {
                event_scope = false;
                event_subscriptions = [];
                event_handler_tokens = [];
              }))
              s.instances;
      })

  unfoldable pub close_event_scope : Uuid → Engine V → Engine V
  unfolding each close_subscription push_audit_log
  close_event_scope instance_id s = elim (get instance_id s.instances) [
    | none ↦ s
    | some inst ↦ close_subscriptions inst.event_subscriptions instance_id inst s
  ]
