-- ===== src/Engine/Lifecycle.antt =====
-- engine-core/src/engine/instance_ops.rs: suspending, resuming and deleting an instance. `deleted` is
-- the answer of the persistence layer's `delete_instance`; without persistence it is `ok tt`. The
-- files that the variables refer to are not modelled.
pub mod Suspension
pub mod Deletion
pub mod Definitions
use bpmninja.Prelude.{
  Bool, true, false, Option, none, some, List, [], ◌∷◌, ◌++◌, Map, map, get, insert, remove, nat_eq,
}
use bpmninja.Domain.Error.{
  Uuid, EngineError, EngineResult, ok, err, already_completed, instance_suspended, no_such_instance,
  invalid_definition, not_suspended,
}
use bpmninja.Runtime.Instance.{
  ProcessInstance, InstanceState, AuditEntry, instance_paused, instance_unpaused,
}
use bpmninja.Runtime.State.{
  Engine, Effect, HistoryEventType, ActorType, emit, persist_instance, record_history,
  notify_timers, find_instance, remove_persisted_user_task, remove_persisted_service_task,
  remove_persisted_timer, remove_persisted_message_catch, remove_persisted_signal_catch,
  remove_persisted_conditional_catch, delete_persisted_instance,
}
use bpmninja.Engine.Incidents.{push_audit_log}
use bpmninja.Engine.Waits.{
  drop_waits, ids_of, users_of, services_of, timers_of, messages_of, signals_of, conditionals_of,
}

module _ {V : Type 0} where
  abbrev changed : AuditEntry → HistoryEventType → Uuid → ProcessInstance V → Engine V → Engine V
  changed entry event id inst s = emit (persist_instance id) (
      emit (record_history id event ActorType.user none)
        (record s { instances = insert id (push_audit_log entry inst) s.instances }))

  -- The state that a suspension keeps, or why there is none.
  abbrev pub suspended_state : Uuid → InstanceState V → EngineResult (InstanceState V)
  suspended_state id InstanceState.completed = err already_completed
  suspended_state id (InstanceState.completed_with_error _) = err already_completed
  suspended_state id (InstanceState.suspended _) = err (instance_suspended id)
  suspended_state id state = ok (InstanceState.suspended state)

  abbrev pub resumed_state : InstanceState V → EngineResult (InstanceState V)
  resumed_state (InstanceState.suspended previous) = ok previous
  resumed_state _ = err (invalid_definition not_suspended)

  abbrev pub moved_to :
      (InstanceState V → Engine V)
      → EngineResult (InstanceState V)
      → Engine V
      → EngineResult (Unit {0}) × Engine V
  moved_to go (err e) s = (err e, s)
  moved_to go (ok state) s = (ok tt, go state)

  unfoldable pub suspend_instance : Uuid → Engine V → EngineResult (Unit {0}) × Engine V
  unfolding push_audit_log
  suspend_instance id s = elim (find_instance s id) [
    | err e ↦ (err e, s)
    | ok inst ↦
        moved_to
          (λ state.
            changed instance_paused HistoryEventType.instance_suspended id
              (record inst { state = state }) s)
          (suspended_state id inst.state) s
  ]

  unfoldable pub resume_instance : Uuid → Engine V → EngineResult (Unit {0}) × Engine V
  unfolding push_audit_log
  resume_instance id s = elim (find_instance s id) [
    | err e ↦ (err e, s)
    | ok inst ↦
        moved_to
          (λ state.
            changed instance_unpaused HistoryEventType.instance_resumed id
              (record inst { state = state }) (emit notify_timers s))
          (resumed_state inst.state) s
  ]

  -- The calls of the persistence layer, in their order.
  abbrev deletions : Uuid → Engine V → List Effect
  deletions id s =
      map remove_persisted_user_task (users_of id s)
      ++ (map remove_persisted_service_task (services_of id s)
          ++ (map remove_persisted_timer (timers_of id s)
              ++ (map remove_persisted_message_catch (messages_of id s)
                  ++ (map remove_persisted_signal_catch (signals_of id s)
                      ++ (map remove_persisted_conditional_catch (conditionals_of id s)
                          ++ delete_persisted_instance id ∷ [])))))

  abbrev pub deleted_with :
      EngineResult (Unit {0}) → Uuid → Engine V → EngineResult (Unit {0}) × Engine V
  deleted_with (err e) id s = (err e, s)
  deleted_with (ok _) id s = (ok tt, drop_waits id s)

  -- The instance leaves the store before the persistence layer is asked.
  unfoldable pub delete_instance :
      (deleted : EngineResult (Unit {0})) → Uuid → Engine V → EngineResult (Unit {0}) × Engine V
  unfolding drop_waits ids_of
  delete_instance deleted id s = elim (get id s.instances) [
    | none ↦ (err (no_such_instance id), s)
    | some inst ↦
        deleted_with deleted id
          (record s { instances = remove id s.instances; effects = s.effects ++ deletions id s })
  ]
