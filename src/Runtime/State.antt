-- ===== src/Runtime/State.antt =====
-- The state of `WorkflowEngine` (engine-core/src/engine/mod.rs) that the modelled operations read
-- and write. Locks, channels and the script and persistence back ends have no field: what is sent
-- to them is recorded in `effects`, in order.
use bpmninja.Prelude.{ℕ, String, Option, none, some, List, [], ◌∷◌, ◌++◌, Map, get, nat_eq}
use bpmninja.Domain.Error.{Uuid, EngineResult, ok, err, no_such_instance, no_such_definition}
use bpmninja.Domain.Graph.{ProcessDefinition}
use bpmninja.Runtime.Pending.{
  PendingUserTask, PendingServiceTask, PendingTimer, PendingMessageCatch, PendingSignalCatch,
  PendingConditionalCatch,
}
use bpmninja.Runtime.Instance.{ProcessInstance}

-- The event types and the actors of engine-core/src/history/mod.rs.
pub data HistoryEventType : Type 0 where
  instance_started instance_completed instance_deleted task_completed variable_updated gateway_taken
        listener_executed token_advanced token_forked token_joined branch_completed error
        call_activity_started call_activity_completed instance_suspended instance_resumed
        token_moved escalation_thrown compensation_triggered signal_caught signal_thrown
        conditional_caught instance_migrated :
      HistoryEventType

pub data ActorType : Type 0 where
  engine user service_worker timer listener : ActorType

-- The calls of the persistence layer and of the notifiers, without their texts.
pub data Effect : Type 0 where
  persist_instance persist_service_task remove_persisted_service_task persist_definition
        persist_user_task remove_persisted_user_task persist_timer remove_persisted_timer
        persist_message_catch remove_persisted_message_catch persist_signal_catch
        remove_persisted_signal_catch persist_conditional_catch remove_persisted_conditional_catch
        delete_persisted_instance delete_persisted_definition archive_completed_instance :
      Uuid → Effect
  record_history :
      (instance_id : Uuid) (event : HistoryEventType) (actor : ActorType) (actor_id : Option String)
      → Effect
  notify_service_tasks notify_timers definition_changed instance_changed task_changed : Effect

pub record Engine (V : Type 0) : Type 0 where
  pub definitions : Map Uuid (ProcessDefinition V)
  pub instances : Map Uuid (ProcessInstance V)
  pub pending_user_tasks : Map Uuid PendingUserTask
  pub pending_service_tasks : Map Uuid (PendingServiceTask V)
  pub service_task_topic_index : Map String (List Uuid)
  pub task_handlers : List String
  pub in_process_inflight : List Uuid
  pub pending_timers : Map Uuid PendingTimer
  pub timer_due_index : List (ℕ × Uuid)
  pub pending_message_catches : Map Uuid PendingMessageCatch
  pub pending_signal_catches : Map Uuid PendingSignalCatch
  pub pending_conditional_catches : Map Uuid PendingConditionalCatch
  pub effects : List Effect

module _ {V : Type 0} where
  abbrev pub emit : Effect → Engine V → Engine V
  emit effect s = record s { effects = s.effects ++ effect ∷ [] }

  -- `self.instances.get(id).ok_or(NoSuchInstance(id))` and the same for definitions.
  abbrev pub find_instance : Engine V → Uuid → EngineResult (ProcessInstance V)
  find_instance s id = elim (get id s.instances) [
    | none ↦ err (no_such_instance id)
    | some inst ↦ ok inst
  ]

  abbrev pub find_definition : Engine V → Uuid → EngineResult (ProcessDefinition V)
  find_definition s key = elim (get key s.definitions) [
    | none ↦ err (no_such_definition key)
    | some def ↦ ok def
  ]
