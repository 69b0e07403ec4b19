-- ===== src/Engine/Waits/Cancelled.antt =====
-- `cancel_scope_waits` of engine-core/src/engine/event_subprocess.rs.
use bpmninja.Prelude.{◌≡◌, refl, ◌∙◌, none, get, nat_eq, if◌then◌else◌, ap}
use bpmninja.Domain.Error.{Uuid}
use bpmninja.Runtime.Pending.{
  PendingUserTask, PendingServiceTask, PendingTimer, PendingMessageCatch, PendingSignalCatch,
  PendingConditionalCatch,
}
use bpmninja.Runtime.State.{Engine}
use bpmninja.Engine.TopicIndex.{member}
use bpmninja.Engine.Waits.{
  each, cancel_user_task, cancel_service_task, cancel_timer, cancel_message_catch,
  cancel_signal_catch, cancel_conditional_catch, cancel_scope_waits, users_of, services_of,
  timers_of, messages_of, signals_of, conditionals_of,
}
use bpmninja.Engine.Waits.Loops.{each-clears, member-ids_of}
use bpmninja.Engine.Waits.Released.{HasKeyedWaits, Released}
use bpmninja.Engine.Waits.Bodies.{
  user_task_goes, service_task_goes, timer_goes, message_catch_goes, signal_catch_goes,
  conditional_catch_goes, users_keep, services_keep, timers_keep, messages_keep, signals_keep,
  conditionals_keep,
}

module _ {V : Type 0} where
  module _ (instance_id : Uuid) (s : Engine V) where
    abbrev without_users : Engine V
    without_users = each cancel_user_task (users_of instance_id s) s

    abbrev without_services : Engine V
    without_services = each cancel_service_task (services_of instance_id s) without_users

    abbrev without_timers : Engine V
    without_timers = each cancel_timer (timers_of instance_id s) without_services

    abbrev without_messages : Engine V
    without_messages = each cancel_message_catch (messages_of instance_id s) without_timers

    abbrev without_signals : Engine V
    without_signals = each cancel_signal_catch (signals_of instance_id s) without_messages

    abbrev without_conditionals : Engine V
    without_conditionals =
        each cancel_conditional_catch (conditionals_of instance_id s) without_signals

    pub cancel_scope_waits_instances : (cancel_scope_waits instance_id s).instances ≡ s.instances
    unfolding cancel_scope_waits
    cancel_scope_waits_instances =
        conditionals_keep (λ s. s.instances) (λ s m e. refl) (conditionals_of instance_id s)
          without_signals
        ∙ signals_keep (λ s. s.instances) (λ s m e. refl) (signals_of instance_id s)
            without_messages
        ∙ messages_keep (λ s. s.instances) (λ s m e. refl) (messages_of instance_id s)
            without_timers
        ∙ timers_keep (λ s. s.instances) (λ s m i e. refl) (timers_of instance_id s)
            without_services
        ∙ services_keep (λ s. s.instances) (λ s m i e. refl) (services_of instance_id s)
            without_users
        ∙ users_keep (λ s. s.instances) (λ s m e. refl) (users_of instance_id s) s

    pub cancel_scope_waits_definitions :
        (cancel_scope_waits instance_id s).definitions ≡ s.definitions
    unfolding cancel_scope_waits
    cancel_scope_waits_definitions =
        conditionals_keep (λ s. s.definitions) (λ s m e. refl) (conditionals_of instance_id s)
          without_signals
        ∙ signals_keep (λ s. s.definitions) (λ s m e. refl) (signals_of instance_id s)
            without_messages
        ∙ messages_keep (λ s. s.definitions) (λ s m e. refl) (messages_of instance_id s)
            without_timers
        ∙ timers_keep (λ s. s.definitions) (λ s m i e. refl) (timers_of instance_id s)
            without_services
        ∙ services_keep (λ s. s.definitions) (λ s m i e. refl) (services_of instance_id s)
            without_users
        ∙ users_keep (λ s. s.definitions) (λ s m e. refl) (users_of instance_id s) s

    -- Where every pending map has its entries under their own identifiers, cancelling the waits of a
    -- scope releases exactly what waits for its instance.
    pub cancel_scope_waits-Released :
        HasKeyedWaits s → Released instance_id s (cancel_scope_waits instance_id s)
    unfolding cancel_scope_waits
    cancel_scope_waits-Released keyed = record {
      users = λ k.
          ap (λ m. get k m)
            (conditionals_keep (λ s. s.pending_user_tasks) (λ s m e. refl)
                (conditionals_of instance_id s) without_signals
              ∙ signals_keep (λ s. s.pending_user_tasks) (λ s m e. refl) (signals_of instance_id s)
                  without_messages
              ∙ messages_keep (λ s. s.pending_user_tasks) (λ s m e. refl)
                  (messages_of instance_id s) without_timers
              ∙ timers_keep (λ s. s.pending_user_tasks) (λ s m i e. refl) (timers_of instance_id s)
                  without_services
              ∙ services_keep (λ s. s.pending_user_tasks) (λ s m i e. refl)
                  (services_of instance_id s) without_users)
          ∙ each-clears cancel_user_task (λ s. s.pending_user_tasks) user_task_goes
              (users_of instance_id s) s k
          ∙ member-ids_of (λ (t : PendingUserTask). t.instance_id) (λ t. t.task_id) instance_id k
              s.pending_user_tasks keyed.users.0 keyed.users.1;
      services = λ k.
          ap (λ m. get k m)
            (conditionals_keep (λ s. s.pending_service_tasks) (λ s m e. refl)
                (conditionals_of instance_id s) without_signals
              ∙ signals_keep (λ s. s.pending_service_tasks) (λ s m e. refl)
                  (signals_of instance_id s) without_messages
              ∙ messages_keep (λ s. s.pending_service_tasks) (λ s m e. refl)
                  (messages_of instance_id s) without_timers
              ∙ timers_keep (λ s. s.pending_service_tasks) (λ s m i e. refl)
                  (timers_of instance_id s) without_services)
          ∙ each-clears cancel_service_task (λ s. s.pending_service_tasks) service_task_goes
              (services_of instance_id s) without_users k
          ∙ ap (λ m. if member k (services_of instance_id s) then none else get k m)
              (users_keep (λ s. s.pending_service_tasks) (λ s m e. refl) (users_of instance_id s) s)
          ∙ member-ids_of (λ (t : PendingServiceTask V). t.instance_id) (λ t. t.id) instance_id k
              s.pending_service_tasks keyed.services.0 keyed.services.1;
      timers = λ k.
          ap (λ m. get k m)
            (conditionals_keep (λ s. s.pending_timers) (λ s m e. refl)
                (conditionals_of instance_id s) without_signals
              ∙ signals_keep (λ s. s.pending_timers) (λ s m e. refl) (signals_of instance_id s)
                  without_messages
              ∙ messages_keep (λ s. s.pending_timers) (λ s m e. refl) (messages_of instance_id s)
                  without_timers)
          ∙ each-clears cancel_timer (λ s. s.pending_timers) timer_goes (timers_of instance_id s)
              without_services k
          ∙ ap (λ m. if member k (timers_of instance_id s) then none else get k m)
              (services_keep (λ s. s.pending_timers) (λ s m i e. refl) (services_of instance_id s)
                  without_users
                ∙ users_keep (λ s. s.pending_timers) (λ s m e. refl) (users_of instance_id s) s)
          ∙ member-ids_of (λ (t : PendingTimer). t.instance_id) (λ t. t.id) instance_id k
              s.pending_timers keyed.timers.0 keyed.timers.1;
      messages = λ k.
          ap (λ m. get k m)
            (conditionals_keep (λ s. s.pending_message_catches) (λ s m e. refl)
                (conditionals_of instance_id s) without_signals
              ∙ signals_keep (λ s. s.pending_message_catches) (λ s m e. refl)
                  (signals_of instance_id s) without_messages)
          ∙ each-clears cancel_message_catch (λ s. s.pending_message_catches) message_catch_goes
              (messages_of instance_id s) without_timers k
          ∙ ap (λ m. if member k (messages_of instance_id s) then none else get k m)
              (timers_keep (λ s. s.pending_message_catches) (λ s m i e. refl)
                  (timers_of instance_id s) without_services
                ∙ services_keep (λ s. s.pending_message_catches) (λ s m i e. refl)
                    (services_of instance_id s) without_users
                ∙ users_keep (λ s. s.pending_message_catches) (λ s m e. refl)
                    (users_of instance_id s) s)
          ∙ member-ids_of (λ (t : PendingMessageCatch). t.instance_id) (λ t. t.id) instance_id k
              s.pending_message_catches keyed.messages.0 keyed.messages.1;
      signals = λ k.
          ap (λ m. get k m)
            (conditionals_keep (λ s. s.pending_signal_catches) (λ s m e. refl)
              (conditionals_of instance_id s) without_signals)
          ∙ each-clears cancel_signal_catch (λ s. s.pending_signal_catches) signal_catch_goes
              (signals_of instance_id s) without_messages k
          ∙ ap (λ m. if member k (signals_of instance_id s) then none else get k m)
              (messages_keep (λ s. s.pending_signal_catches) (λ s m e. refl)
                  (messages_of instance_id s) without_timers
                ∙ timers_keep (λ s. s.pending_signal_catches) (λ s m i e. refl)
                    (timers_of instance_id s) without_services
                ∙ services_keep (λ s. s.pending_signal_catches) (λ s m i e. refl)
                    (services_of instance_id s) without_users
                ∙ users_keep (λ s. s.pending_signal_catches) (λ s m e. refl)
                    (users_of instance_id s) s)
          ∙ member-ids_of (λ (t : PendingSignalCatch). t.instance_id) (λ t. t.id) instance_id k
              s.pending_signal_catches keyed.signals.0 keyed.signals.1;
      conditionals = λ k.
          each-clears cancel_conditional_catch (λ s. s.pending_conditional_catches)
            conditional_catch_goes (conditionals_of instance_id s) without_signals k
          ∙ ap (λ m. if member k (conditionals_of instance_id s) then none else get k m)
              (signals_keep (λ s. s.pending_conditional_catches) (λ s m e. refl)
                  (signals_of instance_id s) without_messages
                ∙ messages_keep (λ s. s.pending_conditional_catches) (λ s m e. refl)
                    (messages_of instance_id s) without_timers
                ∙ timers_keep (λ s. s.pending_conditional_catches) (λ s m i e. refl)
                    (timers_of instance_id s) without_services
                ∙ services_keep (λ s. s.pending_conditional_catches) (λ s m i e. refl)
                    (services_of instance_id s) without_users
                ∙ users_keep (λ s. s.pending_conditional_catches) (λ s m e. refl)
                    (users_of instance_id s) s)
          ∙ member-ids_of (λ (t : PendingConditionalCatch). t.instance_id) (λ t. t.id) instance_id k
              s.pending_conditional_catches keyed.conditionals.0 keyed.conditionals.1;
      instances = cancel_scope_waits_instances;
      definitions = cancel_scope_waits_definitions;
    }
