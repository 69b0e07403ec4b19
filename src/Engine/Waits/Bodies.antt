-- ===== src/Engine/Waits/Bodies.antt =====
-- What one removal of a pending entry does, and what a loop of them leaves alone.
use bpmninja.Prelude.{
  ◌≡◌, none, List, Map, get, get-remove, nat_eq, nat_beq, if◌then◌else◌, arith, Option-cases, inl,
  inr, nat_beq_iff,
}
use bpmninja.Domain.Error.{Uuid}
use bpmninja.Runtime.Pending.{
  PendingUserTask, PendingServiceTask, PendingTimer, PendingMessageCatch, PendingSignalCatch,
  PendingConditionalCatch,
}
use bpmninja.Runtime.State.{Engine, Effect}
use bpmninja.Engine.TopicIndex.{
  TopicIndex, remove_pending_service_task_if, remove_pending_service_task,
}
use bpmninja.Engine.TimerIndex.{TimerDueIndex, remove_pending_timer}
use bpmninja.Engine.Waits.{
  each, cancel_user_task, cancel_service_task, cancel_timer, cancel_message_catch,
  cancel_signal_catch, cancel_conditional_catch,
}
use bpmninja.Engine.Waits.Loops.{each-keeps}

module _ {V : Type 0} where
  pub user_task_goes :
      (id : Uuid) (s : Engine V) (k : Uuid)
      → get k (cancel_user_task id s).pending_user_tasks
        ≡ (if nat_beq id k then none else get k s.pending_user_tasks)
  unfolding cancel_user_task
  user_task_goes id s k = get-remove id k s.pending_user_tasks

  pub service_task_goes :
      (id : Uuid) (s : Engine V) (k : Uuid)
      → get k (cancel_service_task id s).pending_service_tasks
        ≡ (if nat_beq id k then none else get k s.pending_service_tasks)
  unfolding cancel_service_task remove_pending_service_task remove_pending_service_task_if
  service_task_goes id s k =
      ground (arith, get-remove id k s.pending_service_tasks, nat_beq_iff id k)

  pub timer_goes :
      (id : Uuid) (s : Engine V) (k : Uuid)
      → get k (cancel_timer id s).pending_timers
        ≡ (if nat_beq id k then none else get k s.pending_timers)
  unfolding cancel_timer remove_pending_timer
  timer_goes id s k = ground (arith, get-remove id k s.pending_timers, nat_beq_iff id k)

  pub message_catch_goes :
      (id : Uuid) (s : Engine V) (k : Uuid)
      → get k (cancel_message_catch id s).pending_message_catches
        ≡ (if nat_beq id k then none else get k s.pending_message_catches)
  unfolding cancel_message_catch
  message_catch_goes id s k = get-remove id k s.pending_message_catches

  pub signal_catch_goes :
      (id : Uuid) (s : Engine V) (k : Uuid)
      → get k (cancel_signal_catch id s).pending_signal_catches
        ≡ (if nat_beq id k then none else get k s.pending_signal_catches)
  unfolding cancel_signal_catch
  signal_catch_goes id s k = get-remove id k s.pending_signal_catches

  pub conditional_catch_goes :
      (id : Uuid) (s : Engine V) (k : Uuid)
      → get k (cancel_conditional_catch id s).pending_conditional_catches
        ≡ (if nat_beq id k then none else get k s.pending_conditional_catches)
  unfolding cancel_conditional_catch
  conditional_catch_goes id s k = get-remove id k s.pending_conditional_catches

  -- What a loop of `cancel_scope_waits` leaves alone.
  module _ {A : Type 0} (part : Engine V → A) where
    pub users_keep :
        ((s : Engine V) (m : Map Uuid PendingUserTask) (e : List Effect)
          → part (record s { pending_user_tasks = m; effects = e }) ≡ part s)
        → (ids : List Uuid) (s : Engine V) → part (each cancel_user_task ids s) ≡ part s
    unfolding cancel_user_task
    users_keep apart = each-keeps cancel_user_task part λ id s. apart s _ _

    pub services_keep :
        ((s : Engine V) (m : Map Uuid (PendingServiceTask V)) (i : TopicIndex) (e : List Effect)
          → part (record s { pending_service_tasks = m; service_task_topic_index = i; effects = e })
            ≡ part s)
        → (ids : List Uuid) (s : Engine V) → part (each cancel_service_task ids s) ≡ part s
    unfolding cancel_service_task remove_pending_service_task_if
    services_keep apart = each-keeps cancel_service_task part λ id s.
        elim (Option-cases (get id s.pending_service_tasks)) [
          | inl missing ↦ rw (missing, remove_pending_service_task_if) (apart s _ _ _)
          | inr (found, there) ↦ rw (there, remove_pending_service_task_if) (apart s _ _ _)
        ]

    pub timers_keep :
        ((s : Engine V) (m : Map Uuid PendingTimer) (i : TimerDueIndex) (e : List Effect)
          → part (record s { pending_timers = m; timer_due_index = i; effects = e }) ≡ part s)
        → (ids : List Uuid) (s : Engine V) → part (each cancel_timer ids s) ≡ part s
    unfolding cancel_timer remove_pending_timer
    timers_keep apart = each-keeps cancel_timer part λ id s.
        elim (Option-cases (get id s.pending_timers)) [
          | inl missing ↦ rw (missing, remove_pending_timer) (apart s _ _ _)
          | inr (found, there) ↦ rw (there, remove_pending_timer) (apart s _ _ _)
        ]

    pub messages_keep :
        ((s : Engine V) (m : Map Uuid PendingMessageCatch) (e : List Effect)
          → part (record s { pending_message_catches = m; effects = e }) ≡ part s)
        → (ids : List Uuid) (s : Engine V) → part (each cancel_message_catch ids s) ≡ part s
    unfolding cancel_message_catch
    messages_keep apart = each-keeps cancel_message_catch part λ id s. apart s _ _

    pub signals_keep :
        ((s : Engine V) (m : Map Uuid PendingSignalCatch) (e : List Effect)
          → part (record s { pending_signal_catches = m; effects = e }) ≡ part s)
        → (ids : List Uuid) (s : Engine V) → part (each cancel_signal_catch ids s) ≡ part s
    unfolding cancel_signal_catch
    signals_keep apart = each-keeps cancel_signal_catch part λ id s. apart s _ _

    pub conditionals_keep :
        ((s : Engine V) (m : Map Uuid PendingConditionalCatch) (e : List Effect)
          → part (record s { pending_conditional_catches = m; effects = e }) ≡ part s)
        → (ids : List Uuid) (s : Engine V) → part (each cancel_conditional_catch ids s) ≡ part s
    unfolding cancel_conditional_catch
    conditionals_keep apart = each-keeps cancel_conditional_catch part λ id s. apart s _ _
