-- ===== src/Engine/Waits/Dropped.antt =====
-- The clean-up of a terminated or deleted instance.
use bpmninja.Prelude.{
  ◌≡◌, refl, ◌∙◌, Bool, not, List, [], ◌∷◌, Map, get, get-select, nat_eq, nat_beq, select, arith,
  ap,
}
use bpmninja.Domain.Error.{Uuid}
use bpmninja.Runtime.Pending.{PendingTimer}
use bpmninja.Runtime.State.{Engine, Effect}
use bpmninja.Engine.TopicIndex.{clear_pending_service_tasks_for_instance}
use bpmninja.Engine.TimerIndex.{
  TimerDueIndex, notify_unless_empty, unschedule, retain_pending_timers,
}
use bpmninja.Engine.Waits.{drop_waits}
use bpmninja.Engine.Waits.Released.{HasKeyedWaits, Released}

module _ {V : Type 0} where
  -- `retain_pending_timers` changes the timers, their due times and the effects.
  pub retain_pending_timers_keeps :
      {A : Type 0} (part : Engine V → A)
      → ((s : Engine V) (m : Map Uuid PendingTimer) (i : TimerDueIndex) (e : List Effect)
          → part (record s { pending_timers = m; timer_due_index = i; effects = e }) ≡ part s)
      → (keep : PendingTimer → Bool) (s : Engine V) → part (retain_pending_timers keep s) ≡ part s
  unfolding retain_pending_timers
  retain_pending_timers_keeps part apart keep s =
      elim (select (λ e. not (keep e.1)) s.pending_timers)
        as (λ dropped.
          part (
            notify_unless_empty dropped (record s {
              pending_timers = select (λ e. keep e.1) s.pending_timers;
              timer_due_index =
                  unschedule (select (λ e. not (keep e.1)) s.pending_timers) s.timer_due_index;
            }))
          ≡ part s) [ [] ↦ apart s _ _ _ | x ∷ xs ↦ apart s _ _ _ ]

  pub retain_pending_timers_retained :
      (keep : PendingTimer → Bool) (s : Engine V)
      → (retain_pending_timers keep s).pending_timers ≡ select (λ e. keep e.1) s.pending_timers
  unfolding retain_pending_timers
  retain_pending_timers_retained keep s = ground arith

  pub retain_pending_timers_unscheduled :
      (keep : PendingTimer → Bool) (s : Engine V)
      → (retain_pending_timers keep s).timer_due_index
        ≡ unschedule (select (λ e. not (keep e.1)) s.pending_timers) s.timer_due_index
  unfolding retain_pending_timers
  retain_pending_timers_unscheduled keep s = ground arith

  -- Where every pending map has its entries under their own identifiers, the clean-up of a terminated
  -- or deleted instance releases exactly what waits for it.
  pub drop_waits-Released :
      (instance_id : Uuid) (s : Engine V)
      → HasKeyedWaits s
      → Released instance_id s (drop_waits instance_id s)
  unfolding drop_waits clear_pending_service_tasks_for_instance
  drop_waits-Released instance_id s keyed = record {
    users = λ k.
        ap (λ m. get k m) (keeps (λ s. s.pending_user_tasks) λ s m i e. refl)
        ∙ get-select k (λ t. not (nat_beq t.instance_id instance_id)) s.pending_user_tasks
            keyed.users.0;
    services = λ k.
        ap (λ m. get k m) (keeps (λ s. s.pending_service_tasks) λ s m i e. refl)
        ∙ get-select k (λ t. not (nat_beq t.instance_id instance_id)) s.pending_service_tasks
            keyed.services.0;
    timers = λ k.
        ap (λ m. get k m) (retain_pending_timers_retained mine cleared)
        ∙ get-select k mine s.pending_timers keyed.timers.0;
    messages = λ k.
        ap (λ m. get k (select (λ e. not (nat_beq e.1.instance_id instance_id)) m))
          (keeps (λ s. s.pending_message_catches) λ s m i e. refl)
        ∙ get-select k (λ t. not (nat_beq t.instance_id instance_id)) s.pending_message_catches
            keyed.messages.0;
    signals = λ k.
        ap (λ m. get k (select (λ e. not (nat_beq e.1.instance_id instance_id)) m))
          (keeps (λ s. s.pending_signal_catches) λ s m i e. refl)
        ∙ get-select k (λ t. not (nat_beq t.instance_id instance_id)) s.pending_signal_catches
            keyed.signals.0;
    conditionals = λ k.
        ap (λ m. get k (select (λ e. not (nat_beq e.1.instance_id instance_id)) m))
          (keeps (λ s. s.pending_conditional_catches) λ s m i e. refl)
        ∙ get-select k (λ t. not (nat_beq t.instance_id instance_id)) s.pending_conditional_catches
            keyed.conditionals.0;
    instances = keeps (λ s. s.instances) λ s m i e. refl;
    definitions = keeps (λ s. s.definitions) λ s m i e. refl;
  }
    where
      mine : PendingTimer → Bool
      mine t = not (nat_beq t.instance_id instance_id)

      cleared : Engine V
      cleared = clear_pending_service_tasks_for_instance instance_id (record s {
        pending_user_tasks =
            select (λ e. not (nat_beq e.1.instance_id instance_id)) s.pending_user_tasks;
      })

      keeps :
          {A : Type 0} (part : Engine V → A)
          → ((s : Engine V) (m : Map Uuid PendingTimer) (i : TimerDueIndex) (e : List Effect)
              → part (record s { pending_timers = m; timer_due_index = i; effects = e }) ≡ part s)
          → part (retain_pending_timers mine cleared) ≡ part cleared
      keeps part apart = retain_pending_timers_keeps part apart mine cleared

  pub drop_waits_instances :
      (instance_id : Uuid) (s : Engine V) → (drop_waits instance_id s).instances ≡ s.instances
  unfolding drop_waits clear_pending_service_tasks_for_instance
  drop_waits_instances instance_id s =
      retain_pending_timers_keeps (λ s. s.instances) (λ s m i e. refl)
        (λ t. not (nat_beq t.instance_id instance_id))
        (clear_pending_service_tasks_for_instance instance_id (record s {
          pending_user_tasks =
              select (λ e. not (nat_beq e.1.instance_id instance_id)) s.pending_user_tasks;
        }))

  pub drop_waits_definitions :
      (instance_id : Uuid) (s : Engine V) → (drop_waits instance_id s).definitions ≡ s.definitions
  unfolding drop_waits clear_pending_service_tasks_for_instance
  drop_waits_definitions instance_id s =
      retain_pending_timers_keeps (λ s. s.definitions) (λ s m i e. refl)
        (λ t. not (nat_beq t.instance_id instance_id))
        (clear_pending_service_tasks_for_instance instance_id (record s {
          pending_user_tasks =
              select (λ e. not (nat_beq e.1.instance_id instance_id)) s.pending_user_tasks;
        }))
