-- ===== src/Engine/Executor/Ends/Terminated.antt =====
-- What a terminate end event does to its instance and to everything that waits.
use bpmninja.Prelude.{
  ℕ, ◌≡◌, refl, ◌∙◌, ap, false, not, none, some, Map, get, nat_eq, nat_beq, nat_beq_iff, kept,
  if◌then◌else◌, All, arith,
}
use bpmninja.Domain.Error.{Uuid}
use bpmninja.Runtime.Instance.{ProcessInstance, InstanceState, process_terminated}
use bpmninja.Runtime.State.{Engine}
use bpmninja.Engine.TopicIndex.{member}
use bpmninja.Engine.Waits.{drop_waits, close_event_scope}
use bpmninja.Engine.Waits.Released.{HasKeyedWaits, Released}
use bpmninja.Engine.Waits.Dropped.{drop_waits-Released}
use bpmninja.Engine.Waits.Scope.{Closed, closed_with, subscription_ids, close_event_scope-Closed}
use bpmninja.Engine.Executor.{update_instance, finish, log, kill_all}
use bpmninja.Engine.Executor.Instances.{
  update_instance_keeps, get-update_instance, IsCompleted, kill_all-IsCompleted,
}
use bpmninja.Engine.Executor.Ends.{terminate}

module _ {V : Type 0} where
  -- The instance is completed with all its branches, the other instances are untouched, and of what
  -- is waited for, exactly the entries of the instance and of its event subscriptions are gone.
  pub record Terminated (now : ℕ) (id : Uuid) (inst : ProcessInstance V) (s s' : Engine V)
      : Type 0 where
    pub after : ProcessInstance V
    pub there : get id s'.instances ≡ some after
    pub completed : after.state ≡ InstanceState.completed
    pub stamped : after.completed_at ≡ some now
    pub killed : All IsCompleted after.active_tokens
    pub others : (k : Uuid) → nat_beq id k ≡ false → get k s'.instances ≡ get k s.instances
    pub users :
        (k : Uuid)
        → get k s'.pending_user_tasks
          ≡ kept (λ t. not (nat_beq t.instance_id id)) (get k s.pending_user_tasks)
    pub services :
        (k : Uuid)
        → get k s'.pending_service_tasks
          ≡ kept (λ t. not (nat_beq t.instance_id id)) (get k s.pending_service_tasks)
    pub timers :
        (k : Uuid)
        → get k s'.pending_timers
          ≡ kept
              (λ t. not (nat_beq t.instance_id id))
              (if member k (subscription_ids inst.event_subscriptions)
                then none
                else get k s.pending_timers)
    pub messages :
        (k : Uuid)
        → get k s'.pending_message_catches
          ≡ kept
              (λ t. not (nat_beq t.instance_id id))
              (if member k (subscription_ids inst.event_subscriptions)
                then none
                else get k s.pending_message_catches)
    pub signals :
        (k : Uuid)
        → get k s'.pending_signal_catches
          ≡ kept
              (λ t. not (nat_beq t.instance_id id))
              (if member k (subscription_ids inst.event_subscriptions)
                then none
                else get k s.pending_signal_catches)
    pub conditionals :
        (k : Uuid)
        → get k s'.pending_conditional_catches
          ≡ kept (λ t. not (nat_beq t.instance_id id)) (get k s.pending_conditional_catches)

  -- If an instance is there and every pending map has its entries under their own identifiers, a
  -- termination completes the instance with all its branches, leaves the other instances alone, and
  -- ends exactly what waits for the instance or stands under one of its event subscriptions.
  pub terminate-Terminated :
      (now : ℕ) (id : Uuid) (inst : ProcessInstance V) (s : Engine V)
      → get id s.instances ≡ some inst
      → HasKeyedWaits s
      → Terminated now id inst s (terminate now id s)
  unfolding terminate
  terminate-Terminated now id inst s there keyed = record {
    after = change closed;
    there =
        get-update_instance id id change closed dropped found ∙ ground (arith, nat_beq_iff id id);
    completed = refl;
    stamped = refl;
    killed = kill_all-IsCompleted closed.active_tokens;
    others = λ k other.
        get-update_instance id k change closed dropped found
        ∙ ground (arith, other, ap (λ m. get k m) released.instances, shut.instances k);
    users = λ k.
        ap (λ m. get k m) (keeps (λ s. s.pending_user_tasks) λ s m. refl)
        ∙ released.users k
        ∙ ap (λ m. kept (λ t. not (nat_beq t.instance_id id)) (get k m)) shut.users;
    services = λ k.
        ap (λ m. get k m) (keeps (λ s. s.pending_service_tasks) λ s m. refl)
        ∙ released.services k
        ∙ ap (λ m. kept (λ t. not (nat_beq t.instance_id id)) (get k m)) shut.services;
    timers = λ k.
        ap (λ m. get k m) (keeps (λ s. s.pending_timers) λ s m. refl)
        ∙ released.timers k
        ∙ ap (kept (λ t. not (nat_beq t.instance_id id))) (shut.timers k);
    messages = λ k.
        ap (λ m. get k m) (keeps (λ s. s.pending_message_catches) λ s m. refl)
        ∙ released.messages k
        ∙ ap (kept (λ t. not (nat_beq t.instance_id id))) (shut.messages k);
    signals = λ k.
        ap (λ m. get k m) (keeps (λ s. s.pending_signal_catches) λ s m. refl)
        ∙ released.signals k
        ∙ ap (kept (λ t. not (nat_beq t.instance_id id))) (shut.signals k);
    conditionals = λ k.
        ap (λ m. get k m) (keeps (λ s. s.pending_conditional_catches) λ s m. refl)
        ∙ released.conditionals k
        ∙ ap (λ m. kept (λ t. not (nat_beq t.instance_id id)) (get k m)) shut.conditionals;
  }
    where
      shut : Closed id inst.event_subscriptions inst s (close_event_scope id s)
      shut = close_event_scope-Closed id inst s there

      dropped : Engine V
      dropped = drop_waits id (close_event_scope id s)

      released : Released id (close_event_scope id s) dropped
      released = drop_waits-Released id (close_event_scope id s) (shut.keyed keyed)

      closed : ProcessInstance V
      closed = closed_with inst.event_subscriptions inst

      found : get id dropped.instances ≡ some closed
      found =
          ap (λ m. get id m) released.instances
          ∙ shut.instances id
          ∙ ground (arith, nat_beq_iff id id)

      change : ProcessInstance V → ProcessInstance V
      change i = log process_terminated (
          finish now InstanceState.completed
            (record i { active_tokens = kill_all i.active_tokens }))

      keeps :
          {A : Type 0} (part : Engine V → A)
          → ((s : Engine V) (m : Map Uuid (ProcessInstance V))
              → part (record s { instances = m }) ≡ part s)
          → part (update_instance id change dropped) ≡ part dropped
      keeps part apart = update_instance_keeps part apart id change dropped
