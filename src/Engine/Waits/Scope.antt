-- ===== src/Engine/Waits/Scope.antt =====
-- `close_event_scope` of engine-core/src/engine/event_subprocess.rs.
use bpmninja.Prelude.{
  ◌≡◌, refl, ◌∙◌, ap, false, none, some, List, [], ◌∷◌, Map, map, get, insert, get-insert, nat_eq,
  nat_beq, nat_beq_iff, if◌then◌else◌, arith,
}
use bpmninja.Domain.Error.{Uuid}
use bpmninja.Runtime.Pending.{PendingTimer, PendingMessageCatch, PendingSignalCatch}
use bpmninja.Runtime.Instance.{ProcessInstance, EventSubscription, scope_closed}
use bpmninja.Runtime.State.{Engine, Effect}
use bpmninja.Engine.Incidents.{push_audit_log}
use bpmninja.Engine.TopicIndex.{member}
use bpmninja.Engine.TimerIndex.{TimerDueIndex}
use bpmninja.Engine.Waits.{each, close_subscription, close_subscriptions, close_event_scope}
use bpmninja.Engine.Waits.Loops.{each-keeps, each-invariant, each-clears}
use bpmninja.Engine.Waits.Released.{HasKeyedWaits}
use bpmninja.Engine.Waits.Subscription.{
  close_subscription_keeps, close_subscription-HasKeyedWaits, timer_closed, message_closed,
  signal_closed,
}

abbrev pub subscription_ids : List EventSubscription → List Uuid
subscription_ids xs = map (λ x. x.id) xs

module _ {V : Type 0} where
  -- The instance after its scope is closed.
  abbrev pub closed_with : List EventSubscription → ProcessInstance V → ProcessInstance V
  closed_with [] inst = inst
  closed_with (x ∷ xs) inst =
      push_audit_log scope_closed
        (record inst { event_scope = false; event_subscriptions = []; event_handler_tokens = [] })

  -- What closing the scope of an instance leaves, and what is left of its waits.
  pub record Closed (instance_id : Uuid) (subs : List EventSubscription) (inst : ProcessInstance V)
      (s s' : Engine V) : Type 0 where
    pub instances :
        (k : Uuid)
        → get k s'.instances
          ≡ (if nat_beq instance_id k then some (closed_with subs inst) else get k s.instances)
    pub users : s'.pending_user_tasks ≡ s.pending_user_tasks
    pub services : s'.pending_service_tasks ≡ s.pending_service_tasks
    pub timers :
        (k : Uuid)
        → get k s'.pending_timers
          ≡ (if member k (subscription_ids subs) then none else get k s.pending_timers)
    pub messages :
        (k : Uuid)
        → get k s'.pending_message_catches
          ≡ (if member k (subscription_ids subs) then none else get k s.pending_message_catches)
    pub signals :
        (k : Uuid)
        → get k s'.pending_signal_catches
          ≡ (if member k (subscription_ids subs) then none else get k s.pending_signal_catches)
    pub conditionals : s'.pending_conditional_catches ≡ s.pending_conditional_catches
    pub keyed : HasKeyedWaits s → HasKeyedWaits s'

  close_subscriptions-Closed :
      (subs : List EventSubscription) (instance_id : Uuid) (inst : ProcessInstance V) (s : Engine V)
      → get instance_id s.instances ≡ some inst
      → Closed instance_id subs inst s (close_subscriptions subs instance_id inst s)
  close_subscriptions-Closed [] instance_id inst s there = record {
    instances = λ k. ground (arith, nat_beq_iff instance_id k);
    users = refl;
    services = refl;
    timers = λ k. refl;
    messages = λ k. refl;
    signals = λ k. refl;
    conditionals = refl;
    keyed = λ h. h;
  }
  close_subscriptions-Closed (x ∷ xs) instance_id inst s there = record {
    instances = λ k.
        ap (λ m. get k m) (keeps (λ s. s.instances) (λ s m i e. refl) (λ s m e. refl) λ s m e. refl)
        ∙ get-insert instance_id k (closed_with (x ∷ xs) inst) s.instances;
    users = keeps (λ s. s.pending_user_tasks) (λ s m i e. refl) (λ s m e. refl) λ s m e. refl;
    services = keeps (λ s. s.pending_service_tasks) (λ s m i e. refl) (λ s m e. refl) λ s m e. refl;
    timers = each-clears close_subscription (λ s. s.pending_timers) timer_closed ids start;
    messages =
        each-clears close_subscription (λ s. s.pending_message_catches) message_closed ids start;
    signals =
        each-clears close_subscription (λ s. s.pending_signal_catches) signal_closed ids start;
    conditionals =
        keeps (λ s. s.pending_conditional_catches) (λ s m i e. refl) (λ s m e. refl) λ s m e. refl;
    keyed = λ h.
        each-invariant close_subscription (λ s. s) HasKeyedWaits close_subscription-HasKeyedWaits
          ids start
          (record {
            users = h.users;
            services = h.services;
            timers = h.timers;
            messages = h.messages;
            signals = h.signals;
            conditionals = h.conditionals;
          });
  }
    where
      ids : List Uuid
      ids = subscription_ids (x ∷ xs)

      start : Engine V
      start = record s { instances = insert instance_id (closed_with (x ∷ xs) inst) s.instances }

      keeps :
          {A : Type 0} (part : Engine V → A)
          → ((s : Engine V) (m : Map Uuid PendingTimer) (i : TimerDueIndex) (e : List Effect)
              → part (record s { pending_timers = m; timer_due_index = i; effects = e }) ≡ part s)
          → ((s : Engine V) (m : Map Uuid PendingMessageCatch) (e : List Effect)
              → part (record s { pending_message_catches = m; effects = e }) ≡ part s)
          → ((s : Engine V) (m : Map Uuid PendingSignalCatch) (e : List Effect)
              → part (record s { pending_signal_catches = m; effects = e }) ≡ part s)
          → part (each close_subscription ids start) ≡ part start
      keeps part t m g =
          each-keeps close_subscription part (close_subscription_keeps part t m g) ids start

  -- Closing the scope of an instance that is there.
  pub close_event_scope-Closed :
      (instance_id : Uuid) (inst : ProcessInstance V) (s : Engine V)
      → get instance_id s.instances ≡ some inst
      → Closed instance_id inst.event_subscriptions inst s (close_event_scope instance_id s)
  unfolding close_event_scope
  close_event_scope-Closed instance_id inst s there =
      rw (there, close_event_scope)
        (close_subscriptions-Closed inst.event_subscriptions instance_id inst s there)
