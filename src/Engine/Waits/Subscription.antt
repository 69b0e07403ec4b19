-- ===== src/Engine/Waits/Subscription.antt =====
-- `close_event_scope` of engine-core/src/engine/event_subprocess.rs: the body of its loop.
use bpmninja.Prelude.{
  ◌≡◌, refl, sym, ◌∙◌, ap, subst, none, List, [], ◌∷◌, Map, get, remove, get-remove, nat_eq,
  nat_beq, HasDistinctKeys, if◌then◌else◌, All, arith, Bool-cases, Option-cases, inl, inr,
}
use bpmninja.Domain.Error.{Uuid}
use bpmninja.Runtime.Pending.{PendingTimer, PendingMessageCatch, PendingSignalCatch}
use bpmninja.Runtime.State.{Engine, Effect}
use bpmninja.Engine.TimerIndex.{TimerDueIndex, remove_pending_timer}
use bpmninja.Engine.Waits.{
  cancel_timer, cancel_message_catch, cancel_signal_catch, close_subscription,
}
use bpmninja.Engine.Waits.Released.{IsKeyed, HasKeyedWaits}
use bpmninja.Engine.Waits.Bodies.{timer_goes, message_catch_goes, signal_catch_goes}

-- Removing an entry keeps the others under their own identifiers.
All-remove :
    {A : Type 0} (P : Uuid × A → Type 0) (k : Uuid) (m : Map Uuid A) → All P m → All P (remove k m)
unfolding remove
All-remove P k [] h = tt
All-remove P k ((i, v) ∷ m) h = elim (Bool-cases (nat_beq i k)) [
  | inl same ↦ rw same (All-remove P k m h.1)
  | inr other ↦ rw other (h.0, All-remove P k m h.1)
]

remove-HasDistinctKeys :
    {A : Type 0} (k : Uuid) (m : Map Uuid A) → HasDistinctKeys m → HasDistinctKeys (remove k m)
unfolding remove
remove-HasDistinctKeys k [] h = tt
remove-HasDistinctKeys k ((i, v) ∷ m) h = elim (Bool-cases (nat_beq i k)) [
  | inl same ↦ rw same (remove-HasDistinctKeys k m h.1)
  | inr other ↦ rw other (ground (arith, get-remove k i m), remove-HasDistinctKeys k m h.1)
]

remove-IsKeyed :
    {A : Type 0} (ident : A → Uuid) (k : Uuid) (m : Map Uuid A)
    → IsKeyed ident m
    → IsKeyed ident (remove k m)
remove-IsKeyed ident k m h =
    (remove-HasDistinctKeys k m h.0, All-remove (λ e. ident e.1 ≡ e.0) k m h.1)

module _ {V : Type 0} where
  -- What removing a timer leaves alone, and what it does to the timers.
  cancel_timer_keeps :
      {A : Type 0} (part : Engine V → A)
      → ((s : Engine V) (m : Map Uuid PendingTimer) (i : TimerDueIndex) (e : List Effect)
          → part (record s { pending_timers = m; timer_due_index = i; effects = e }) ≡ part s)
      → (id : Uuid) (s : Engine V) → part (cancel_timer id s) ≡ part s
  unfolding cancel_timer remove_pending_timer
  cancel_timer_keeps part apart id s = elim (Option-cases (get id s.pending_timers)) [
    | inl missing ↦ rw (missing, remove_pending_timer) (apart s _ _ _)
    | inr (found, there) ↦ rw (there, remove_pending_timer) (apart s _ _ _)
  ]

  cancel_timer-IsKeyed :
      (id : Uuid) (s : Engine V)
      → IsKeyed (λ (t : PendingTimer). t.id) s.pending_timers
      → IsKeyed (λ (t : PendingTimer). t.id) (cancel_timer id s).pending_timers
  unfolding cancel_timer remove_pending_timer
  cancel_timer-IsKeyed id s h = elim (Option-cases (get id s.pending_timers)) [
    | inl missing ↦ rw (missing, remove_pending_timer) h
    | inr (found, there) ↦
        rw (there, remove_pending_timer) (remove-IsKeyed (λ t. t.id) id s.pending_timers h)
  ]

  pub close_subscription_keeps :
      {A : Type 0} (part : Engine V → A)
      → ((s : Engine V) (m : Map Uuid PendingTimer) (i : TimerDueIndex) (e : List Effect)
          → part (record s { pending_timers = m; timer_due_index = i; effects = e }) ≡ part s)
      → ((s : Engine V) (m : Map Uuid PendingMessageCatch) (e : List Effect)
          → part (record s { pending_message_catches = m; effects = e }) ≡ part s)
      → ((s : Engine V) (m : Map Uuid PendingSignalCatch) (e : List Effect)
          → part (record s { pending_signal_catches = m; effects = e }) ≡ part s)
      → (id : Uuid) (s : Engine V) → part (close_subscription id s) ≡ part s
  unfolding close_subscription cancel_message_catch cancel_signal_catch
  close_subscription_keeps part timers messages signals id s =
      let timed = cancel_timer id s in
      let kept_signals : part (cancel_signal_catch id (cancel_message_catch id timed))
          ≡ part (cancel_message_catch id timed) =
        signals (cancel_message_catch id timed) _ _ in
      let kept_messages : part (cancel_message_catch id timed) ≡ part timed = messages timed _ _ in
      kept_signals ∙ kept_messages ∙ cancel_timer_keeps part timers id s

  pub close_subscription-HasKeyedWaits :
      (id : Uuid) (s : Engine V) → HasKeyedWaits s → HasKeyedWaits (close_subscription id s)
  unfolding close_subscription cancel_message_catch cancel_signal_catch
  close_subscription-HasKeyedWaits id s h = record {
    users =
        subst (λ m. IsKeyed (λ t. t.task_id) m)
          (sym (cancel_timer_keeps (λ s. s.pending_user_tasks) (λ s m i e. refl) id s)) h.users;
    services =
        subst (λ m. IsKeyed (λ t. t.id) m)
          (sym (cancel_timer_keeps (λ s. s.pending_service_tasks) (λ s m i e. refl) id s))
          h.services;
    timers = cancel_timer-IsKeyed id s h.timers;
    messages =
        remove-IsKeyed (λ t. t.id) id _
          (subst (λ m. IsKeyed (λ t. t.id) m)
            (sym (cancel_timer_keeps (λ s. s.pending_message_catches) (λ s m i e. refl) id s))
            h.messages);
    signals =
        remove-IsKeyed (λ t. t.id) id _
          (subst (λ m. IsKeyed (λ t. t.id) m)
            (sym (cancel_timer_keeps (λ s. s.pending_signal_catches) (λ s m i e. refl) id s))
            h.signals);
    conditionals =
        subst (λ m. IsKeyed (λ t. t.id) m)
          (sym (cancel_timer_keeps (λ s. s.pending_conditional_catches) (λ s m i e. refl) id s))
          h.conditionals;
  }

  pub timer_closed :
      (id : Uuid) (s : Engine V) (k : Uuid)
      → get k (close_subscription id s).pending_timers
        ≡ (if nat_beq id k then none else get k s.pending_timers)
  unfolding close_subscription cancel_message_catch cancel_signal_catch
  timer_closed id s k = timer_goes id s k

  pub message_closed :
      (id : Uuid) (s : Engine V) (k : Uuid)
      → get k (close_subscription id s).pending_message_catches
        ≡ (if nat_beq id k then none else get k s.pending_message_catches)
  unfolding close_subscription cancel_message_catch cancel_signal_catch
  message_closed id s k =
      message_catch_goes id (cancel_timer id s) k
      ∙ ap (λ m. if nat_beq id k then none else get k m)
          (cancel_timer_keeps (λ s. s.pending_message_catches) (λ s m i e. refl) id s)

  pub signal_closed :
      (id : Uuid) (s : Engine V) (k : Uuid)
      → get k (close_subscription id s).pending_signal_catches
        ≡ (if nat_beq id k then none else get k s.pending_signal_catches)
  unfolding close_subscription cancel_message_catch cancel_signal_catch
  signal_closed id s k =
      signal_catch_goes id (cancel_timer id s) k
      ∙ ap (λ m. if nat_beq id k then none else get k m)
          (cancel_timer_keeps (λ s. s.pending_signal_catches) (λ s m i e. refl) id s)
