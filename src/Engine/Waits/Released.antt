-- ===== src/Engine/Waits/Released.antt =====
-- What it means that the waits of one instance are ended: nothing of it is left, and nothing of
-- another goes.
use bpmninja.Prelude.{◌≡◌, not, Map, get, nat_eq, nat_beq, HasDistinctKeys, kept, All}
use bpmninja.Domain.Error.{Uuid}
use bpmninja.Runtime.Pending.{
  PendingUserTask, PendingServiceTask, PendingTimer, PendingMessageCatch, PendingSignalCatch,
  PendingConditionalCatch,
}
use bpmninja.Runtime.State.{Engine}

-- A map of pending entries is one of a `HashMap`, with each entry under its own identifier.
abbrev pub IsKeyed : {A : Type 0} → (A → Uuid) → Map Uuid A → Type 0
IsKeyed ident m = HasDistinctKeys m × All (λ e. ident e.1 ≡ e.0) m

module _ {V : Type 0} where
  pub record HasKeyedWaits (s : Engine V) : Type 0 where
    pub users : IsKeyed (λ (t : PendingUserTask). t.task_id) s.pending_user_tasks
    pub services : IsKeyed (λ (t : PendingServiceTask V). t.id) s.pending_service_tasks
    pub timers : IsKeyed (λ (t : PendingTimer). t.id) s.pending_timers
    pub messages : IsKeyed (λ (t : PendingMessageCatch). t.id) s.pending_message_catches
    pub signals : IsKeyed (λ (t : PendingSignalCatch). t.id) s.pending_signal_catches
    pub conditionals : IsKeyed (λ (t : PendingConditionalCatch). t.id) s.pending_conditional_catches

  -- The entries of the instance are gone, those of the others stay, and so do the instances and the
  -- definitions.
  pub record Released (instance_id : Uuid) (s s' : Engine V) : Type 0 where
    pub users :
        (k : Uuid)
        → get k s'.pending_user_tasks
          ≡ kept (λ t. not (nat_beq t.instance_id instance_id)) (get k s.pending_user_tasks)
    pub services :
        (k : Uuid)
        → get k s'.pending_service_tasks
          ≡ kept (λ t. not (nat_beq t.instance_id instance_id)) (get k s.pending_service_tasks)
    pub timers :
        (k : Uuid)
        → get k s'.pending_timers
          ≡ kept (λ t. not (nat_beq t.instance_id instance_id)) (get k s.pending_timers)
    pub messages :
        (k : Uuid)
        → get k s'.pending_message_catches
          ≡ kept (λ t. not (nat_beq t.instance_id instance_id)) (get k s.pending_message_catches)
    pub signals :
        (k : Uuid)
        → get k s'.pending_signal_catches
          ≡ kept (λ t. not (nat_beq t.instance_id instance_id)) (get k s.pending_signal_catches)
    pub conditionals :
        (k : Uuid)
        → get k s'.pending_conditional_catches
          ≡ kept
              (λ t. not (nat_beq t.instance_id instance_id))
              (get k s.pending_conditional_catches)
    pub instances : s'.instances ≡ s.instances
    pub definitions : s'.definitions ≡ s.definitions
