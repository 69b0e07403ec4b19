-- ===== src/Engine/Executor/Dispatch/Waiting.antt =====
-- What an action that waits leaves behind.
use bpmninja.Prelude.{
  ℕ, ◌≡◌, ◌≢◌, ◌⊎◌, inl, inr, refl, ◌∙◌, ap, subst, String, Bool, false, Option, none, some, List,
  Map, get, insert, get-insert, nat_eq, nat_beq, nat_beq_iff, if◌then◌else◌, arith,
}
use bpmninja.Domain.Error.{Uuid, EngineResult, ok}
use bpmninja.Domain.Timer.{Calendar}
use bpmninja.Domain.Token.{Token}
use bpmninja.Runtime.Instance.{ProcessInstance, InstanceState, NextAction}
use bpmninja.Runtime.State.{Engine}
use bpmninja.Engine.TopicIndex.{insert_pending_service_task}
use bpmninja.Engine.TimerIndex.{insert_pending_timer}
use bpmninja.Engine.Executor.Instances.{update_instance_keeps, get-update_instance}
use bpmninja.Engine.Executor.Actions.{
  waiting, set_waiting, store_timer, store_message, store_signal,
}
use bpmninja.Engine.Executor.Dispatch.{handle_next_action}

module _ {V : Type 0} where
  -- The state of an instance that waits for one thing.
  abbrev pub waits_as : NextAction V → Option (InstanceState V)
  waits_as (NextAction.wait_for_user p) = some (InstanceState.waiting_on_user_task p.task_id)
  waits_as (NextAction.wait_for_service_task p) = some (InstanceState.waiting_on_service_task p.id)
  waits_as (NextAction.wait_for_timer p) = some (InstanceState.waiting_on_timer p.id)
  waits_as (NextAction.wait_for_message p) = some (InstanceState.waiting_on_message p.id)
  waits_as (NextAction.wait_for_signal p) = some (InstanceState.waiting_on_signal p.id)
  waits_as (NextAction.wait_for_condition p) = some (InstanceState.waiting_on_condition p.id)
  waits_as _ = none

  -- What is waited for is stored under its identifier, and the map has no other change.
  abbrev pub Stores : NextAction V → Engine V → Engine V → Type 0
  Stores (NextAction.wait_for_user p) s s' =
      (k : Uuid)
      → get k s'.pending_user_tasks
        ≡ (if nat_beq p.task_id k then some p else get k s.pending_user_tasks)
  Stores (NextAction.wait_for_service_task p) s s' =
      (k : Uuid)
      → get k s'.pending_service_tasks
        ≡ (if nat_beq p.id k then some p else get k s.pending_service_tasks)
  Stores (NextAction.wait_for_timer p) s s' =
      (k : Uuid)
      → get k s'.pending_timers ≡ (if nat_beq p.id k then some p else get k s.pending_timers)
  Stores (NextAction.wait_for_message p) s s' =
      (k : Uuid)
      → get k s'.pending_message_catches
        ≡ (if nat_beq p.id k then some p else get k s.pending_message_catches)
  Stores (NextAction.wait_for_signal p) s s' =
      (k : Uuid)
      → get k s'.pending_signal_catches
        ≡ (if nat_beq p.id k then some p else get k s.pending_signal_catches)
  Stores (NextAction.wait_for_condition p) s s' =
      (k : Uuid)
      → get k s'.pending_conditional_catches
        ≡ (if nat_beq p.id k then some p else get k s.pending_conditional_catches)
  Stores _ s s' = Unit

  -- An instance with branches in parallel stays as it is, and any other one takes the state; no other
  -- instance is touched.
  abbrev pub Parks : Uuid → ProcessInstance V → InstanceState V → Engine V → Engine V → Type 0
  Parks id inst state s s' =
      (((n : ℕ) × (inst.state ≡ InstanceState.parallel_execution n)
          × (get id s'.instances ≡ some inst))
        ⊎ (((n : ℕ) → inst.state ≢ InstanceState.parallel_execution n)
            × (get id s'.instances ≡ some (record inst { state = state }))))
      × ((k : Uuid) → nat_beq id k ≡ false → get k s'.instances ≡ get k s.instances)

  -- Both states of an instance that is asked to wait.
  parked_state :
      (state current : InstanceState V)
      → ((n : ℕ) × (current ≡ InstanceState.parallel_execution n)
          × (waiting state current ≡ current))
        ⊎ (((n : ℕ) → current ≢ InstanceState.parallel_execution n)
            × (waiting state current ≡ state))
  parked_state state (InstanceState.parallel_execution n) = inl (n, refl, refl)
  parked_state state _ = inr ((λ n h. cc), refl)

  set_waiting-Parks :
      (id : Uuid) (inst : ProcessInstance V) (state : InstanceState V) (s : Engine V)
      → get id s.instances ≡ some inst
      → Parks id inst state s (set_waiting id state s)
  unfolding set_waiting
  set_waiting-Parks id inst state s there =
      let found : get id (set_waiting id state s).instances
          ≡ some (record inst { state = waiting state inst.state }) =
        get-update_instance id id _ inst s there ∙ ground (arith, nat_beq_iff id id) in
      (
        elim (parked_state state inst.state) [
          | inl (n, parallel, same) ↦
              inl (n, parallel, found ∙ ap (λ st. some (record inst { state = st })) same)
          | inr (alone, changed) ↦
              inr (alone, found ∙ ap (λ st. some (record inst { state = st })) changed)
        ],
        (λ k other. get-update_instance id k _ inst s there ∙ ground (arith, other)),
      )

  -- An entry that is stored once the instance waits.
  stored :
      {A : Type 0} (id key : Uuid) (p : A) (part : Engine V → Map Uuid A)
      → ((s : Engine V) (m : Map Uuid (ProcessInstance V))
          → part (record s { instances = m }) ≡ part s)
      → (state : InstanceState V) (s : Engine V) (k : Uuid)
      → get k (insert key p (part (set_waiting id state s)))
        ≡ (if nat_beq key k then some p else get k (part s))
  unfolding set_waiting
  stored id key p part apart state s k =
      get-insert key k p (part (set_waiting id state s))
      ∙ ap (λ m. if nat_beq key k then some p else get k m)
          (update_instance_keeps part apart id _ s)

module _ {V : Type 0} (holds : String → Map String V → Bool) (calendar : Calendar)
    (spawn : Uuid → Uuid → Token V → Engine V → EngineResult Uuid × Engine V) (now : ℕ)
    (new_id : Uuid) (id token_id : Uuid) (gateway_id : String) where
  -- An action that waits for one thing, on an instance that is there, succeeds and queues no token:
  -- what is waited for is stored under its identifier, and the instance takes the state of that
  -- wait, or stays as it is if its branches run in parallel; no other instance is touched.
  pub handle_next_action-Parks :
      (next : NextAction V) (state : InstanceState V) (inst : ProcessInstance V)
      (queue : List (Token V)) (s : Engine V)
      → waits_as next ≡ some state
      → get id s.instances ≡ some inst
      → let (result, queue', s') =
          handle_next_action holds calendar spawn now new_id id token_id gateway_id next queue s in
        (result ≡ ok tt) × (queue' ≡ queue) × Stores next s s' × Parks id inst state s s'
  unfolding handle_next_action insert_pending_service_task store_timer store_message store_signal
      insert_pending_timer
  handle_next_action-Parks (NextAction.wait_for_user p) state inst queue s is there =
      let waits = InstanceState.waiting_on_user_task p.task_id in
      let same : waits ≡ state = cc in
      (
        refl,
        refl,
        stored id p.task_id p (λ s. s.pending_user_tasks) (λ s m. refl) waits s,
        subst (λ st. Parks id inst st s (set_waiting id waits s)) same
            (set_waiting-Parks id inst waits s there),
      )
  handle_next_action-Parks (NextAction.wait_for_service_task p) state inst queue s is there =
      let waits = InstanceState.waiting_on_service_task p.id in
      let same : waits ≡ state = cc in
      (
        refl,
        refl,
        stored id p.id p (λ s. s.pending_service_tasks) (λ s m. refl) waits s,
        subst (λ st. Parks id inst st s (set_waiting id waits s)) same
            (set_waiting-Parks id inst waits s there),
      )
  handle_next_action-Parks (NextAction.wait_for_timer p) state inst queue s is there =
      let waits = InstanceState.waiting_on_timer p.id in
      let same : waits ≡ state = cc in
      (
        refl,
        refl,
        stored id p.id p (λ s. s.pending_timers) (λ s m. refl) waits s,
        subst (λ st. Parks id inst st s (set_waiting id waits s)) same
            (set_waiting-Parks id inst waits s there),
      )
  handle_next_action-Parks (NextAction.wait_for_message p) state inst queue s is there =
      let waits = InstanceState.waiting_on_message p.id in
      let same : waits ≡ state = cc in
      (
        refl,
        refl,
        stored id p.id p (λ s. s.pending_message_catches) (λ s m. refl) waits s,
        subst (λ st. Parks id inst st s (set_waiting id waits s)) same
            (set_waiting-Parks id inst waits s there),
      )
  handle_next_action-Parks (NextAction.wait_for_signal p) state inst queue s is there =
      let waits = InstanceState.waiting_on_signal p.id in
      let same : waits ≡ state = cc in
      (
        refl,
        refl,
        stored id p.id p (λ s. s.pending_signal_catches) (λ s m. refl) waits s,
        subst (λ st. Parks id inst st s (set_waiting id waits s)) same
            (set_waiting-Parks id inst waits s there),
      )
  handle_next_action-Parks (NextAction.wait_for_condition p) state inst queue s is there =
      let waits = InstanceState.waiting_on_condition p.id in
      let same : waits ≡ state = cc in
      (
        refl,
        refl,
        stored id p.id p (λ s. s.pending_conditional_catches) (λ s m. refl) waits s,
        subst (λ st. Parks id inst st s (set_waiting id waits s)) same
            (set_waiting-Parks id inst waits s there),
      )
  handle_next_action-Parks _ state inst queue s is there = cc
