-- ===== src/Engine/Executor/Actions.antt =====
-- The branches of `handle_next_action` (engine-core/src/engine/executor/next_action.rs) that fork or
-- wait.
use Prim.Native.String
use bpmninja.Prelude.{
  ℕ, suc, ◌+◌, String, none, some, List, [], ◌∷◌, ◌++◌, get, insert, nat_eq, string_eq, length,
}
use bpmninja.Domain.Error.{Uuid, EngineResult, ok, err, no_such_instance}
use bpmninja.Domain.Token.{Token}
use bpmninja.Runtime.Pending.{PendingTimer, PendingMessageCatch, PendingSignalCatch}
use bpmninja.Runtime.Instance.{
  ProcessInstance, InstanceState, NextAction, Actions, no_actions, action,
}
use bpmninja.Runtime.State.{
  Engine, emit, persist_timer, persist_message_catch, persist_signal_catch,
}
use bpmninja.Engine.Join.{register_active_token, complete_active}
use bpmninja.Engine.TimerIndex.{insert_pending_timer}
use bpmninja.Engine.Executor.{update_instance}

-- A call leaves its result, the queue and the engine.
abbrev pub Handled : Type 0 → Type 0
Handled V = EngineResult (Unit {0}) × List (Token V) × Engine V

module _ {V : Type 0} where
  -- The state of an instance that waits, unless its branches run in parallel.
  abbrev pub waiting : InstanceState V → InstanceState V → InstanceState V
  waiting state (InstanceState.parallel_execution count) = InstanceState.parallel_execution count
  waiting state _ = state

  unfoldable pub set_waiting : Uuid → InstanceState V → Engine V → Engine V
  unfolding update_instance
  set_waiting id state =
      update_instance id (λ inst. record inst { state = waiting state inst.state })

  -- Storing what is waited for, with its persistence.
  unfoldable pub store_timer : PendingTimer → Engine V → Engine V
  unfolding insert_pending_timer
  store_timer p s = emit (persist_timer p.id) (insert_pending_timer p s)

  unfoldable pub store_message : PendingMessageCatch → Engine V → Engine V
  store_message p s =
      emit (persist_message_catch p.id)
        (record s { pending_message_catches = insert p.id p s.pending_message_catches })

  unfoldable pub store_signal : PendingSignalCatch → Engine V → Engine V
  store_signal p s =
      emit (persist_signal_catch p.id)
        (record s { pending_signal_catches = insert p.id p s.pending_signal_catches })

  -- One round of the loop of an event-based gateway.
  abbrev pub store_event : NextAction V → Engine V → Engine V
  store_event (NextAction.wait_for_timer p) s = store_timer p s
  store_event (NextAction.wait_for_message p) s = store_message p s
  store_event (NextAction.wait_for_signal p) s = store_signal p s
  store_event _ s = s

  unfoldable pub store_group : Actions V → Engine V → Engine V
  unfolding store_timer store_message store_signal
  store_group no_actions s = s
  store_group (action a rest) s = store_group rest (store_event a s)

  abbrev pub queue_next :
      (List (Token V) → Engine V → Handled V)
      → Token V
      → List (Token V)
      → EngineResult (Unit {0}) × Engine V
      → Handled V
  queue_next go t queue (err e, s) = (err e, queue, s)
  queue_next go t queue (ok _, s) = go (queue ++ t ∷ []) s

  -- The loops that register and queue the tokens of a fork, from branch `k` on.
  unfoldable pub queue_forked :
      Uuid → String → ℕ → List (Token V) → List (Token V) → Engine V → Handled V
  unfolding register_active_token
  queue_forked instance_id node_id k [] queue s = (ok tt, queue, s)
  queue_forked instance_id node_id k (t ∷ ts) queue s =
      queue_next (queue_forked instance_id node_id (suc k) ts) t queue
        (register_active_token s instance_id node_id k t)

  -- The token that forks is completed, and the instance runs in parallel.
  abbrev pub forked : (token_id : Uuid) → ℕ → ProcessInstance V → ProcessInstance V
  forked token_id branch_count inst = record inst {
    active_tokens = complete_active token_id inst.active_tokens;
    state = InstanceState.parallel_execution (length inst.active_tokens + branch_count);
  }

  unfoldable pub fork_multi_instance :
      Uuid → (token_id : Uuid) → String → List (Token V) → List (Token V) → Engine V → Handled V
  unfolding complete_active queue_forked
  fork_multi_instance instance_id token_id node_id tokens queue s =
      elim (get instance_id s.instances) [
        | none ↦ (err (no_such_instance instance_id), queue, s)
        | some inst ↦
            let join_id = String.◌++◌ "MI_JOIN_" node_id in
            queue_forked instance_id node_id 0 tokens queue (record s {
              instances =
                  insert instance_id
                    (forked token_id (length tokens) (record inst {
                      join_barriers =
                          insert join_id
                            (record {
                              gateway_node_id = join_id;
                              expected_count = length tokens;
                              arrived_tokens = [];
                            })
                            inst.join_barriers;
                    }))
                    s.instances;
            })
      ]
