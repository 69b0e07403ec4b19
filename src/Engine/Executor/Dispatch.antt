-- ===== src/Engine/Executor/Dispatch.antt =====
-- `handle_next_action` of engine-core/src/engine/executor/next_action.rs. `now` is the clock reading
-- and `new_id` the `Uuid::new_v4()` of a call, which makes at most one; `spawn` is
-- `spawn_call_activity_for_parent` of engine-core/src/engine/process_start.rs, and `holds` the
-- condition evaluator of the join.
pub mod Waiting
pub mod Forking
use bpmninja.Prelude.{
  ℕ, String, Bool, true, false, Option, none, some, List, [], ◌∷◌, ◌++◌, Map, insert, nat_eq,
  string_eq, ◌==◌, length, find,
}
use bpmninja.Domain.Error.{Uuid, EngineResult, ok, err}
use bpmninja.Domain.Timer.{Calendar}
use bpmninja.Domain.Token.{Token}
use bpmninja.Domain.Graph.{ProcessDefinition}
use bpmninja.Runtime.Instance.{ProcessInstance, InstanceState, NextAction}
use bpmninja.Runtime.State.{
  Engine, emit, persist_instance, persist_user_task, persist_service_task,
  persist_conditional_catch, task_changed,
}
use bpmninja.Engine.Join.{register_join_barrier_if_needed, arrive_at_join}
use bpmninja.Engine.TopicIndex.{insert_pending_service_task}
use bpmninja.Engine.Executor.{update_instance, node_is_inclusive_split, fail_call_activity}
use bpmninja.Engine.Executor.Actions.{
  Handled, set_waiting, store_timer, store_message, store_signal, store_group, queue_forked, forked,
  fork_multi_instance,
}
use bpmninja.Engine.Executor.Ends.{
  complete_path, close_failed, close_escalated, end_with_code, terminate,
}

module _ {V : Type 0} (holds : String → Map String V → Bool) (calendar : Calendar)
    (spawn : Uuid → Uuid → Token V → Engine V → EngineResult Uuid × Engine V) (now : ℕ)
    (new_id : Uuid) (instance_id token_id : Uuid) (current_gateway_id : String) where
  -- `queue.push_back(token)` after a step that may fail.
  abbrev then_queue :
      EngineResult (Unit {0}) → List (Token V) → List (Token V) → Engine V → Handled V
  then_queue (err e) queue more s = (err e, queue, s)
  then_queue (ok _) queue more s = (ok tt, queue ++ more, s)

  unfoldable pub continue_with : Token V → List (Token V) → Engine V → Handled V
  unfolding node_is_inclusive_split register_join_barrier_if_needed
  continue_with token queue s = elim (node_is_inclusive_split s instance_id current_gateway_id) [
    | err e ↦ (err e, queue, s)
    | ok false ↦ (ok tt, queue ++ token ∷ [], s)
    | ok true ↦
        let (result, s') = register_join_barrier_if_needed s instance_id current_gateway_id 1 in
        then_queue result queue (token ∷ []) s'
  ]

  abbrev pub fork_registered :
      List (Token V) → List (Token V) → EngineResult (Unit {0}) × Engine V → Handled V
  fork_registered tokens queue (err e, s) = (err e, queue, s)
  fork_registered tokens queue (ok _, s) =
      queue_forked instance_id current_gateway_id 0 tokens queue (
        update_instance instance_id
          (λ inst. record (forked token_id (length tokens) inst) {
            current_node = current_gateway_id;
          })
          s)

  unfoldable pub fork : List (Token V) → List (Token V) → Engine V → Handled V
  unfolding register_join_barrier_if_needed update_instance queue_forked
  fork tokens queue s =
      fork_registered tokens queue
        (register_join_barrier_if_needed s instance_id current_gateway_id (length tokens))

  abbrev arrived : String → EngineResult (Option (Token V)) → List (Token V) → Engine V → Handled V
  arrived gateway_id (err e) queue s = (err e, queue, s)
  arrived gateway_id (ok none) queue s = (ok tt, queue, s)
  arrived gateway_id (ok (some merged)) queue s = (
    ok tt,
    queue ++ merged ∷ [],
    update_instance instance_id
        (λ inst. record inst { state = InstanceState.running; current_node = gateway_id }) s,
  )

  unfoldable pub join : String → Token V → List (Token V) → Engine V → Handled V
  unfolding arrive_at_join update_instance
  join gateway_id token queue s =
      let (result, s') = arrive_at_join holds new_id s instance_id gateway_id token in
      arrived gateway_id result queue s'

  abbrev spawned : EngineResult Uuid × Engine V → List (Token V) → List (Token V) × Engine V
  spawned (ok _, s) queue = (queue, s)
  spawned (err _, s) queue = ([], fail_call_activity now s instance_id "CALL_ACTIVITY_SPAWN_FAILED")

  abbrev called :
      Option (Uuid × ProcessDefinition V)
      → Token V
      → List (Token V)
      → Engine V
      → List (Token V) × Engine V
  called none token queue s =
      ([], fail_call_activity now s instance_id "CALL_ACTIVITY_TARGET_NOT_FOUND")
  called (some (key, _)) token queue s = spawned (spawn key instance_id token s) queue

  -- The first definition, in the order of iteration, that has the called identifier.
  unfoldable pub call_activity : String → Token V → List (Token V) → Engine V → Handled V
  unfolding fail_call_activity
  call_activity called_element token queue s =
      let (queue', s') =
        called (find (λ e. e.1.id == called_element) s.definitions) token queue s in
      (ok tt, queue', emit (persist_instance instance_id) s')

  abbrev persisted : Engine V → Engine V
  persisted s = emit (persist_instance instance_id) s

  unfoldable pub handle_next_action : NextAction V → List (Token V) → Engine V → Handled V
  unfolding continue_with fork join call_activity set_waiting store_timer store_message store_signal
      store_group insert_pending_service_task complete_path close_failed close_escalated
      end_with_code terminate fork_multi_instance
  handle_next_action (NextAction.continue token) queue s = continue_with token queue s
  handle_next_action (NextAction.continue_multiple tokens) queue s = fork tokens queue s
  handle_next_action (NextAction.wait_for_join gateway_id token) queue s =
      join gateway_id token queue s
  handle_next_action (NextAction.wait_for_user p) queue s =
      let s' = set_waiting instance_id (InstanceState.waiting_on_user_task p.task_id) s in
      (
        ok tt,
        queue,
        emit task_changed (
            persisted (
              emit (persist_user_task p.task_id)
                (record s' { pending_user_tasks = insert p.task_id p s'.pending_user_tasks }))),
      )
  handle_next_action (NextAction.wait_for_service_task p) queue s = (
    ok tt,
    queue,
    emit task_changed (
        persisted (
          emit (persist_service_task p.id) (
            insert_pending_service_task p
              (set_waiting instance_id (InstanceState.waiting_on_service_task p.id) s)))),
  )
  handle_next_action (NextAction.wait_for_timer p) queue s = (
    ok tt,
    queue,
    persisted (store_timer p (set_waiting instance_id (InstanceState.waiting_on_timer p.id) s)),
  )
  handle_next_action (NextAction.wait_for_message p) queue s = (
    ok tt,
    queue,
    persisted (store_message p (set_waiting instance_id (InstanceState.waiting_on_message p.id) s)),
  )
  handle_next_action (NextAction.wait_for_signal p) queue s = (
    ok tt,
    queue,
    persisted (store_signal p (set_waiting instance_id (InstanceState.waiting_on_signal p.id) s)),
  )
  handle_next_action (NextAction.wait_for_condition p) queue s =
      let s' = set_waiting instance_id (InstanceState.waiting_on_condition p.id) s in
      (
        ok tt,
        queue,
        persisted (
            emit (persist_conditional_catch p.id) (record s' {
              pending_conditional_catches = insert p.id p s'.pending_conditional_catches;
            })),
      )
  handle_next_action (NextAction.wait_for_event_group actions) queue s = (
    ok tt,
    queue,
    persisted (
        store_group actions
          (set_waiting instance_id InstanceState.waiting_on_event_based_gateway s)),
  )
  handle_next_action (NextAction.wait_for_call_activity called_element token) queue s =
      call_activity called_element token queue s
  handle_next_action NextAction.complete queue s = complete_path now instance_id token_id queue s
  handle_next_action (NextAction.error_end error_code) queue s =
      end_with_code now calendar new_id instance_id token_id error_code false
        (close_failed now new_id instance_id error_code) queue s
  handle_next_action (NextAction.escalation_end escalation_code) queue s =
      end_with_code now calendar new_id instance_id token_id escalation_code true
        (close_escalated now instance_id escalation_code) queue s
  handle_next_action (NextAction.spawn_and_continue main spawned_tokens) queue s =
      (ok tt, (queue ++ main ∷ []) ++ spawned_tokens, s)
  handle_next_action (NextAction.interrupt_scope token) queue s = (ok tt, token ∷ [], s)
  handle_next_action NextAction.terminate queue s = (ok tt, [], terminate now instance_id s)
  handle_next_action (NextAction.multi_instance_fork node_id tokens) queue s =
      fork_multi_instance instance_id token_id node_id tokens queue s
  handle_next_action (NextAction.multi_instance_next _ token) queue s =
      (ok tt, queue ++ token ∷ [], s)
