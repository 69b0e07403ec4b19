-- ===== src/Engine/Executor/Loop.antt =====
-- `run_instance_batch_with_tokens` of engine-core/src/engine/executor/mod.rs. What the loop calls of
-- other parts of the engine is a parameter: what holds of the loop holds for all of them.
pub mod Rounds
use bpmninja.Prelude.{
  ℕ, zero, suc, String, Bool, true, false, Option, none, some, List, [], ◌∷◌, Map, get, nat_eq, ltb,
}
use bpmninja.Domain.Error.{
  Uuid, EngineError, EngineResult, ok, err, data_mapping_error, execution_limit_exceeded,
}
use bpmninja.Domain.Timer.{Calendar}
use bpmninja.Domain.Token.{Token}
use bpmninja.Runtime.Instance.{
  ProcessInstance, InstanceState, NextAction, mapping_failed, step_limit_exceeded,
}
use bpmninja.Runtime.State.{
  Engine, HistoryEventType, emit, persist_instance, archive_completed_instance, instance_changed,
}
use bpmninja.Engine.Incidents.{push_audit_log}
use bpmninja.Engine.Executor.{update_instance, record_event, finish}
use bpmninja.Engine.Executor.Actions.{Handled}
use bpmninja.Engine.Executor.Dispatch.{handle_next_action}

-- engine-core/src/runtime/constants.rs
abbrev pub max_execution_steps : ℕ
max_execution_steps = 10_000

-- `execute_step` also changes its token. `clock` and `fresh` are the clock reading and the new UUID
-- of a step.
pub record Behaviour (V : Type 0) : Type 0 where
  pub execute_step : Uuid → Token V → Engine V → EngineResult (NextAction V) × Token V × Engine V
  pub fire_conditional_catches : Uuid → Engine V → EngineResult (List (Token V)) × Engine V
  pub resume_parent_if_needed : Uuid → Option String → Engine V → EngineResult (Unit {0}) × Engine V
  pub spawn_call_activity_for_parent :
      Uuid → Uuid → Token V → Engine V → EngineResult Uuid × Engine V
  pub evaluate_condition : String → Map String V → Bool
  pub calendar : Calendar
  pub clock : ℕ → ℕ
  pub fresh : ℕ → Uuid

module _ {V : Type 0} where
  -- The history event of an action.
  abbrev pub event_of : NextAction V → HistoryEventType
  event_of (NextAction.continue_multiple _) = HistoryEventType.token_forked
  event_of (NextAction.wait_for_call_activity _ _) = HistoryEventType.call_activity_started
  event_of NextAction.complete = HistoryEventType.branch_completed
  event_of (NextAction.error_end _) = HistoryEventType.branch_completed
  event_of (NextAction.escalation_end _) = HistoryEventType.escalation_thrown
  event_of (NextAction.spawn_and_continue _ _) = HistoryEventType.token_forked
  event_of (NextAction.interrupt_scope _) = HistoryEventType.token_forked
  event_of NextAction.terminate = HistoryEventType.branch_completed
  event_of (NextAction.multi_instance_fork _ _) = HistoryEventType.token_forked
  event_of _ = HistoryEventType.token_advanced

  -- Only a data mapping that fails ends the instance.
  unfoldable pub note_failure : (now : ℕ) → Uuid → EngineError → Engine V → Engine V
  unfolding update_instance push_audit_log
  note_failure now instance_id (data_mapping_error reason) s =
      update_instance instance_id
        (λ inst.
          push_audit_log (mapping_failed reason)
            (finish now (InstanceState.completed_with_error "DATA_MAPPING_ERROR") inst))
        s
  note_failure now instance_id _ s = s

  abbrev pub step_failed : (now : ℕ) → Uuid → EngineError → Engine V → Engine V
  step_failed now instance_id e s =
      emit instance_changed (emit (persist_instance instance_id) (note_failure now instance_id e s))

  -- The hard abort at the limit.
  unfoldable pub limit_abort : (now limit : ℕ) → Uuid → Engine V → Engine V
  unfolding update_instance push_audit_log
  limit_abort now limit instance_id s = emit (persist_instance instance_id) (
      update_instance instance_id
        (λ inst.
          push_audit_log (step_limit_exceeded limit)
            (finish now (InstanceState.completed_with_error "EXECUTION_LIMIT_EXCEEDED") inst))
        s)

  -- Whether the instance has ended, with its error code.
  abbrev pub outcome : Option (ProcessInstance V) → Option (Option String)
  outcome none = none
  outcome (some inst) = elim inst.state [
    | InstanceState.completed ↦ some none
    | InstanceState.completed_with_error code ↦ some (some code)
    | _ ↦ none
  ]

module _ {V : Type 0} (b : Behaviour V) (instance_id : Uuid) where
  -- The next token of the batch. With the queue empty, the conditional catches are tried.
  unfoldable pub next_token :
      List (Token V) → Engine V → EngineResult (Option (Token V × List (Token V))) × Engine V
  next_token (token ∷ queue) s = (ok (some (token, queue)), s)
  next_token [] s =
      let (result, s') = b.fire_conditional_catches instance_id s in
      elim result [
        | err e ↦ (err e, s')
        | ok [] ↦ (ok none, s')
        | ok (token ∷ fired) ↦ (ok (some (token, fired)), s')
      ]

  -- One round with a token: step number `count` of the batch.
  unfoldable pub step_once : (count : ℕ) → Token V → List (Token V) → Engine V → Handled V
  unfolding note_failure handle_next_action
  step_once count token queue s =
      let (result, token', s') = b.execute_step instance_id token s in
      elim result [
        | err e ↦ (err e, queue, step_failed (b.clock count) instance_id e s')
        | ok action ↦
            handle_next_action b.evaluate_condition b.calendar b.spawn_call_activity_for_parent
              (b.clock count) (b.fresh count) instance_id token'.id token.current_node action queue
              (record_event instance_id (event_of action) s')
      ]

  abbrev pub batch_end : Option (Option String) → Engine V → EngineResult (Unit {0}) × Engine V
  batch_end none s = (ok tt, emit instance_changed s)
  batch_end (some error_code) s =
      let (result, s') = b.resume_parent_if_needed instance_id error_code s in
      elim result [
        | err e ↦ (err e, s')
        | ok _ ↦ (ok tt, emit instance_changed (emit (archive_completed_instance instance_id) s'))
      ]

  -- After the loop: persistence, and the parent and the archive of an instance that has ended.
  unfoldable pub finish_batch : Engine V → EngineResult (Unit {0}) × Engine V
  finish_batch s =
      batch_end (outcome (get instance_id s.instances)) (emit (persist_instance instance_id) s)

module _ {V : Type 0} (b : Behaviour V) (limit : ℕ) (instance_id : Uuid) where
  -- `none` means that the fuel ran out. `go` is the rest of the loop.
  abbrev pub Batch : Type 0
  Batch = Option (EngineResult (Unit {0}) × Engine V)

  abbrev pub after_step : (List (Token V) → Engine V → Batch) → Handled V → Batch
  after_step go (err e, queue, s) = some (err e, s)
  after_step go (ok _, queue, s) = go queue s

  abbrev pub after_next :
      (List (Token V) → Engine V → Batch)
      → (count : ℕ) → EngineResult (Option (Token V × List (Token V))) × Engine V
      → Batch
  after_next go count (err e, s) = some (err e, s)
  after_next go count (ok none, s) = some (finish_batch b instance_id s)
  after_next go count (ok (some (token, rest)), s) = elim (ltb limit count) [
    | true ↦ some (
      err (execution_limit_exceeded instance_id limit),
      limit_abort (b.clock count) limit instance_id s,
    )
    | false ↦ after_step go (step_once b instance_id count token rest s)
  ]

  unfoldable pub run : (fuel count : ℕ) → List (Token V) → Engine V → Batch
  unfolding next_token step_once finish_batch limit_abort
  run zero count queue s = none
  run (suc fuel) count queue s =
      after_next (run fuel (suc count)) (suc count) (next_token b instance_id queue s)

-- A round takes a unit of fuel, and the round past the limit ends the batch.
unfoldable pub run_instance_batch_with_tokens :
    {V : Type 0}
    → Behaviour V
    → Uuid
    → List (Token V)
    → Engine V
    → Option (EngineResult (Unit {0}) × Engine V)
unfolding run
run_instance_batch_with_tokens b instance_id tokens s =
    run b max_execution_steps instance_id (suc max_execution_steps) 0 tokens s
