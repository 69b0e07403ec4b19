-- ===== src/Engine/Executor/Ends.antt =====
-- The branches of `handle_next_action` (engine-core/src/engine/executor/next_action.rs) that end a
-- path or the instance. `now` is the clock reading and `new_id` the `Uuid::new_v4()` of a call, for
-- the token of a handler or for an incident.
pub mod Terminated
pub mod Completed
use Prim.Native.String
use bpmninja.Prelude.{
  ℕ, String, Bool, true, false, Option, none, some, List, [], ◌∷◌, Map, if◌then◌else◌,
}
use bpmninja.Domain.Error.{Uuid, EngineResult, ok, err}
use bpmninja.Domain.Incident.{IncidentKind}
use bpmninja.Domain.Timer.{Calendar}
use bpmninja.Domain.Token.{Token}
use bpmninja.Runtime.Instance.{
  ProcessInstance, InstanceState, every_token_completed, error_ended, escalation_ended,
  process_terminated,
}
use bpmninja.Runtime.State.{Engine, HistoryEventType, emit, persist_instance}
use bpmninja.Engine.Incidents.{push_audit_log, push_or_touch_incident}
use bpmninja.Engine.Waits.{drop_waits, close_event_scope}
use bpmninja.Engine.EventScope.{ScopeActivation}
use bpmninja.Engine.EventScope.Activation.{try_activate_event_code}
use bpmninja.Engine.Executor.{
  update_instance, record_event, drop_token, finish, log, complete_branch_token,
  all_tokens_completed, kill_all, token_event_context, queue_scope_activation,
}
use bpmninja.Engine.Executor.Actions.{Handled}

abbrev unhandled : String → String
unhandled code = String.◌++◌ "Unhandled BPMN error '" (String.◌++◌ code "'")

module _ {V : Type 0} (now : ℕ) where
  abbrev persisted : Uuid → Engine V → Engine V
  persisted instance_id s = emit (persist_instance instance_id) s

  -- The instance is completed if no token is left.
  unfoldable pub close_completed : Uuid → Engine V → Engine V
  unfolding close_event_scope update_instance
  close_completed instance_id s = record_event instance_id HistoryEventType.instance_completed (
      update_instance instance_id
        (λ inst. log every_token_completed (finish now InstanceState.completed inst))
        (close_event_scope instance_id s))

  abbrev pub complete_rest : Uuid → List (Token V) → EngineResult Bool → Engine V → Handled V
  complete_rest instance_id queue (err e) s = (err e, queue, s)
  complete_rest instance_id queue (ok false) s = (ok tt, queue, persisted instance_id s)
  complete_rest instance_id queue (ok true) s =
      (ok tt, queue, persisted instance_id (close_completed instance_id s))

  abbrev pub complete_token :
      Uuid → (token_id : Uuid) → List (Token V) → EngineResult (Unit {0}) × Engine V → Handled V
  complete_token instance_id token_id queue (err e, s) = (err e, queue, s)
  complete_token instance_id token_id queue (ok _, s) =
      let dropped = update_instance instance_id (drop_token token_id) s in
      complete_rest instance_id queue (all_tokens_completed dropped instance_id) dropped

  unfoldable pub complete_path : Uuid → (token_id : Uuid) → List (Token V) → Engine V → Handled V
  unfolding complete_branch_token update_instance all_tokens_completed close_completed
  complete_path instance_id token_id queue s =
      complete_token instance_id token_id queue (complete_branch_token s instance_id token_id)

  -- An unhandled error that ends the last token ends the instance, with an incident.
  unfoldable pub close_failed : (new_id : Uuid) → Uuid → String → Engine V → Engine V
  unfolding close_event_scope update_instance push_or_touch_incident
  close_failed new_id instance_id error_code s = close_event_scope instance_id (
      record_event instance_id HistoryEventType.instance_completed (
        update_instance instance_id
          (λ inst.
            let ended =
              log (error_ended error_code)
                (finish now (InstanceState.completed_with_error error_code) inst) in
            record ended {
              incidents =
                  (push_or_touch_incident now new_id IncidentKind.bpmn_error
                    (some inst.current_node) none (unhandled error_code) none ended.incidents).1;
            })
          s))

  unfoldable pub close_escalated : Uuid → String → Engine V → Engine V
  unfolding close_event_scope update_instance push_audit_log
  close_escalated instance_id escalation_code s = close_event_scope instance_id (
      record_event instance_id HistoryEventType.instance_completed (
        update_instance instance_id
          (λ inst.
            push_audit_log (escalation_ended escalation_code)
              (finish now InstanceState.completed inst))
          s))

  -- No handler was found: `close` ends the instance if this was the last token.
  abbrev unhandled_rest :
      Uuid → (Engine V → Engine V) → List (Token V) → EngineResult Bool → Engine V → Handled V
  unhandled_rest instance_id close queue (err e) s = (err e, queue, s)
  unhandled_rest instance_id close queue (ok false) s = (ok tt, queue, persisted instance_id s)
  unhandled_rest instance_id close queue (ok true) s =
      (ok tt, queue, persisted instance_id (close s))

  abbrev caught_rest :
      Uuid
      → (Engine V → Engine V)
      → List (Token V)
      → EngineResult (Option (ScopeActivation V))
      → Engine V
      → Handled V
  caught_rest instance_id close queue (err e) s = (err e, queue, s)
  caught_rest instance_id close queue (ok (some activation)) s = (
    ok tt,
    queue_scope_activation queue activation,
    persisted instance_id (persisted instance_id s),
  )
  caught_rest instance_id close queue (ok none) s =
      unhandled_rest instance_id close queue (all_tokens_completed s instance_id) s

  -- What `ErrorEnd` and `EscalationEnd` have in common.
  unfoldable pub end_with_code :
      Calendar
      → (new_id : Uuid) → Uuid
      → (token_id : Uuid) → String
      → (is_escalation : Bool) → (Engine V → Engine V)
      → List (Token V)
      → Engine V
      → Handled V
  unfolding complete_branch_token token_event_context update_instance try_activate_event_code
      queue_scope_activation all_tokens_completed
  end_with_code calendar new_id instance_id token_id thrown is_escalation close queue s =
      let (result, s') = complete_branch_token s instance_id token_id in
      elim result [
        | err e ↦ (err e, queue, s')
        | ok _ ↦
            let (exclude, variables) = token_event_context s' instance_id token_id in
            let (activated, s'') =
              try_activate_event_code calendar now new_id instance_id thrown is_escalation variables
                exclude (update_instance instance_id (drop_token token_id) s') in
            caught_rest instance_id close queue activated s''
      ]

  unfoldable pub terminate : Uuid → Engine V → Engine V
  unfolding close_event_scope drop_waits update_instance kill_all
  terminate instance_id s = persisted instance_id (
      record_event instance_id HistoryEventType.instance_completed (
        update_instance instance_id
          (λ inst. log process_terminated (
            finish now InstanceState.completed
              (record inst { active_tokens = kill_all inst.active_tokens })))
          (drop_waits instance_id (close_event_scope instance_id s))))
