-- ===== src/Engine/Executor.antt =====
-- engine-core/src/engine/executor/completion.rs, and the helpers of
-- engine-core/src/engine/executor/next_action.rs.
pub mod Actions
pub mod Instances
pub mod Ends
pub mod Dispatch
pub mod Loop
use bpmninja.Prelude.{
  ℕ, String, Bool, true, false, not, ◌&&◌, Option, none, some, List, [], ◌∷◌, ◌++◌, Map, map, get,
  insert, remove, nat_eq, string_eq, if◌then◌else◌,
}
use bpmninja.Domain.Error.{Uuid, EngineResult, ok, err}
use bpmninja.Domain.Element.{BpmnElement}
use bpmninja.Domain.Token.{Token, process_variables}
use bpmninja.Domain.Graph.{get_node, is_split_gateway}
use bpmninja.Runtime.Instance.{
  ProcessInstance, InstanceState, ActiveToken, AuditEntry, call_activity_failed,
}
use bpmninja.Runtime.State.{
  Engine, HistoryEventType, ActorType, emit, persist_instance, record_history, find_instance,
  find_definition,
}
use bpmninja.Engine.Incidents.{push_audit_log}
use bpmninja.Engine.Join.{complete_active}
use bpmninja.Engine.EventScope.{ScopeActivation, interrupting, parallel}

abbrev pub is_empty : {A : Type 0} → List A → Bool
is_empty [] = true
is_empty (x ∷ xs) = false

abbrev pub is_inclusive : Option BpmnElement → Bool
is_inclusive (some BpmnElement.inclusive_gateway) = true
is_inclusive _ = false

module _ {V : Type 0} where
  -- `if let Some(inst_arc) = self.instances.get(&id)`, and the change under its write lock.
  unfoldable pub update_instance :
      Uuid → (ProcessInstance V → ProcessInstance V) → Engine V → Engine V
  update_instance id change s = elim (get id s.instances) [
    | none ↦ s
    | some inst ↦ record s { instances = insert id (change inst) s.instances }
  ]

  abbrev pub record_event : Uuid → HistoryEventType → Engine V → Engine V
  record_event id event s = emit (record_history id event ActorType.engine none) s

  abbrev pub drop_token : Uuid → ProcessInstance V → ProcessInstance V
  drop_token token_id inst = record inst { tokens = remove token_id inst.tokens }

  abbrev pub finish : (now : ℕ) → InstanceState V → ProcessInstance V → ProcessInstance V
  finish now state inst = record inst { state = state; completed_at = some now }

  abbrev pub log : AuditEntry → ProcessInstance V → ProcessInstance V
  log entry inst = record inst { audit_log = inst.audit_log ++ entry ∷ [] }

  unfoldable pub complete_branch_token :
      Engine V → Uuid → (token_id : Uuid) → EngineResult (Unit {0}) × Engine V
  unfolding complete_active
  complete_branch_token s instance_id token_id = elim (find_instance s instance_id) [
    | err e ↦ (err e, s)
    | ok inst ↦ (
      ok tt,
      record s {
        instances =
            insert instance_id
              (record inst { active_tokens = complete_active token_id inst.active_tokens })
              s.instances;
      },
    )
  ]

  -- `iter().all(|t| t.completed)`, which is also true of no token.
  unfoldable pub all_completed : List (ActiveToken V) → Bool
  all_completed [] = true
  all_completed (at ∷ ats) = at.completed && all_completed ats

  -- On the instance: tokens, then the linear flow, then the active tokens.
  unfoldable pub is_finished : ProcessInstance V → Bool
  unfolding all_completed
  is_finished inst =
      if not (is_empty inst.tokens)
      then false
      else if is_empty inst.active_tokens
      then true
      else all_completed inst.active_tokens

  unfoldable pub all_tokens_completed : Engine V → Uuid → EngineResult Bool
  unfolding is_finished
  all_tokens_completed s instance_id = elim (find_instance s instance_id) [
    | err e ↦ err e
    | ok inst ↦ ok (is_finished inst)
  ]

  -- `active_tokens.iter_mut()` of a termination.
  unfoldable pub kill_all : List (ActiveToken V) → List (ActiveToken V)
  kill_all [] = []
  kill_all (at ∷ ats) = record at { completed = true } ∷ kill_all ats

  unfoldable pub node_is_inclusive_split : Engine V → Uuid → String → EngineResult Bool
  unfolding get_node is_split_gateway
  node_is_inclusive_split s instance_id node_id = elim (find_instance s instance_id) [
    | err e ↦ err e
    | ok inst ↦ elim (find_definition s inst.definition_key) [
      | err e ↦ err e
      | ok def ↦ ok (is_inclusive (get_node def node_id) && is_split_gateway def node_id)
    ]
  ]

  -- The handler that the token runs in, and the variables that it publishes.
  unfoldable pub token_event_context : Engine V → Uuid → Uuid → Option String × Map String V
  unfolding process_variables
  token_event_context s instance_id token_id = elim (get instance_id s.instances) [
    | none ↦ (none, [])
    | some inst ↦ (
      get token_id inst.event_handler_tokens,
      elim (get token_id inst.tokens) [
        | some token ↦ process_variables token
        | none ↦ inst.variables
      ],
    )
  ]

  -- `VecDeque` as a list, its front first.
  unfoldable pub queue_scope_activation : List (Token V) → ScopeActivation V → List (Token V)
  queue_scope_activation queue (interrupting token) = token ∷ []
  queue_scope_activation queue (parallel token) = queue ++ token ∷ []

  -- The queue is cleared by the caller.
  unfoldable pub fail_call_activity : (now : ℕ) → Engine V → Uuid → String → Engine V
  unfolding update_instance push_audit_log
  fail_call_activity now s instance_id error_code = emit (persist_instance instance_id) (
      record_event instance_id HistoryEventType.error (
        update_instance instance_id
          (λ inst.
            push_audit_log (call_activity_failed error_code)
              (finish now (InstanceState.completed_with_error error_code) inst))
          s))
