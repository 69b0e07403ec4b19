-- ===== src/Engine/Join.antt =====
-- engine-core/src/engine/executor/parallel.rs: join barriers and the tokens of a fork.
-- `holds` is `evaluate_condition`; `merged_id` is the `Uuid::new_v4()` of the merged token.
pub mod Barrier
pub mod Register
use bpmninja.Prelude.{
  ℕ, suc, String, Bool, true, false, ◌||◌, Option, none, some, List, [], ◌∷◌, ◌++◌, Map, get,
  insert, remove, extend, string_eq, nat_eq, if◌then◌else◌, leb, nat_beq, length,
}
use bpmninja.Domain.Error.{Uuid, EngineResult, ok, err, invalid_definition, join_barrier_missing}
use bpmninja.Domain.Element.{BpmnElement}
use bpmninja.Domain.Token.{Token, with_variables}
use bpmninja.Domain.Graph.{ProcessDefinition, get_node, incoming_flow_count}
use bpmninja.Runtime.Instance.{
  ProcessInstance, JoinBarrier, ActiveToken, AuditEntry, token_arrived, join_condition_met,
  join_completed,
}
use bpmninja.Runtime.State.{
  Engine, ActorType, record_history, token_joined, emit, find_instance, find_definition,
}
use bpmninja.Engine.Topology.{find_downstream_join}

abbrev pub found_join : Option (Option String) → Option String
found_join none = none
found_join (some join) = join

abbrev pub join_condition_of : Option BpmnElement → Option String
join_condition_of (some (BpmnElement.complex_gateway join_condition _)) = join_condition
join_condition_of _ = none

module _ {V : Type 0} where
  -- `entry(join_id)`: a barrier that exists keeps its tokens.
  abbrev pub registered : String → ℕ → Option (JoinBarrier V) → JoinBarrier V
  registered join_id branch_count (some occupied) = record occupied {
    expected_count = branch_count;
  }
  registered join_id branch_count none = record {
    gateway_node_id = join_id;
    expected_count = branch_count;
    arrived_tokens = [];
  }

  unfoldable pub register_barrier :
      String → ℕ → Map String (JoinBarrier V) → Map String (JoinBarrier V)
  register_barrier join_id branch_count barriers =
      insert join_id (registered join_id branch_count (get join_id barriers)) barriers

  abbrev pub put_instance : Engine V → Uuid → ProcessInstance V → Engine V
  put_instance s id inst = record s { instances = insert id inst s.instances }

  abbrev pub with_join : Engine V → Uuid → ProcessInstance V → ℕ → Option String → Engine V
  with_join s instance_id inst branch_count none = s
  with_join s instance_id inst branch_count (some join_id) =
      put_instance s instance_id
        (record inst { join_barriers = register_barrier join_id branch_count inst.join_barriers })

  unfoldable pub register_join_barrier_if_needed :
      Engine V → Uuid → String → ℕ → EngineResult (Unit {0}) × Engine V
  register_join_barrier_if_needed s instance_id split_gateway_id branch_count =
      elim (find_instance s instance_id) [
        | err e ↦ (err e, s)
        | ok inst ↦ elim (find_definition s inst.definition_key) [
          | err e ↦ (err e, s)
          | ok def ↦ (
            ok tt,
            with_join s instance_id inst branch_count
                (found_join (find_downstream_join def split_gateway_id)),
          )
        ]
      ]

  unfoldable pub register_active_token :
      Engine V → Uuid → String → ℕ → Token V → EngineResult (Unit {0}) × Engine V
  register_active_token s instance_id fork_id branch_index token =
      elim (find_instance s instance_id) [
        | err e ↦ (err e, s)
        | ok inst ↦ (
          ok tt,
          put_instance s instance_id (record inst {
            active_tokens =
                inst.active_tokens
                ++ record {
                  token = token;
                  fork_id = some fork_id;
                  branch_index = branch_index;
                  completed = false;
                }
                  ∷ [];
          }),
        )
      ]

  -- `for t in &tokens { vars.extend(t.variables.clone()) }`
  unfoldable pub merge_variables : Map String V → List (Token V) → Map String V
  merge_variables vars [] = vars
  merge_variables vars (t ∷ ts) = merge_variables (extend vars t.variables) ts

  -- The first active token with the identifier is completed.
  unfoldable pub complete_active : Uuid → List (ActiveToken V) → List (ActiveToken V)
  complete_active id [] = []
  complete_active id (at ∷ ats) =
      if nat_beq at.token.id id
      then record at { completed = true } ∷ ats
      else at ∷ complete_active id ats

  unfoldable pub complete_all : List (Token V) → List (ActiveToken V) → List (ActiveToken V)
  unfolding complete_active
  complete_all [] ats = ats
  complete_all (t ∷ ts) ats = complete_all ts (complete_active t.id ats)

  -- `entry(gateway_id).or_insert_with(…)`, then the push of the token.
  unfoldable pub arrived_barrier :
      ProcessDefinition V → String → Token V → Map String (JoinBarrier V) → JoinBarrier V
  arrived_barrier def gateway_id token barriers = elim (get gateway_id barriers) [
    | some barrier ↦ record barrier { arrived_tokens = barrier.arrived_tokens ++ token ∷ [] }
    | none ↦ record {
      gateway_node_id = gateway_id;
      expected_count = incoming_flow_count def gateway_id;
      arrived_tokens = token ∷ [];
    }
  ]

module _ {V : Type 0} (holds : String → Map String V → Bool) where
  unfoldable pub condition_met : ProcessDefinition V → String → List (Token V) → Bool
  condition_met def gateway_id arrived = elim (join_condition_of (get_node def gateway_id)) [
    | none ↦ false
    | some cond ↦ holds cond (merge_variables [] arrived)
  ]

  module _ (merged_id instance_id : Uuid) (def : ProcessDefinition V) (gateway_id : String) where
    -- The join fires: its barrier goes, its tokens are completed, and one merged token goes on.
    unfoldable pub fire : ProcessInstance V → EngineResult (Option (Token V)) × ProcessInstance V
    fire inst = elim (get gateway_id inst.join_barriers) [
      | none ↦ (err (invalid_definition (join_barrier_missing gateway_id instance_id)), inst)
      | some barrier ↦
          let merged =
            with_variables merged_id gateway_id (merge_variables [] barrier.arrived_tokens) in
          (
            ok (some (record merged { is_merged = true })),
            record inst {
              join_barriers = remove gateway_id inst.join_barriers;
              active_tokens = complete_all barrier.arrived_tokens inst.active_tokens;
              audit_log = inst.audit_log ++ join_completed gateway_id ∷ [];
            },
          )
    ]

    abbrev pub note_condition : Bool → List AuditEntry → List AuditEntry
    note_condition true log = log ++ join_condition_met gateway_id ∷ []
    note_condition false log = log

    -- `arrive_at_join` on the instance, under its write lock.
    unfoldable pub arrive :
        Token V → ProcessInstance V → EngineResult (Option (Token V)) × ProcessInstance V
    arrive token inst =
        let barrier = arrived_barrier def gateway_id token inst.join_barriers in
        let current_arrived = length barrier.arrived_tokens in
        let met = condition_met def gateway_id barrier.arrived_tokens in
        let waiting = record inst {
          join_barriers = insert gateway_id barrier inst.join_barriers;
          audit_log = note_condition met (
              inst.audit_log
              ++ token_arrived gateway_id current_arrived barrier.expected_count ∷ []);
        } in
        if leb barrier.expected_count current_arrived || met
        then fire waiting
        else (ok none, waiting)

  abbrev note_joined : Uuid → EngineResult (Option (Token V)) → Engine V → Engine V
  note_joined instance_id (ok (some _)) s =
      emit (record_history instance_id token_joined ActorType.engine none) s
  note_joined instance_id _ s = s

  unfoldable pub arrive_at_join :
      Uuid → Engine V → Uuid → String → Token V → EngineResult (Option (Token V)) × Engine V
  arrive_at_join merged_id s instance_id gateway_id token = elim (find_instance s instance_id) [
    | err e ↦ (err e, s)
    | ok inst ↦ elim (find_definition s inst.definition_key) [
      | err e ↦ (err e, s)
      | ok def ↦
          let (result, inst') = arrive merged_id instance_id def gateway_id token inst in
          (result, note_joined instance_id result (put_instance s instance_id inst'))
    ]
  ]
