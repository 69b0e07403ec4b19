-- ===== src/Engine/Mappings.antt =====
-- engine-core/src/engine/data_mappings.rs: how activities read and write process variables. A
-- function that takes `&mut Token` returns its result and the token as it leaves it.
pub mod Scope
use bpmninja.Prelude.{
  String, Bool, true, false, not, ◌&&◌, Option, none, some, List, [], ◌∷◌, Map, get, insert, extend,
  keys, ◌==◌, string_eq, if◌then◌else◌, any,
}
use bpmninja.Domain.Error.{EngineResult, ok, err, ◌>>=◌, data_mapping_error, activation_unmapped}
use bpmninja.Domain.Element.{BpmnElement}
use bpmninja.Domain.Data.{Json, DataMapping, DataScope, evaluate_mappings}
use bpmninja.Domain.Token.{Token, process_variables, discard_data_scope}
use bpmninja.Domain.Graph.{ProcessDefinition, get_node}

abbrev pub is_multi_service : Option BpmnElement → Bool
is_multi_service (some (BpmnElement.service_task _ (some _))) = true
is_multi_service _ = false

unfoldable pub is_multi_instance_service : {V : Type 0} → ProcessDefinition V → String → Bool
is_multi_instance_service def node = is_multi_service (get_node def node)

module _ {V : Type 0} where
  abbrev is_foreign : String → Option (DataScope V) → Bool
  is_foreign node none = false
  is_foreign node (some scope) = not (scope.node_id == node)

  -- A scope of another activity is dropped first.
  unfoldable pub drop_foreign : String → Token V → Token V
  drop_foreign node token =
      if is_foreign node token.data_scope then discard_data_scope token else token

  abbrev no_outputs : List (DataMapping V) → Bool
  no_outputs [] = true
  no_outputs (_ ∷ _) = false

  abbrev is_input_target : List (DataMapping V) → String → Bool
  is_input_target inputs name = any (λ m. m.target == name) inputs

  unfoldable pub apply_call_transfer : Map String V → Token V → Token V
  apply_call_transfer transferred token = elim token.data_scope [
    | none ↦ record token { variables = extend token.variables transferred }
    | some scope ↦ record token {
      variables = extend token.variables transferred;
      data_scope =
          some (record scope { original_variables = extend scope.original_variables transferred });
    }
  ]

  -- The loop over the worker's variables that leaves the activity's input names out.
  unfoldable pub insert_unmapped : List (DataMapping V) → Map String V → Map String V → Map String V
  insert_unmapped inputs variables [] = variables
  insert_unmapped inputs variables ((key, value) ∷ worker) =
      insert_unmapped inputs
        (if is_input_target inputs key then variables else insert key value variables) worker

module _ {V : Type 0} (j : Json V) (def : ProcessDefinition V) (node : String) where
  abbrev pub activated : Token V → Map String V → Token V
  activated token inputs = record token {
    data_scope = some (record {
      node_id = node;
      original_variables = token.variables;
      local_names = keys inputs;
    });
    variables = extend token.variables inputs;
  }

  unfoldable pub activate : Token V → EngineResult (Unit {0}) × Token V
  activate token = elim (get node def.data_mappings) [
    | none ↦ (ok tt, token)
    | some mappings ↦ elim (evaluate_mappings j mappings.inputs token.variables) [
      | err e ↦ (err e, token)
      | ok inputs ↦ (ok tt, activated token inputs)
    ]
  ]

  unfoldable pub enter : Token V → EngineResult (Unit {0}) × Token V
  enter token =
      let t = drop_foreign node token in
      elim t.data_scope [
        | some _ ↦ (ok tt, t)
        | none ↦ if is_multi_instance_service def node then (ok tt, t) else activate t
      ]

  abbrev pub deactivated : Token V → Map String V → Token V
  deactivated token variables = record token { variables = variables; data_scope = none }

  unfoldable pub leave : Token V → EngineResult (Unit {0}) × Token V
  leave token = elim token.data_scope [
    | none ↦ (ok tt, token)
    | some scope ↦
        if not (scope.node_id == node) then (ok tt, token) else elim (get node def.data_mappings) [
          | none ↦ (err (data_mapping_error (activation_unmapped node)), token)
          | some mappings ↦ elim (evaluate_mappings j mappings.outputs token.variables) [
            | err e ↦ (err e, token)
            | ok outputs ↦ (
              ok tt,
              deactivated token (
                  extend
                    (if no_outputs mappings.outputs
                      then process_variables token
                      else scope.original_variables)
                    outputs),
            )
          ]
        ]
  ]

  unfoldable pub apply_inputs : Map String V → EngineResult (Map String V)
  apply_inputs variables = elim (get node def.data_mappings) [
    | none ↦ ok variables
    | some mappings ↦
        evaluate_mappings j mappings.inputs variables >>= λ inputs. ok (extend variables inputs)
  ]

  unfoldable pub publish_multi_instance_outputs :
      Map String V → Map String V → Token V → EngineResult (Unit {0}) × Token V
  publish_multi_instance_outputs snapshot worker token = elim (get node def.data_mappings) [
    | none ↦ (ok tt, record token { variables = extend token.variables worker })
    | some mappings ↦
        if no_outputs mappings.outputs
        then (
          ok tt,
          record token { variables = insert_unmapped mappings.inputs token.variables worker },
        )
        else elim (evaluate_mappings j mappings.outputs (extend snapshot worker)) [
          | err e ↦ (err e, token)
          | ok outputs ↦ (ok tt, record token { variables = extend token.variables outputs })
        ]
  ]
