-- ===== src/Domain/Token.antt =====
-- engine-core/src/domain/token.rs. `Uuid::new_v4` is an argument of the constructor.
use bpmninja.Prelude.{
  String, Bool, false, Option, none, some, List, [], ◌∷◌, Map, get, insert, remove, string_eq,
}
use bpmninja.Domain.Error.{Uuid}
use bpmninja.Domain.Data.{DataScope}

pub record Token (V : Type 0) : Type 0 where
  pub id : Uuid
  pub current_node : String
  pub variables : Map String V
  pub is_merged : Bool
  pub data_scope : Option (DataScope V)

module _ {V : Type 0} where
  -- The loop of `process_variables` over the local names of the scope.
  unfoldable pub hide_locals : Map String V → List String → Map String V → Map String V
  hide_locals original [] variables = variables
  hide_locals original (name ∷ names) variables =
      hide_locals original names (elim (get name original) [
        | none ↦ remove name variables
        | some value ↦ insert name value variables
      ])

  unfoldable pub process_variables : Token V → Map String V
  unfolding hide_locals
  process_variables t = elim t.data_scope [
    | none ↦ t.variables
    | some scope ↦ hide_locals scope.original_variables scope.local_names t.variables
  ]

  unfoldable pub discard_data_scope : Token V → Token V
  discard_data_scope t = elim t.data_scope [
    | none ↦ t
    | some scope ↦ record t { variables = scope.original_variables; data_scope = none }
  ]

  unfoldable pub with_variables : Uuid → String → Map String V → Token V
  with_variables id start_node variables = record {
    id = id;
    current_node = start_node;
    variables = variables;
    is_merged = false;
    data_scope = none;
  }

  -- `Token::new`
  unfoldable pub new_token : Uuid → String → Token V
  unfolding with_variables
  new_token id start_node = with_variables id start_node []
