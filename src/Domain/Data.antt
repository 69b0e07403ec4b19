-- ===== src/Domain/Data.antt =====
-- engine-core/src/domain/data.rs: data mappings. `V` is the type of JSON values, of which only the
-- constructors for arrays and objects are used; they and `str::trim` are parameters.
pub mod Snapshot
use bpmninja.Prelude.{
  String, Bool, Option, none, some, List, [], ◌∷◌, ◌++◌, ◌||◌, Map, get, insert, contains_key,
  if◌then◌else◌, string_eq,
}
use bpmninja.Domain.Error.{
  EngineResult, ok, err, ◌>>=◌, data_mapping_error, variable_missing, bad_target,
}

-- What the mappings use of `serde_json` and of `str`: `array`, `object`, and whether
-- `s.trim().is_empty()`.
pub record Json (V : Type 0) : Type 0 where
  pub array : List V → V
  pub object : Map String V → V
  pub is_blank : String → Bool

mutual
  pub data MappingValue (V : Type 0) : Type 0 where
    literal : V → MappingValue V
    variable : String → MappingValue V
    list : MappingList V → MappingValue V
    object : MappingFields V → MappingValue V

  pub data MappingList (V : Type 0) : Type 0 where
    nil : MappingList V
    cons : MappingValue V → MappingList V → MappingList V

  pub data MappingFields (V : Type 0) : Type 0 where
    end : MappingFields V
    field : String → MappingValue V → MappingFields V → MappingFields V

pub record DataMapping (V : Type 0) : Type 0 where
  pub target : String
  pub value : MappingValue V

pub record ActivityMappings (V : Type 0) : Type 0 where
  pub inputs : List (DataMapping V)
  pub outputs : List (DataMapping V)
  pub call_inputs : Option (List (DataMapping V))
  pub call_outputs : Option (List (DataMapping V))

pub record DataScope (V : Type 0) : Type 0 where
  pub node_id : String
  pub original_variables : Map String V
  pub local_names : List String

abbrev pub lookup_variable : {V : Type 0} → Map String V → String → EngineResult V
lookup_variable vars name = elim (get name vars) [
  | none ↦ err (data_mapping_error (variable_missing name))
  | some v ↦ ok v
]

-- `MappingValue::evaluate`, and its loops over the items and over the fields.
unfoldable mutual
  pub evaluate : {V : Type 0} → Json V → Map String V → MappingValue V → EngineResult V
  evaluate j vars (literal v) = ok v
  evaluate j vars (variable name) = lookup_variable vars name
  evaluate j vars (list items) = evaluate_list j vars items [] >>= λ vs. ok (j.array vs)
  evaluate j vars (object fields) = evaluate_fields j vars fields [] >>= λ m. ok (j.object m)

  pub evaluate_list :
      {V : Type 0} → Json V → Map String V → MappingList V → List V → EngineResult (List V)
  evaluate_list j vars nil items = ok items
  evaluate_list j vars (cons m ms) items =
      evaluate j vars m >>= λ v. evaluate_list j vars ms (items ++ v ∷ [])

  pub evaluate_fields :
      {V : Type 0}
      → Json V
      → Map String V
      → MappingFields V
      → Map String V
      → EngineResult (Map String V)
  evaluate_fields j vars end fields = ok fields
  evaluate_fields j vars (field k m ms) fields =
      evaluate j vars m >>= λ v. evaluate_fields j vars ms (insert k v fields)

module _ {V : Type 0} (j : Json V) where
  -- The loop of `evaluate_mappings`, on what `result` holds so far.
  unfoldable pub evaluate_from :
      Map String V → Map String V → List (DataMapping V) → EngineResult (Map String V)
  evaluate_from source result [] = ok result
  evaluate_from source result (m ∷ ms) =
      let rest =
        evaluate j source m.value >>= λ v. evaluate_from source (insert m.target v result) ms in
      if j.is_blank m.target || contains_key m.target result
      then err (data_mapping_error (bad_target m.target))
      else rest

  unfoldable pub evaluate_mappings :
      List (DataMapping V) → Map String V → EngineResult (Map String V)
  unfolding evaluate_from
  evaluate_mappings mappings source = evaluate_from source [] mappings
