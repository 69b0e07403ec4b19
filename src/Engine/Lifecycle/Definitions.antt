-- ===== src/Engine/Lifecycle/Definitions.antt =====
-- Deleting definitions: `delete_definition` and `delete_all_definitions` of
-- engine-core/src/engine/definition_ops.rs, and `all_versions_of` of engine-core/src/engine/registry.rs.
-- `deleted` and `forgotten` are the answers of the persistence layer to the deletion of an instance
-- and of a definition.
pub mod Sweep
pub mod Cascade
use bpmninja.Prelude.{
  ℕ, String, Bool, true, false, not, Option, none, some, List, [], ◌∷◌, ◌++◌, Map, map, get, remove,
  contains_key, select, nat_eq, string_eq, ◌==◌, if◌then◌else◌, leb, length,
}
use bpmninja.Prelude.Int.{leb_ℤ}
use bpmninja.Domain.Error.{
  Uuid, EngineResult, ok, err, no_such_definition, definition_has_instances,
}
use bpmninja.Domain.Graph.{ProcessDefinition}
use bpmninja.Runtime.Instance.{ProcessInstance}
use bpmninja.Runtime.State.{Engine, Effect, emit, definition_changed, delete_persisted_definition}
use bpmninja.Engine.Waits.{ids_of}
use bpmninja.Engine.Registry.{Registry, names_process}
use bpmninja.Engine.Lifecycle.{delete_instance}

module _ {V : Type 0} where
  -- `sort_by_key(version)`, which is stable.
  unfoldable pub version_in :
      Uuid × ProcessDefinition V
      → List (Uuid × ProcessDefinition V)
      → List (Uuid × ProcessDefinition V)
  version_in e [] = e ∷ []
  version_in e (x ∷ xs) = if leb_ℤ e.1.version x.1.version then e ∷ x ∷ xs else x ∷ version_in e xs

  unfoldable pub by_version : List (Uuid × ProcessDefinition V) → List (Uuid × ProcessDefinition V)
  unfolding version_in
  by_version [] = []
  by_version (x ∷ xs) = version_in x (by_version xs)

  unfoldable pub all_versions_of : String → Registry V → List (Uuid × ProcessDefinition V)
  unfolding by_version
  all_versions_of bpmn_id definitions = by_version (select (names_process bpmn_id) definitions)

  -- `step?` and the rest of a loop.
  abbrev pub then_delete :
      (Engine V → EngineResult (Unit {0}) × Engine V)
      → EngineResult (Unit {0}) × Engine V
      → EngineResult (Unit {0}) × Engine V
  then_delete go (err e, s) = (err e, s)
  then_delete go (ok _, s) = go s

  abbrev pub forgotten_with :
      EngineResult (Unit {0}) → Engine V → EngineResult (Unit {0}) × Engine V
  forgotten_with (err e) s = (err e, s)
  forgotten_with (ok _) s = (ok tt, emit definition_changed s)

module _ {V : Type 0} (deleted : Uuid → EngineResult (Unit {0}))
    (forgotten : Uuid → EngineResult (Unit {0})) where
  unfoldable pub delete_instances : List Uuid → Engine V → EngineResult (Unit {0}) × Engine V
  unfolding delete_instance
  delete_instances [] s = (ok tt, s)
  delete_instances (id ∷ ids) s =
      then_delete (delete_instances ids) (delete_instance (deleted id) id s)

  abbrev pub forget : Uuid → Engine V → EngineResult (Unit {0}) × Engine V
  forget key s =
      forgotten_with (forgotten key) (
        emit (delete_persisted_definition key)
          (record s { definitions = remove key s.definitions }))

  abbrev pub delete_associated :
      Uuid → (cascade : Bool) → List Uuid → Engine V → EngineResult (Unit {0}) × Engine V
  delete_associated key cascade [] s = forget key s
  delete_associated key false (id ∷ ids) s = (err (definition_has_instances (length (id ∷ ids))), s)
  delete_associated key true (id ∷ ids) s = then_delete (forget key) (delete_instances (id ∷ ids) s)

  abbrev pub instances_of : Uuid → Engine V → List Uuid
  instances_of key s =
      ids_of (λ (i : ProcessInstance V). i.definition_key) (λ i. i.id) key s.instances

  unfoldable pub delete_definition :
      Uuid → (cascade : Bool) → Engine V → EngineResult (Unit {0}) × Engine V
  unfolding delete_instances ids_of
  delete_definition key cascade s =
      if contains_key key s.definitions
      then delete_associated key cascade (instances_of key s) s
      else (err (no_such_definition key), s)

  unfoldable pub delete_versions :
      List (Uuid × ProcessDefinition V)
      → (cascade : Bool) → Engine V
      → EngineResult (Unit {0}) × Engine V
  unfolding delete_definition
  delete_versions [] cascade s = (ok tt, s)
  delete_versions ((key, _) ∷ versions) cascade s =
      then_delete (delete_versions versions cascade) (delete_definition key cascade s)

  unfoldable pub delete_all_definitions :
      String → (cascade : Bool) → Engine V → EngineResult (Unit {0}) × Engine V
  unfolding delete_versions all_versions_of
  delete_all_definitions bpmn_id cascade s =
      delete_versions (all_versions_of bpmn_id s.definitions) cascade s
