-- ===== src/Engine/Registry.antt =====
-- engine-core/src/engine/registry.rs, and the deployment of definitions in
-- engine-core/src/engine/definition_ops.rs.
pub mod Versions
pub mod Unique
pub mod Latest
pub mod Collection
use bpmninja.Prelude.{
  ℕ, ◌+◌, String, Bool, true, false, Option, none, some, List, [], ◌∷◌, ◌++◌, Map, get, insert,
  ◌==◌, string_eq, nat_eq, if◌then◌else◌, leb, max, any, length, select, remove,
}
use bpmninja.Prelude.Int.{ℤ, pos, leb_ℤ, max_ℤ, i32_succ}
use bpmninja.Domain.Error.{Uuid, EngineResult, ok, err, ◌>>=◌, invalid_definition, Reason}
use bpmninja.Domain.Graph.{ProcessDefinition, DefinitionTree, SubProcesses, tree, no_subs, sub}
use bpmninja.Runtime.State.{Engine, Effect, emit}

abbrev pub Registry : Type 0 → Type 0
Registry V = Map Uuid (ProcessDefinition V)

-- `max` of the versions.
abbrev pub later : ℤ → Option ℤ → Option ℤ
later version none = some version
later version (some other) = some (max_ℤ version other)

module _ {V : Type 0} where
  unfoldable pub insert_collection : List (ProcessDefinition V) → Registry V → Registry V
  unfolding insert
  insert_collection [] definitions = definitions
  insert_collection (d ∷ ds) definitions = insert_collection ds (insert d.key d definitions)

  abbrev pub names_process : String → Uuid × ProcessDefinition V → Bool
  names_process bpmn_id (key, definition) = definition.id == bpmn_id

  unfoldable pub highest_version : String → Registry V → Option ℤ
  highest_version bpmn_id [] = none
  highest_version bpmn_id ((key, definition) ∷ definitions) =
      let rest = highest_version bpmn_id definitions in
      if definition.id == bpmn_id then later definition.version rest else rest

  -- `max_by_key`, which prefers the later one of two with one version.
  abbrev pub newer :
      Uuid × ProcessDefinition V
      → Option (Uuid × ProcessDefinition V)
      → Option (Uuid × ProcessDefinition V)
  newer entry none = some entry
  newer entry (some other) =
      if leb_ℤ entry.1.version other.1.version then some other else some entry

  unfoldable pub find_latest_by_bpmn_id : String → Registry V → Option (Uuid × ProcessDefinition V)
  find_latest_by_bpmn_id bpmn_id [] = none
  find_latest_by_bpmn_id bpmn_id ((key, definition) ∷ definitions) =
      let rest = find_latest_by_bpmn_id bpmn_id definitions in
      if definition.id == bpmn_id then newer (key, definition) rest else rest

  unfoldable pub normalize_definition : ProcessDefinition V → Option ℤ → ProcessDefinition V
  unfolding i32_succ
  normalize_definition definition none = definition
  normalize_definition definition (some highest) = record definition { version = i32_succ highest }

  -- `sub.version = version`
  abbrev pub numbered : Option ℤ → ProcessDefinition V → ProcessDefinition V
  numbered none definition = definition
  numbered (some version) definition = record definition { version = version }

  unfoldable mutual
    unfolding highest_version normalize_definition insert

    -- `parent` is the version that an embedded process takes over before it is deployed.
    pub deploy_definition_inner :
        (parent : Option ℤ) → DefinitionTree V → Engine V → (Uuid × ℤ) × Engine V
    deploy_definition_inner parent (tree definition subs) s =
        let def =
          normalize_definition (numbered parent definition)
            (highest_version definition.id s.definitions) in
        let stored = record s { definitions = insert def.key def s.definitions } in
        let deployed = deploy_subs def.version subs stored in
        (
          (def.key, def.version),
          emit Effect.definition_changed (emit (Effect.persist_definition def.key) deployed),
        )

    pub deploy_subs : ℤ → SubProcesses V → Engine V → Engine V
    deploy_subs version no_subs s = s
    deploy_subs version (sub t rest) s =
        deploy_subs version rest (deploy_definition_inner (some version) t s).1

  unfoldable pub deploy_definition : DefinitionTree V → Engine V → (Uuid × ℤ) × Engine V
  unfolding deploy_definition_inner
  deploy_definition definition s = deploy_definition_inner none definition s

  -- `flatten` of `deploy_collection`. `new_v4` gives the key of the definition at each place of `out`.
  unfoldable mutual
    unfolding highest_version normalize_definition

    pub flatten :
        (new_v4 : ℕ → Uuid) (definitions : Registry V) (parent : Option ℤ)
        → DefinitionTree V
        → List (ProcessDefinition V)
        → EngineResult (List (ProcessDefinition V))
    flatten new_v4 definitions parent (tree definition subs) out =
        let versioned =
          normalize_definition (numbered parent definition)
            (highest_version definition.id definitions) in
        let member = record versioned { key = new_v4 (length out) } in
        let rest = flatten_subs new_v4 definitions versioned.version subs (out ++ member ∷ []) in
        if any (λ previous. previous.id == definition.id) out
        then err (invalid_definition (Reason.duplicate_process definition.id))
        else rest

    pub flatten_subs :
        (new_v4 : ℕ → Uuid) (definitions : Registry V) (version : ℤ)
        → SubProcesses V
        → List (ProcessDefinition V)
        → EngineResult (List (ProcessDefinition V))
    flatten_subs new_v4 definitions version no_subs out = ok out
    flatten_subs new_v4 definitions version (sub t rest) out =
        flatten new_v4 definitions (some version) t out
        >>= flatten_subs new_v4 definitions version rest

  -- The loop over the processes.
  unfoldable pub flatten_all :
      (new_v4 : ℕ → Uuid) (definitions : Registry V)
      → List (DefinitionTree V)
      → List (ProcessDefinition V)
      → EngineResult (List (ProcessDefinition V))
  unfolding flatten
  flatten_all new_v4 definitions [] out = ok out
  flatten_all new_v4 definitions (t ∷ ts) out =
      flatten new_v4 definitions none t out >>= flatten_all new_v4 definitions ts
