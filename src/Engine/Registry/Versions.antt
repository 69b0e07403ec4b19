-- ===== src/Engine/Registry/Versions.antt =====
-- The versions that engine-core/src/engine/definition_ops.rs gives to what it deploys.
use bpmninja.Prelude.{
  suc, ◌+◌, ◌≡◌, ◌≢◌, refl, sym, ◌∙◌, inl, inr, String, Option, none, some, Option-cases, [], ◌∷◌,
  get, insert, get-insert, get-insert_other, get-insert_self, subst, Bool-cases, nat_beq_iff, ◌==◌,
  string_eq, nat_eq, eq_iff, arith,
}
use bpmninja.Prelude.Int.{ℤ, pos, negsuc, pos_part, neg_part, ◌<ℤ◌, ◌≤ℤ◌, max_ℤ, i32_max, i32_succ}
use bpmninja.Domain.Error.{Uuid}
use bpmninja.Domain.Graph.{ProcessDefinition, DefinitionTree, SubProcesses, tree, no_subs, sub}
use bpmninja.Runtime.State.{Engine}
use bpmninja.Engine.Registry.{
  Registry, highest_version, normalize_definition, numbered, deploy_definition_inner, deploy_subs,
  deploy_definition,
}

-- Two registered definitions of one process have different versions.
abbrev pub HasVersions : {V : Type 0} → Registry V → Type 0
HasVersions {V} m =
    (j k : Uuid) (d e : ProcessDefinition V)
    → get j m ≡ some d
    → get k m ≡ some e
    → d.id ≡ e.id
    → d.version ≡ e.version
    → j ≡ k

-- Every registered definition of the process has a lower version.
abbrev pub Exceeds : {V : Type 0} → Registry V → String → ℤ → Type 0
Exceeds {V} m bpmn_id version =
    (k : Uuid) (d : ProcessDefinition V) → get k m ≡ some d → d.id ≡ bpmn_id → d.version <ℤ version

-- The version after the highest registered one of the process is one of an `i32`.
abbrev pub HasRoom : {V : Type 0} → Registry V → String → Type 0
HasRoom m bpmn_id = (h : ℤ) → highest_version bpmn_id m ≡ some h → h <ℤ pos i32_max

pub i32_succ_parts :
    (a : ℤ)
    → a <ℤ pos i32_max
    → pos_part (i32_succ a) + neg_part a ≡ suc (pos_part a + neg_part (i32_succ a))
unfolding i32_succ
i32_succ_parts (pos n) h = ground arith
i32_succ_parts (negsuc n) h = ground arith

module _ {V : Type 0} where
  pub highest_version_bound :
      (bpmn_id : String) (m : Registry V) (k : Uuid) (d : ProcessDefinition V)
      → get k m ≡ some d
      → d.id ≡ bpmn_id
      → (h : ℤ) × (highest_version bpmn_id m ≡ some h) × (d.version ≤ℤ h)
  unfolding highest_version get
  highest_version_bound bpmn_id [] k d found same = cc
  highest_version_bound bpmn_id ((j, e) ∷ m) k d found same = elim (Bool-cases (j == k)) [
    | inl here ↦ elim (Option-cases (highest_version bpmn_id m)) [
      | inl alone ↦ (e.version, ground (arith, eq_iff e.id bpmn_id), ground arith)
      | inr (h, rest) ↦ (max_ℤ e.version h, ground (arith, eq_iff e.id bpmn_id), ground arith)
    ]
    | inr there ↦
        let (h, rest, le) = highest_version_bound bpmn_id m k d (ground arith) same in
        elim (Bool-cases (e.id == bpmn_id)) [
          | inl counted ↦ (max_ℤ e.version h, ground arith, ground arith)
          | inr passed ↦ (h, ground arith, le)
        ]
  ]

  normalize_definition-id :
      (def : ProcessDefinition V) (highest : Option ℤ)
      → (normalize_definition def highest).id ≡ def.id
  unfolding normalize_definition
  normalize_definition-id def none = refl
  normalize_definition-id def (some h) = refl

  normalize_definition-key :
      (def : ProcessDefinition V) (highest : Option ℤ)
      → (normalize_definition def highest).key ≡ def.key
  unfolding normalize_definition
  normalize_definition-key def none = refl
  normalize_definition-key def (some h) = refl

  normalize_definition-Exceeds :
      (m : Registry V) (def : ProcessDefinition V) (bpmn_id : String)
      → HasRoom m bpmn_id
      → Exceeds m bpmn_id (normalize_definition def (highest_version bpmn_id m)).version
  unfolding normalize_definition
  normalize_definition-Exceeds m def bpmn_id room k d found same =
      let (h, highest, le) = highest_version_bound bpmn_id m k d found same in
      rw (highest, normalize_definition) (omega (arith, le, i32_succ_parts h (room h highest)))

  pub insert-HasVersions :
      (m : Registry V) (def : ProcessDefinition V)
      → HasVersions m
      → Exceeds m def.id def.version
      → HasVersions (insert def.key def m)
  insert-HasVersions m def old above j k d e hj hk same level = ground (
    arith,
    get-insert def.key j def m,
    get-insert def.key k def m,
    old j k d e,
    above j d,
    above k e,
    nat_beq_iff def.key j,
    nat_beq_iff def.key k,
  )

  -- The definition that a deployment stores.
  abbrev pub next_version : Registry V → Option ℤ → ProcessDefinition V → ProcessDefinition V
  next_version m parent definition =
      normalize_definition (numbered parent definition) (highest_version definition.id m)

  next_version-id :
      (m : Registry V) (parent : Option ℤ) (definition : ProcessDefinition V)
      → (next_version m parent definition).id ≡ definition.id
  next_version-id m none definition =
      normalize_definition-id definition (highest_version definition.id m)
  next_version-id m (some version) definition =
      normalize_definition-id (numbered (some version) definition) (highest_version definition.id m)

  pub next_version-key :
      (m : Registry V) (parent : Option ℤ) (definition : ProcessDefinition V)
      → (next_version m parent definition).key ≡ definition.key
  next_version-key m none definition =
      normalize_definition-key definition (highest_version definition.id m)
  next_version-key m (some version) definition =
      normalize_definition-key (numbered (some version) definition)
        (highest_version definition.id m)

  pub next_version-Exceeds :
      (m : Registry V) (parent : Option ℤ) (definition : ProcessDefinition V)
      → HasRoom m definition.id
      → Exceeds m (next_version m parent definition).id (next_version m parent definition).version
  next_version-Exceeds m parent definition room =
      subst (λ i. Exceeds m i (next_version m parent definition).version)
        (sym (next_version-id m parent definition))
        (normalize_definition-Exceeds m (numbered parent definition) definition.id room)

-- No definition of the tree has the key.
abbrev mutual
  pub Lacks : {V : Type 0} → Uuid → DefinitionTree V → Type 0
  Lacks key (tree definition subs) = (definition.key ≢ key) × SubsLack key subs

  pub SubsLack : {V : Type 0} → Uuid → SubProcesses V → Type 0
  SubsLack key no_subs = Unit
  SubsLack key (sub t rest) = Lacks key t × SubsLack key rest

module _ {V : Type 0} (key : Uuid) where
  mutual
    unfolding deploy_definition_inner

    get-deploy_definition_inner :
        (parent : Option ℤ) (t : DefinitionTree V) (s : Engine V)
        → Lacks key t
        → get key (deploy_definition_inner parent t s).1.definitions ≡ get key s.definitions
    get-deploy_definition_inner parent (tree definition subs) s lacks =
        let def = next_version s.definitions parent definition in
        get-deploy_subs def.version subs
          (record s { definitions = insert def.key def s.definitions }) lacks.1
        ∙ get-insert_other def.key key def s.definitions
            (λ same. lacks.0 (sym (next_version-key s.definitions parent definition) ∙ same))

    get-deploy_subs :
        (version : ℤ) (subs : SubProcesses V) (s : Engine V)
        → SubsLack key subs
        → get key (deploy_subs version subs s).definitions ≡ get key s.definitions
    get-deploy_subs version no_subs s lacks = refl
    get-deploy_subs version (sub t rest) s lacks =
        get-deploy_subs version rest (deploy_definition_inner (some version) t s).1 lacks.1
        ∙ get-deploy_definition_inner (some version) t s lacks.0

get-insert_normalized :
    {V : Type 0} (definition : ProcessDefinition V) (highest : Option ℤ) (m : Registry V)
    → let def = normalize_definition definition highest in
      get definition.key (insert def.key def m) ≡ some (record definition { version = def.version })
unfolding normalize_definition
get-insert_normalized definition none m = get-insert_self definition.key definition m
get-insert_normalized definition (some highest) m =
    get-insert_self definition.key (record definition { version = i32_succ highest }) m

module _ {V : Type 0} (definition : ProcessDefinition V) (subs : SubProcesses V)
    (s : Engine V) where
  -- If no embedded process has the key of the definition, and the highest registered version of the
  -- process is below the greatest `i32`, a deployment answers with this key and a version above those
  -- of all registered definitions of the process, it registers the definition with nothing but its
  -- version changed, and every registered definition whose key is not deployed stays as it is.
  pub deploy_definition_numbers :
      SubsLack definition.key subs
      → HasRoom s.definitions definition.id
      → let (answer, after) = deploy_definition (tree definition subs) s in
        (answer.0 ≡ definition.key)
        × Exceeds s.definitions definition.id answer.1
        × (get definition.key after.definitions ≡ some (record definition { version = answer.1 }))
        × ((k : Uuid)
            → Lacks k (tree definition subs)
            → get k after.definitions ≡ get k s.definitions)
  unfolding deploy_definition deploy_definition_inner
  deploy_definition_numbers lacks room =
      let def = next_version s.definitions none definition in
      let stored = record s { definitions = insert def.key def s.definitions } in
      let key = next_version-key s.definitions none definition in
      (
        key,
        normalize_definition-Exceeds s.definitions definition definition.id room,
        get-deploy_subs definition.key def.version subs stored lacks
            ∙ get-insert_normalized definition (highest_version definition.id s.definitions)
                s.definitions,
        λ k lacks_k. get-deploy_definition_inner k none (tree definition subs) s lacks_k,
      )
