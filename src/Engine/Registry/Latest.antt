-- ===== src/Engine/Registry/Latest.antt =====
-- Which definition of a process is the latest, by engine-core/src/engine/registry.rs.
use bpmninja.Prelude.{
  ◌≡◌, refl, sym, ap, ◌∙◌, ◌⊎◌, inl, inr, String, true, Option, none, some, Option-cases, [], ◌∷◌,
  insert, Bool-cases, ◌==◌, string_eq, nat_eq, eq_iff, All, subst, arith,
}
use bpmninja.Prelude.Int.{ℤ, ◌<ℤ◌, leb_ℤ, max_ℤ, i32_succ}
use bpmninja.Domain.Error.{Uuid}
use bpmninja.Domain.Graph.{ProcessDefinition, tree, no_subs}
use bpmninja.Runtime.State.{Engine}
use bpmninja.Engine.Registry.{
  Registry, highest_version, find_latest_by_bpmn_id, normalize_definition, deploy_definition_inner,
  deploy_definition,
}
use bpmninja.Engine.Registry.Versions.{HasRoom, i32_succ_parts, next_version, next_version-key}

-- Every entry for the process has a lower version.
abbrev pub Below : {V : Type 0} → String → ℤ → Registry V → Type 0
Below bpmn_id n m = All (λ e. (e.1.id == bpmn_id) ≡ true → e.1.version <ℤ n) m

module _ {V : Type 0} where
  highest_version-Below :
      (bpmn_id : String) (n : ℤ) (m : Registry V)
      → ((h : ℤ) → highest_version bpmn_id m ≡ some h → h <ℤ n)
      → Below bpmn_id n m
  unfolding highest_version
  highest_version-Below bpmn_id n [] bound = tt
  highest_version-Below bpmn_id n ((j, d) ∷ m) bound = (
    λ same. elim (Option-cases (highest_version bpmn_id m)) [
      | inl alone ↦ bound d.version (ground arith)
      | inr (h, rest) ↦
          let lt : max_ℤ d.version h <ℤ n = bound (max_ℤ d.version h) (ground arith) in ground arith
    ],
    highest_version-Below bpmn_id n m λ h rest. elim (Bool-cases (d.id == bpmn_id)) [
      | inl counted ↦
          let lt : max_ℤ d.version h <ℤ n = bound (max_ℤ d.version h) (ground arith) in ground arith
      | inr passed ↦ bound h (ground arith)
    ],
  )

  find_latest-lower :
      (bpmn_id : String) (n : ℤ) (m : Registry V)
      → Below bpmn_id n m
      → (find_latest_by_bpmn_id bpmn_id m ≡ none)
        ⊎ ((e : Uuid × ProcessDefinition V) × (find_latest_by_bpmn_id bpmn_id m ≡ some e)
            × (e.1.version <ℤ n))
  unfolding find_latest_by_bpmn_id
  find_latest-lower bpmn_id n [] below = inl refl
  find_latest-lower bpmn_id n ((j, d) ∷ m) below = elim (Bool-cases (d.id == bpmn_id)) [
    | inr passed ↦ rw (passed, find_latest_by_bpmn_id) (find_latest-lower bpmn_id n m below.1)
    | inl counted ↦ elim (find_latest-lower bpmn_id n m below.1) [
      | inl alone ↦
          rw (counted, find_latest_by_bpmn_id) (rw alone (inr ((j, d), refl, below.0 counted)))
      | inr (e, rest, less) ↦
          rw (counted, find_latest_by_bpmn_id)
            (rw rest (elim (Bool-cases (leb_ℤ d.version e.1.version)) [
              | inl older ↦ rw older (inr (e, refl, less))
              | inr later ↦ rw later (inr ((j, d), refl, below.0 counted))
            ]))
    ]
  ]

  find_latest-insert :
      (def : ProcessDefinition V) (m : Registry V)
      → Below def.id def.version m
      → find_latest_by_bpmn_id def.id (insert def.key def m) ≡ some (def.key, def)
  unfolding find_latest_by_bpmn_id insert
  find_latest-insert def [] below = ground (arith, eq_iff def.id def.id)
  find_latest-insert def ((j, d) ∷ m) below = ground (
    arith,
    find_latest-lower def.id def.version m below.1,
    find_latest-insert def m below.1,
    below.0,
    eq_iff def.id def.id,
    eq_iff d.id def.id,
  )

  latest_normalized :
      (definition : ProcessDefinition V) (m : Registry V) (highest : Option ℤ)
      → highest_version definition.id m ≡ highest
      → HasRoom m definition.id
      → let def = normalize_definition definition highest in
        find_latest_by_bpmn_id definition.id (insert def.key def m)
        ≡ some (definition.key, record definition { version = def.version })
  unfolding normalize_definition
  latest_normalized definition m none e room =
      find_latest-insert definition m
        (highest_version-Below definition.id definition.version m (λ h found. ground arith))
  latest_normalized definition m (some highest) e room =
      find_latest-insert (record definition { version = i32_succ highest }) m
        (highest_version-Below definition.id (i32_succ highest) m (λ h found.
          let same : highest ≡ h = cc in
          subst (λ x. x <ℤ i32_succ highest) same
            (omega (arith, i32_succ_parts highest (room highest e)))))

  -- Where the highest registered version of its process is below the greatest `i32`, after the
  -- deployment of a definition without embedded processes, the latest definition of its
  -- process is that definition, under its key and with the version of the answer.
  deploy_definition_latest :
      (definition : ProcessDefinition V) (s : Engine V)
      → HasRoom s.definitions definition.id
      → let (answer, after) = deploy_definition (tree definition no_subs) s in
        find_latest_by_bpmn_id definition.id after.definitions
        ≡ some (answer.0, record definition { version = answer.1 })
  unfolding deploy_definition deploy_definition_inner
  deploy_definition_latest definition s room =
      latest_normalized definition s.definitions (highest_version definition.id s.definitions) refl
        room
      ∙ ap
          (λ key. some (
            key,
            record definition { version = (next_version s.definitions none definition).version },
          ))
          (sym (next_version-key s.definitions none definition))
