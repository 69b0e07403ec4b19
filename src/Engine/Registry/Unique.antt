-- ===== src/Engine/Registry/Unique.antt =====
-- That a deployment by engine-core/src/engine/definition_ops.rs keeps the versions apart.
use bpmninja.Prelude.{
  ℕ, suc, ◌+◌, ◌≤◌, ◌<◌, ◌≡◌, refl, inl, inr, String, Option, none, some, Option-cases, [], ◌∷◌,
  insert, Bool-cases, ◌==◌, string_eq, nat_eq, All, All-mono, subst, arith,
}
use bpmninja.Prelude.Int.{ℤ, pos, ◌≤ℤ◌, i32_max}
use bpmninja.Domain.Error.{Uuid}
use bpmninja.Domain.Graph.{ProcessDefinition, DefinitionTree, SubProcesses, tree, no_subs, sub}
use bpmninja.Runtime.State.{Engine}
use bpmninja.Engine.Registry.{
  Registry, highest_version, normalize_definition, numbered, deploy_definition_inner, deploy_subs,
  deploy_definition,
}
use bpmninja.Engine.Registry.Versions.{
  HasVersions, HasRoom, i32_succ_parts, insert-HasVersions, next_version, next_version-Exceeds,
}

-- The number of definitions that a deployment registers.
abbrev mutual
  pub size : {V : Type 0} → DefinitionTree V → ℕ
  size (tree definition subs) = suc (size_subs subs)

  pub size_subs : {V : Type 0} → SubProcesses V → ℕ
  size_subs no_subs = 0
  size_subs (sub t rest) = size t + size_subs rest

-- No definition of the tree comes with a version above the bound.
abbrev mutual
  pub TreeUpTo : {V : Type 0} → ℕ → DefinitionTree V → Type 0
  TreeUpTo b (tree definition subs) = (definition.version ≤ℤ pos b) × SubsUpTo b subs

  pub SubsUpTo : {V : Type 0} → ℕ → SubProcesses V → Type 0
  SubsUpTo b no_subs = Unit
  SubsUpTo b (sub t rest) = TreeUpTo b t × SubsUpTo b rest

-- No registered definition has a version above the bound.
abbrev pub IsUpTo : {V : Type 0} → ℕ → Registry V → Type 0
IsUpTo b m = All (λ e. e.1.version ≤ℤ pos b) m

abbrev ParentUpTo : ℕ → Option ℤ → Type 0
ParentUpTo b none = Unit
ParentUpTo b (some version) = version ≤ℤ pos b

module _ {V : Type 0} where
  highest_version-UpTo :
      (b : ℕ) (bpmn_id : String) (m : Registry V) (h : ℤ)
      → IsUpTo b m
      → highest_version bpmn_id m ≡ some h
      → h ≤ℤ pos b
  unfolding highest_version
  highest_version-UpTo b bpmn_id [] h low found = cc
  highest_version-UpTo b bpmn_id ((j, d) ∷ m) h low found =
      elim (Option-cases (highest_version bpmn_id m)) [
        | inl alone ↦ ground (arith, low.0)
        | inr (g, rest) ↦ ground (arith, low.0, highest_version-UpTo b bpmn_id m g low.1 rest)
      ]

  insert-UpTo :
      (b : ℕ) (key : Uuid) (d : ProcessDefinition V) (m : Registry V)
      → d.version ≤ℤ pos b
      → IsUpTo b m
      → IsUpTo b (insert key d m)
  unfolding insert
  insert-UpTo b key d [] low old = (low, tt)
  insert-UpTo b key d ((j, e) ∷ m) low old = elim (Bool-cases (j == key)) [
    | inl here ↦ rw here (low, old.1)
    | inr there ↦ rw there (old.0, insert-UpTo b key d m low old.1)
  ]

  numbered-UpTo :
      (b : ℕ) (parent : Option ℤ) (definition : ProcessDefinition V)
      → ParentUpTo b parent
      → definition.version ≤ℤ pos b
      → (numbered parent definition).version ≤ℤ pos b
  numbered-UpTo b none definition low own = own
  numbered-UpTo b (some version) definition low own = low

  normalized-UpTo :
      (b : ℕ) (d : ProcessDefinition V) (highest : Option ℤ)
      → b < i32_max
      → d.version ≤ℤ pos b
      → ((h : ℤ) → highest ≡ some h → h ≤ℤ pos b)
      → (normalize_definition d highest).version ≤ℤ pos (suc b)
  unfolding normalize_definition
  normalized-UpTo b d none few own low = omega arith
  normalized-UpTo b d (some h) few own low =
      let le = low h refl in omega (arith, le, i32_succ_parts h (omega (arith, le)))

  next_version-UpTo :
      (b : ℕ) (m : Registry V) (parent : Option ℤ) (definition : ProcessDefinition V)
      → b < i32_max
      → IsUpTo b m
      → ParentUpTo b parent
      → definition.version ≤ℤ pos b
      → (next_version m parent definition).version ≤ℤ pos (suc b)
  next_version-UpTo b m parent definition few low below own =
      normalized-UpTo b (numbered parent definition) (highest_version definition.id m) few
        (numbered-UpTo b parent definition below own)
        (λ h found. highest_version-UpTo b definition.id m h low found)

  -- The versions stay apart, and grow by at most one for each definition.
  abbrev KeepsApart : ℕ → Registry V → Type 0
  KeepsApart b m = HasVersions m × IsUpTo b m

  mutual
    unfolding deploy_definition_inner

    deploy_definition_inner-KeepsApart :
        (own b : ℕ) (parent : Option ℤ) (t : DefinitionTree V) (s : Engine V)
        → own ≤ b
        → b + size t ≤ i32_max
        → ParentUpTo b parent
        → TreeUpTo own t
        → KeepsApart b s.definitions
        → KeepsApart (b + size t) (deploy_definition_inner parent t s).1.definitions
    deploy_definition_inner-KeepsApart own b parent (tree definition subs) s more few below low
          (apart, old) =
        let def =
          normalize_definition (numbered parent definition)
            (highest_version definition.id s.definitions) in
        let stored = record s { definitions = insert def.key def s.definitions } in
        let room : HasRoom s.definitions definition.id = λ h found.
          omega (arith, highest_version-UpTo b definition.id s.definitions h old found) in
        let next : def.version ≤ℤ pos (suc b) =
          next_version-UpTo b s.definitions parent definition (omega arith) old below
            (omega (arith, low.0)) in
        subst (λ n. KeepsApart n (deploy_subs def.version subs stored).definitions) (omega arith)
          (deploy_subs-KeepsApart own (suc b) def.version subs stored (omega arith) (omega arith)
            next low.1
            (
              insert-HasVersions s.definitions def apart
                  (next_version-Exceeds s.definitions parent definition room),
              insert-UpTo (suc b) def.key def s.definitions next
                  (All-mono (λ e h. omega (arith, h)) s.definitions old),
            ))

    deploy_subs-KeepsApart :
        (own b : ℕ) (version : ℤ) (subs : SubProcesses V) (s : Engine V)
        → own ≤ b
        → b + size_subs subs ≤ i32_max
        → version ≤ℤ pos b
        → SubsUpTo own subs
        → KeepsApart b s.definitions
        → KeepsApart (b + size_subs subs) (deploy_subs version subs s).definitions
    deploy_subs-KeepsApart own b version no_subs s more few below low old =
        subst (λ n. KeepsApart n s.definitions) (omega arith) old
    deploy_subs-KeepsApart own b version (sub t rest) s more few below low old =
        let after = (deploy_definition_inner (some version) t s).1 in
        subst (λ n. KeepsApart n (deploy_subs version rest after).definitions) (omega arith)
          (deploy_subs-KeepsApart own (b + size t) version rest after (omega arith) (omega arith)
            (omega arith) low.1
            (deploy_definition_inner-KeepsApart own b (some version) t s more (omega arith) below
              low.0 old))

  -- If no two registered definitions of one process have the same version, this also holds after a
  -- deployment, which registers the embedded processes too. The versions that are registered or that
  -- the deployed definitions come with are at most `b`, and adding the number of the deployed
  -- definitions does not go past the greatest `i32`.
  pub deploy_definition-HasVersions :
      (b : ℕ) (t : DefinitionTree V) (s : Engine V)
      → HasVersions s.definitions
      → IsUpTo b s.definitions
      → TreeUpTo b t
      → b + size t ≤ i32_max
      → HasVersions (deploy_definition t s).1.definitions
  unfolding deploy_definition
  deploy_definition-HasVersions b t s apart old low few =
      (deploy_definition_inner-KeepsApart b b none t s (omega arith) few tt low (apart, old)).0
