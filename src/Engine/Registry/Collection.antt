-- ===== src/Engine/Registry/Collection.antt =====
-- The members of a collection, which `deploy_collection` of
-- engine-core/src/engine/definition_ops.rs flattens.
use bpmninja.Prelude.{
  ℕ, suc, ◌+◌, ◌⊎◌, ◌≡◌, refl, subst, String, Bool, false, Bool-cases, inl, inr, Option, none, some,
  List, [], ◌∷◌, ◌++◌, any, any-append, length, string_eq, ◌==◌, eq_iff, All, All-append, arith,
}
use bpmninja.Prelude.Int.{ℤ, pos, negsuc, pos_part, neg_part, ◌<ℤ◌, ◌≤ℤ◌, leb_ℤ, i32_max, i32_succ}
use bpmninja.Domain.Error.{Uuid, ok, >>=-eq-ok}
use bpmninja.Domain.Graph.{ProcessDefinition, DefinitionTree, SubProcesses, tree, no_subs, sub}
use bpmninja.Engine.Registry.Versions.{i32_succ_parts}
use bpmninja.Engine.Registry.{
  Registry, highest_version, normalize_definition, numbered, flatten, flatten_subs,
}

abbrev pub has_member : {V : Type 0} → String → List (ProcessDefinition V) → Bool
has_member process_id members = any (λ previous. previous.id == process_id) members

-- No two members are of one process.
abbrev pub AreDistinct : {V : Type 0} → List (ProcessDefinition V) → Type 0
AreDistinct [] = Unit
AreDistinct (d ∷ ds) = (has_member d.id ds ≡ false) × AreDistinct ds

-- The next version on an `i32`, of which the last one is followed by the first one.
abbrev pub Follows : ℤ → ℤ → Type 0
Follows h version =
    (h <ℤ pos i32_max) × (pos_part version + neg_part h ≡ suc (pos_part h + neg_part version))
    ⊎ (pos i32_max ≤ℤ h) × (version ≡ negsuc i32_max)

-- No version of the process is registered, or the member has the one after the highest.
abbrev pub IsNumbered : {V : Type 0} → Registry V → ProcessDefinition V → Type 0
IsNumbered m d =
    (highest_version d.id m ≡ none)
    ⊎ ((h : ℤ) × (highest_version d.id m ≡ some h) × Follows h d.version)

i32_succ-Follows : (h : ℤ) → Follows h (i32_succ h)
unfolding i32_succ
i32_succ-Follows h = elim (Bool-cases (leb_ℤ (pos i32_max) h)) [
  | inl last ↦ inr (ground arith, rw last refl)
  | inr before ↦ inl (ground arith, i32_succ_parts h (ground arith))
]

abbrev pub Members : {V : Type 0} → Registry V → List (ProcessDefinition V) → Type 0
Members m out = AreDistinct out × All (IsNumbered m) out

module _ {V : Type 0} (new_v4 : ℕ → Uuid) (m : Registry V) where
  AreDistinct-append :
      (out : List (ProcessDefinition V)) (d : ProcessDefinition V)
      → has_member d.id out ≡ false
      → AreDistinct out
      → AreDistinct (out ++ d ∷ [])
  AreDistinct-append [] d fresh distinct = (refl, tt)
  AreDistinct-append (e ∷ out) d fresh distinct = (
    ground (
      arith,
      any-append (λ previous. previous.id == e.id) out (d ∷ []),
      eq_iff e.id d.id,
      eq_iff d.id e.id,
    ),
    AreDistinct-append out d (ground arith) distinct.1,
  )

  next_free :
      (key : Uuid) (definition : ProcessDefinition V) (highest : Option ℤ)
      → highest_version definition.id m ≡ highest
      → (parent : Option ℤ)
      → let member = record (normalize_definition (numbered parent definition) highest) {
        key = key;
      } in
        (member.id ≡ definition.id) × IsNumbered m member
  unfolding normalize_definition
  next_free key definition none e none = (refl, inl e)
  next_free key definition none e (some version) = (refl, inl e)
  next_free key definition (some highest) e none =
      (refl, inr (highest, e, i32_succ-Follows highest))
  next_free key definition (some highest) e (some version) =
      (refl, inr (highest, e, i32_succ-Follows highest))

  mutual
    unfolding flatten

    flatten-Members :
        (parent : Option ℤ) (t : DefinitionTree V) (out : List (ProcessDefinition V))
        {every : List (ProcessDefinition V)}
        → Members m out
        → flatten new_v4 m parent t out ≡ ok every
        → Members m every
    flatten-Members parent (tree definition subs) out members done =
        elim (Bool-cases (has_member definition.id out)) [
          | inl taken ↦ ground arith
          | inr free ↦
              let highest = highest_version definition.id m in
              let versioned = normalize_definition (numbered parent definition) highest in
              let member = record versioned { key = new_v4 (length out) } in
              let own = next_free (new_v4 (length out)) definition highest refl parent in
              flatten_subs-Members versioned.version subs (out ++ member ∷ [])
                (
                  AreDistinct-append out member (rw own.0 free) members.0,
                  All-append (IsNumbered m) out (member ∷ []) members.1 (own.1, tt),
                )
                (ground arith)
        ]

    flatten_subs-Members :
        (version : ℤ) (subs : SubProcesses V) (out : List (ProcessDefinition V))
        {every : List (ProcessDefinition V)}
        → Members m out
        → flatten_subs new_v4 m version subs out ≡ ok every
        → Members m every
    flatten_subs-Members version no_subs out {every} members done =
        let same : out ≡ every = cc in subst (Members m) same members
    flatten_subs-Members version (sub t rest) out members done =
        let (between, first, last) =
          >>=-eq-ok (flatten new_v4 m (some version) t out) (flatten_subs new_v4 m version rest)
            done in
        flatten_subs-Members version rest between
          (flatten-Members (some version) t out members first) last
