-- ===== src/Engine/Waits/Loops.antt =====
-- Loops over identifiers that were collected from a map of pending entries.
use bpmninja.Prelude.{
  ◌≡◌, refl, ◌∙◌, true, false, not, none, List, [], ◌∷◌, Map, get, nat_eq, nat_beq, nat_beq_iff,
  HasDistinctKeys, kept, if◌then◌else◌, All, All-mono, is_some, arith, Bool-cases, inl, inr, subst,
}
use bpmninja.Domain.Error.{Uuid}
use bpmninja.Engine.TopicIndex.{member}
use bpmninja.Engine.Waits.{each, ids_of}

module _ {S A : Type 0} (f : Uuid → S → S) (part : S → A) where
  -- A loop leaves alone what its body leaves alone.
  pub each-keeps :
      ((id : Uuid) (s : S) → part (f id s) ≡ part s)
      → (ids : List Uuid) (s : S) → part (each f ids s) ≡ part s
  unfolding each
  each-keeps keeps [] s = refl
  each-keeps keeps (id ∷ ids) s = each-keeps keeps ids (f id s) ∙ keeps id s

  pub each-invariant :
      (P : A → Type 0)
      → ((id : Uuid) (s : S) → P (part s) → P (part (f id s)))
      → (ids : List Uuid) (s : S) → P (part s)
      → P (part (each f ids s))
  unfolding each
  each-invariant P keeps [] s h = h
  each-invariant P keeps (id ∷ ids) s h = each-invariant P keeps ids (f id s) (keeps id s h)

-- A loop whose body removes an entry removes all of them.
pub each-clears :
    {S A : Type 0} (f : Uuid → S → S) (part : S → Map Uuid A)
    → ((id : Uuid) (s : S) (k : Uuid)
        → get k (part (f id s)) ≡ (if nat_beq id k then none else get k (part s)))
    → (ids : List Uuid) (s : S) (k : Uuid)
    → get k (part (each f ids s)) ≡ (if member k ids then none else get k (part s))
unfolding each
each-clears f part clears [] s k = refl
each-clears f part clears (id ∷ ids) s k =
    ground (arith, each-clears f part clears ids (f id s) k, clears id s k)

abbrev pub Distinct : List Uuid → Type 0
Distinct [] = Unit
Distinct (id ∷ ids) = (member id ids ≡ false) × Distinct ids

module _ {A : Type 0} (owner ident : A → Uuid) (instance_id : Uuid) where
  pub member-ids_of-none :
      (k : Uuid) (m : Map Uuid A)
      → All (λ e. ident e.1 ≡ e.0) m
      → get k m ≡ none
      → member k (ids_of owner ident instance_id m) ≡ false
  unfolding ids_of get
  member-ids_of-none k [] own absent = refl
  member-ids_of-none k ((i, v) ∷ m) own absent = ground (arith, own.0, member-ids_of-none k m own.1)

  -- Removing what was collected leaves the entries of the other instances.
  pub member-ids_of :
      (k : Uuid) (m : Map Uuid A)
      → HasDistinctKeys m
      → All (λ e. ident e.1 ≡ e.0) m
      → (if member k (ids_of owner ident instance_id m) then none else get k m)
        ≡ kept (λ v. not (nat_beq (owner v) instance_id)) (get k m)
  unfolding ids_of get
  member-ids_of k [] distinct own = refl
  member-ids_of k ((i, v) ∷ m) distinct own = elim (Bool-cases (nat_beq i k)) [
    | inl same ↦
        let absent : get k m ≡ none =
          subst (λ j. get j m ≡ none) ((nat_beq_iff i k).0 same) (distinct.0) in
        ground (arith, own.0, same, member-ids_of-none k m own.1 absent)
    | inr other ↦ ground (arith, own.0, other, member-ids_of k m distinct.1 own.1)
  ]

  -- The collected identifiers are distinct and all in the map.
  pub ids_of-Distinct :
      (m : Map Uuid A)
      → HasDistinctKeys m
      → All (λ e. ident e.1 ≡ e.0) m
      → Distinct (ids_of owner ident instance_id m)
  unfolding ids_of
  ids_of-Distinct [] distinct own = tt
  ids_of-Distinct ((i, v) ∷ m) distinct own = elim (Bool-cases (nat_beq (owner v) instance_id)) [
    | inl mine ↦
        rw (mine, Distinct)
          (rw own.0 (member-ids_of-none i m own.1 distinct.0), ids_of-Distinct m distinct.1 own.1)
    | inr other ↦ rw (other, Distinct) (ids_of-Distinct m distinct.1 own.1)
  ]

  pub ids_of-All :
      (m : Map Uuid A)
      → All (λ e. ident e.1 ≡ e.0) m
      → All (λ k. is_some (get k m) ≡ true) (ids_of owner ident instance_id m)
  unfolding ids_of get
  ids_of-All [] own = tt
  ids_of-All ((i, v) ∷ m) own =
      let rest : All (λ k. is_some (get k ((i, v) ∷ m)) ≡ true) (ids_of owner ident instance_id m) =
        All-mono (λ k h. ground arith) (ids_of owner ident instance_id m) (ids_of-All m own.1) in
      elim (Bool-cases (nat_beq (owner v) instance_id)) [
        | inl mine ↦ rw (mine, All) (ground (arith, own.0, nat_beq_iff i i), rest)
        | inr other ↦ rw (other, All) rest
      ]
