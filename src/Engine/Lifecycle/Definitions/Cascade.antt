-- ===== src/Engine/Lifecycle/Definitions/Cascade.antt =====
-- What the deletion of a definition takes away.
use bpmninja.Prelude.{
  ◌≡◌, ◌<◌, refl, ◌∙◌, ap, Bool, true, false, not, none, List, [], ◌∷◌, get, get-remove, remove,
  contains_key, length, nat_eq, nat_beq, kept, All, is_some, if◌then◌else◌, arith, Bool-cases, inl,
  inr,
}
use bpmninja.Domain.Error.{Uuid, EngineResult, ok, err, definition_has_instances}
use bpmninja.Runtime.Instance.{ProcessInstance}
use bpmninja.Runtime.State.{Engine, emit, delete_persisted_definition}
use bpmninja.Engine.TopicIndex.{member}
use bpmninja.Engine.Waits.Loops.{member-ids_of, Distinct, ids_of-Distinct, ids_of-All}
use bpmninja.Engine.Waits.Released.{IsKeyed}
use bpmninja.Engine.Lifecycle.Definitions.{
  then_delete, forgotten_with, delete_instances, forget, delete_associated, instances_of,
  delete_definition,
}
use bpmninja.Engine.Lifecycle.Definitions.Sweep.{
  Without, delete_instances-Without, delete_instances_ok,
}

module _ {V : Type 0} (deleted forgotten : Uuid → EngineResult (Unit {0})) where
  -- A deletion that succeeds, and one that is refused.
  abbrev pub Forgets : Uuid → List Uuid → Engine V → EngineResult (Unit {0}) × Engine V → Type 0
  Forgets key ids s (err e, s') = Unit
  Forgets key ids s (ok _, s') =
      ((k : Uuid) → get k s'.instances ≡ (if member k ids then none else get k s.instances))
      × ((k : Uuid) → get k s'.definitions ≡ (if nat_beq key k then none else get k s.definitions))

  forgotten_with-Forgets :
      (key : Uuid) (ids : List Uuid) (s s' : Engine V)
      → ((k : Uuid) → get k s'.instances ≡ (if member k ids then none else get k s.instances))
      → s'.definitions ≡ s.definitions
      → (answer : EngineResult (Unit {0}))
      → Forgets key ids s (
          forgotten_with answer (
            emit
              (delete_persisted_definition key)
              (record s' { definitions = remove key s'.definitions })))
  forgotten_with-Forgets key ids s s' gone same (err e) = tt
  forgotten_with-Forgets key ids s s' gone same (ok tt) = (
    gone,
    (λ k. get-remove key k s'.definitions ∙ ap (λ m. if nat_beq key k then none else get k m) same),
  )

  then_forget-Forgets :
      (key : Uuid) (ids : List Uuid) (s : Engine V) (r : EngineResult (Unit {0}) × Engine V)
      → Without ids s r
      → Forgets key ids s (then_delete (forget deleted forgotten key) r)
  then_forget-Forgets key ids s (err e, s') h = tt
  then_forget-Forgets key ids s (ok tt, s') (gone, same) =
      forgotten_with-Forgets key ids s s' gone same (forgotten key)

  delete_associated-Forgets :
      (key : Uuid) (cascade : Bool) (ids : List Uuid) (s : Engine V)
      → Forgets key ids s (delete_associated deleted forgotten key cascade ids s)
  delete_associated-Forgets key cascade [] s =
      forgotten_with-Forgets key [] s s (λ k. refl) refl (forgotten key)
  delete_associated-Forgets key false (id ∷ ids) s = tt
  delete_associated-Forgets key true (id ∷ ids) s =
      then_forget-Forgets key (id ∷ ids) s (delete_instances deleted forgotten (id ∷ ids) s)
        (delete_instances-Without deleted forgotten (id ∷ ids) s)

  -- What a deletion that succeeds leaves.
  abbrev pub Cascades : Uuid → Engine V → EngineResult (Unit {0}) × Engine V → Type 0
  Cascades key s (err e, s') = Unit
  Cascades key s (ok _, s') =
      ((k : Uuid)
        → get k s'.instances
          ≡ kept (λ (i : ProcessInstance V). not (nat_beq i.definition_key key))
              (get k s.instances))
      × ((k : Uuid) → get k s'.definitions ≡ (if nat_beq key k then none else get k s.definitions))

  Forgets-Cascades :
      (key : Uuid) (s : Engine V)
      → IsKeyed (λ (i : ProcessInstance V). i.id) s.instances
      → (r : EngineResult (Unit {0}) × Engine V)
      → Forgets key (instances_of deleted forgotten key s) s r
      → Cascades key s r
  Forgets-Cascades key s keyed (err e, s') h = tt
  Forgets-Cascades key s keyed (ok tt, s') (gone, forgot) = (
    (λ k.
        gone k
        ∙ member-ids_of (λ (i : ProcessInstance V). i.definition_key) (λ i. i.id) key k s.instances
            keyed.0 keyed.1),
    forgot,
  )

  delete_associated_ok :
      ((id : Uuid) → deleted id ≡ ok tt)
      → ((id : Uuid) → forgotten id ≡ ok tt)
      → (key : Uuid) (ids : List Uuid) (s : Engine V) → Distinct ids
      → All (λ k. is_some (get k s.instances) ≡ true) ids
      → (delete_associated deleted forgotten key true ids s).0 ≡ ok tt
  delete_associated_ok agrees agrees' key [] s distinct there =
      ap (λ r. (forgotten_with r (forgetting s)).0) (agrees' key)
    where
      forgetting : Engine V → Engine V
      forgetting s =
          emit (delete_persisted_definition key)
            (record s { definitions = remove key s.definitions })
  delete_associated_ok agrees agrees' key (id ∷ ids) s distinct there =
      after (delete_instances deleted forgotten (id ∷ ids) s)
        (delete_instances_ok deleted forgotten agrees (id ∷ ids) s distinct there)
    where
      after :
          (r : EngineResult (Unit {0}) × Engine V)
          → r.0 ≡ ok tt
          → (then_delete (forget deleted forgotten key) r).0 ≡ ok tt
      after (err e, s') accepted = accepted
      after (ok tt, s') accepted = rw (agrees' key) refl

  -- Whatever succeeds takes away the definition and its instances, and no others.
  deletion-Cascades :
      (key : Uuid) (cascade : Bool) (s : Engine V)
      → IsKeyed (λ (i : ProcessInstance V). i.id) s.instances
      → Cascades key s (delete_definition deleted forgotten key cascade s)
  unfolding delete_definition
  deletion-Cascades key cascade s keyed = elim (Bool-cases (contains_key key s.definitions)) [
    | inl known ↦
        rw (known, Cascades)
          (Forgets-Cascades key s keyed _
            (delete_associated-Forgets key cascade (instances_of deleted forgotten key s) s))
    | inr unknown ↦ rw (unknown, Cascades) tt
  ]

  -- Without `cascade` a deletion is refused, with the number of the instances and no change, while
  -- there are any.
  delete_definition_refused :
      (key : Uuid) (s : Engine V)
      → contains_key key s.definitions ≡ true
      → 0 < length (instances_of deleted forgotten key s)
      → delete_definition deleted forgotten key false s
        ≡ (err (definition_has_instances (length (instances_of deleted forgotten key s))), s)
  unfolding delete_definition
  delete_definition_refused key s known some_left =
      rw known (refused (instances_of deleted forgotten key s) some_left)
    where
      refused :
          (ids : List Uuid)
          → 0 < length ids
          → delete_associated deleted forgotten key false ids s
            ≡ (err (definition_has_instances (length ids)), s)
      refused [] h = absurd (omega arith)
      refused (id ∷ ids) h = refl

  deletion_ok :
      (key : Uuid) (s : Engine V)
      → IsKeyed (λ (i : ProcessInstance V). i.id) s.instances
      → contains_key key s.definitions ≡ true
      → ((id : Uuid) → deleted id ≡ ok tt)
      → ((id : Uuid) → forgotten id ≡ ok tt)
      → (delete_definition deleted forgotten key true s).0 ≡ ok tt
  unfolding delete_definition
  deletion_ok key s keyed known agrees agrees' = rw known (
      delete_associated_ok agrees agrees' key (instances_of deleted forgotten key s) s
        (ids_of-Distinct (λ (i : ProcessInstance V). i.definition_key) (λ i. i.id) key s.instances
          keyed.0 keyed.1)
        (ids_of-All (λ (i : ProcessInstance V). i.definition_key) (λ i. i.id) key s.instances
          keyed.1))

  succeeded-Cascades :
      (key : Uuid) (s : Engine V) (r : EngineResult (Unit {0}) × Engine V)
      → Cascades key s r
      → r.0 ≡ ok tt
      → Cascades key s (ok tt, r.1)
  succeeded-Cascades key s (err e, s') h accepted = cc
  succeeded-Cascades key s (ok tt, s') h accepted = h

  -- Where every instance stands under its own identifier and the persistence layer agrees to every
  -- deletion, deleting a known definition with `cascade` succeeds and takes away that definition and
  -- its instances, and no other definition or instance.
  pub delete_definition-Cascades :
      (key : Uuid) (s : Engine V)
      → IsKeyed (λ (i : ProcessInstance V). i.id) s.instances
      → contains_key key s.definitions ≡ true
      → ((id : Uuid) → deleted id ≡ ok tt)
      → ((id : Uuid) → forgotten id ≡ ok tt)
      → let (result, s') = delete_definition deleted forgotten key true s in
        (result ≡ ok tt)
        × ((k : Uuid)
            → get k s'.instances
              ≡ kept
                  (λ (i : ProcessInstance V). not (nat_beq i.definition_key key))
                  (get k s.instances))
        × ((k : Uuid)
            → get k s'.definitions ≡ (if nat_beq key k then none else get k s.definitions))
  delete_definition-Cascades key s keyed known agrees agrees' =
      let accepted = deletion_ok key s keyed known agrees agrees' in
      let (gone, forgot) =
        succeeded-Cascades key s (delete_definition deleted forgotten key true s)
          (deletion-Cascades key true s keyed) accepted in
      (accepted, gone, forgot)
