-- ===== src/Engine/Lifecycle/Definitions/Sweep.antt =====
-- What the deletion of several instances takes away.
use bpmninja.Prelude.{
  ◌≡◌, refl, ◌∙◌, ap, true, false, none, List, [], ◌∷◌, get, get-remove, remove, nat_eq,
  nat_beq_iff, All, is_some, if◌then◌else◌, arith, Option-cases, inl, inr,
}
use bpmninja.Domain.Error.{Uuid, EngineResult, ok, err}
use bpmninja.Runtime.State.{Engine}
use bpmninja.Engine.TopicIndex.{member}
use bpmninja.Engine.Waits.Loops.{Distinct}
use bpmninja.Engine.Waits.Dropped.{drop_waits_instances, drop_waits_definitions}
use bpmninja.Engine.Lifecycle.{deleted_with, delete_instance}
use bpmninja.Engine.Lifecycle.Definitions.{then_delete, delete_instances}

module _ {V : Type 0} where
  -- The instances of some identifiers are gone, and nothing else is deleted.
  abbrev pub Without : List Uuid → Engine V → EngineResult (Unit {0}) × Engine V → Type 0
  Without ids s (err e, s') = Unit
  Without ids s (ok _, s') =
      ((k : Uuid) → get k s'.instances ≡ (if member k ids then none else get k s.instances))
      × (s'.definitions ≡ s.definitions)

  deleted_with-Without :
      (deleted : EngineResult (Unit {0})) (id : Uuid) (s s' : Engine V)
      → s'.instances ≡ remove id s.instances
      → s'.definitions ≡ s.definitions
      → Without (id ∷ []) s (deleted_with deleted id s')
  deleted_with-Without (err e) id s s' gone same = tt
  deleted_with-Without (ok tt) id s s' gone same = (
    (λ k.
        ap (λ m. get k m) (drop_waits_instances id s' ∙ gone)
        ∙ get-remove id k s.instances
        ∙ ground arith),
    drop_waits_definitions id s' ∙ same,
  )

  delete_instance-Without :
      (deleted : EngineResult (Unit {0})) (id : Uuid) (s : Engine V)
      → Without (id ∷ []) s (delete_instance deleted id s)
  unfolding delete_instance
  delete_instance-Without deleted id s = elim (Option-cases (get id s.instances)) [
    | inl missing ↦ rw (missing, delete_instance) tt
    | inr (inst, there) ↦
        rw (there, delete_instance) (deleted_with-Without deleted id s _ refl refl)
  ]

  Without-cons :
      (id : Uuid) (ids : List Uuid) (s s' : Engine V)
      → ((k : Uuid) → get k s'.instances ≡ (if member k (id ∷ []) then none else get k s.instances))
      → s'.definitions ≡ s.definitions
      → (r : EngineResult (Unit {0}) × Engine V) → Without ids s' r
      → Without (id ∷ ids) s r
  Without-cons id ids s s' gone same (err e, s'') h = tt
  Without-cons id ids s s' gone same (ok tt, s'') (rest, kept_same) =
      ((λ k. ground (arith, rest k, gone k)), kept_same ∙ same)

  then_delete-Without :
      (id : Uuid) (ids : List Uuid) (s : Engine V)
      (go : Engine V → EngineResult (Unit {0}) × Engine V)
      → ((s : Engine V) → Without ids s (go s))
      → (r : EngineResult (Unit {0}) × Engine V) → Without (id ∷ []) s r
      → Without (id ∷ ids) s (then_delete go r)
  then_delete-Without id ids s go goes (err e, s') h = tt
  then_delete-Without id ids s go goes (ok tt, s') (gone, same) =
      Without-cons id ids s s' gone same (go s') (goes s')

module _ {V : Type 0} (deleted forgotten : Uuid → EngineResult (Unit {0})) where
  pub delete_instances-Without :
      (ids : List Uuid) (s : Engine V) → Without ids s (delete_instances deleted forgotten ids s)
  unfolding delete_instances
  delete_instances-Without [] s = ((λ k. refl), refl)
  delete_instances-Without (id ∷ ids) s =
      then_delete-Without id ids s (delete_instances deleted forgotten ids)
        (delete_instances-Without ids) (delete_instance (deleted id) id s)
        (delete_instance-Without (deleted id) id s)

  -- Where the persistence layer agrees, the instances that are there are all deleted.
  still_there :
      (id : Uuid) (ids : List Uuid) (s s' : Engine V)
      → member id ids ≡ false
      → ((k : Uuid) → get k s'.instances ≡ (if member k (id ∷ []) then none else get k s.instances))
      → All (λ k. is_some (get k s.instances) ≡ true) ids
      → All (λ k. is_some (get k s'.instances) ≡ true) ids
  still_there id [] s s' apart gone there = tt
  still_there id (k ∷ ids) s s' apart gone there = (
    ground (arith, gone k, there.0, nat_beq_iff id k, nat_beq_iff k id),
    still_there id ids s s' (ground arith) gone there.1,
  )

  then_delete_ok :
      (id : Uuid) (ids : List Uuid) (s : Engine V)
      (go : Engine V → EngineResult (Unit {0}) × Engine V)
      → member id ids ≡ false
      → All (λ k. is_some (get k s.instances) ≡ true) ids
      → ((s' : Engine V) → All (λ k. is_some (get k s'.instances) ≡ true) ids → (go s').0 ≡ ok tt)
      → (r : EngineResult (Unit {0}) × Engine V) → Without (id ∷ []) s r
      → r.0 ≡ ok tt
      → (then_delete go r).0 ≡ ok tt
  then_delete_ok id ids s go apart there goes (err e, s') h accepted = accepted
  then_delete_ok id ids s go apart there goes (ok tt, s') (gone, same) accepted =
      goes s' (still_there id ids s s' apart gone there)

  delete_instance_ok :
      (id : Uuid) (s : Engine V)
      → is_some (get id s.instances) ≡ true
      → (delete_instance (ok tt) id s).0 ≡ ok tt
  unfolding delete_instance
  delete_instance_ok id s there = elim (Option-cases (get id s.instances)) [
    | inl missing ↦ absurd (ground (arith, missing, there))
    | inr (inst, found) ↦ rw (found, delete_instance) refl
  ]

  pub delete_instances_ok :
      ((id : Uuid) → deleted id ≡ ok tt)
      → (ids : List Uuid) (s : Engine V) → Distinct ids
      → All (λ k. is_some (get k s.instances) ≡ true) ids
      → (delete_instances deleted forgotten ids s).0 ≡ ok tt
  unfolding delete_instances
  delete_instances_ok agrees [] s distinct there = refl
  delete_instances_ok agrees (id ∷ ids) s distinct there =
      then_delete_ok id ids s (delete_instances deleted forgotten ids) distinct.0 there.1
        (λ s' left. delete_instances_ok agrees ids s' distinct.1 left)
        (delete_instance (deleted id) id s) (delete_instance-Without (deleted id) id s)
        (rw (agrees id) (delete_instance_ok id s there.0))
