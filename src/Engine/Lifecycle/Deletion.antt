-- ===== src/Engine/Lifecycle/Deletion.antt =====
-- Deleting an instance.
use bpmninja.Prelude.{
  ◌≡◌, refl, ◌∙◌, ap, false, none, some, List, get, remove, get-remove, nat_eq, nat_beq,
  nat_beq_iff, arith,
}
use bpmninja.Domain.Error.{Uuid, EngineResult, ok, err}
use bpmninja.Runtime.Instance.{ProcessInstance}
use bpmninja.Runtime.State.{Engine, Effect}
use bpmninja.Engine.Waits.{drop_waits}
use bpmninja.Engine.Waits.Released.{HasKeyedWaits, Released}
use bpmninja.Engine.Waits.Dropped.{drop_waits-Released}
use bpmninja.Engine.Lifecycle.{delete_instance}

module _ {V : Type 0} where
  -- Nothing that waits is touched.
  abbrev pub SameWaits : Engine V → Engine V → Type 0
  SameWaits s s' =
      (s'.pending_user_tasks ≡ s.pending_user_tasks)
      × (s'.pending_service_tasks ≡ s.pending_service_tasks)
      × (s'.pending_timers ≡ s.pending_timers)
      × (s'.pending_message_catches ≡ s.pending_message_catches)
      × (s'.pending_signal_catches ≡ s.pending_signal_catches)
      × (s'.pending_conditional_catches ≡ s.pending_conditional_catches)

  abbrev pub DeletesWaits :
      EngineResult (Unit {0}) → Uuid → Engine V → EngineResult (Unit {0}) × Engine V → Type 0
  DeletesWaits (err e) id s (result, s') = (result ≡ err e) × SameWaits s s'
  DeletesWaits (ok _) id s (result, s') =
      (result ≡ ok tt) × Released id (record s { instances = s'.instances }) s'

  -- Deleting an instance that is there removes it, and it alone, whatever the persistence layer
  -- answers. If every pending map has its entries under their own identifiers, what waits for the
  -- instance goes with it where the layer agrees; where the layer fails, that error is the result, and
  -- everything that waits for the removed instance is left.
  pub delete_instance_cases :
      (deleted : EngineResult (Unit {0})) (id : Uuid) (inst : ProcessInstance V) (s : Engine V)
      → get id s.instances ≡ some inst
      → HasKeyedWaits s
      → (get id (delete_instance deleted id s).1.instances ≡ none)
        × ((k : Uuid)
            → nat_beq id k ≡ false
            → get k (delete_instance deleted id s).1.instances ≡ get k s.instances)
        × DeletesWaits deleted id s (delete_instance deleted id s)
  unfolding delete_instance
  delete_instance_cases (err e) id inst s there keyed =
      rw (there, delete_instance)
        (
          get-remove id id s.instances ∙ ground (arith, nat_beq_iff id id),
          (λ k other. get-remove id k s.instances ∙ ground (arith, other)),
          (refl, (refl, refl, refl, refl, refl, refl)),
        )
  delete_instance_cases (ok tt) id inst s there keyed =
      rw (there, delete_instance)
        (
          ap (λ m. get id m) (released _).instances
              ∙ get-remove id id s.instances
              ∙ ground (arith, nat_beq_iff id id),
          (λ k other.
              ap (λ m. get k m) (released _).instances
              ∙ get-remove id k s.instances
              ∙ ground (arith, other)),
          (
            refl,
            record {
              users = (released _).users;
              services = (released _).services;
              timers = (released _).timers;
              messages = (released _).messages;
              signals = (released _).signals;
              conditionals = (released _).conditionals;
              instances = refl;
              definitions = (released _).definitions;
            },
          ),
        )
    where
      released :
          (effects : List Effect)
          → let gone = record s { instances = remove id s.instances; effects = effects } in
            Released id gone (drop_waits id gone)
      released effects =
          drop_waits-Released id (record s { instances = remove id s.instances; effects = effects })
            (record {
              users = keyed.users;
              services = keyed.services;
              timers = keyed.timers;
              messages = keyed.messages;
              signals = keyed.signals;
              conditionals = keyed.conditionals;
            })
