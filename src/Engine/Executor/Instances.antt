-- ===== src/Engine/Executor/Instances.antt =====
-- What the changes of one instance leave alone, and when an instance has no token left.
use bpmninja.Prelude.{
  ◌≡◌, refl, ◌↔◌, true, false, not, some, List, [], ◌∷◌, Map, get, get-insert, nat_eq, nat_beq,
  if◌then◌else◌, All, arith, Option-cases, inl, inr,
}
use bpmninja.Domain.Error.{Uuid}
use bpmninja.Domain.Token.{Token}
use bpmninja.Runtime.Instance.{ProcessInstance, ActiveToken}
use bpmninja.Runtime.State.{Engine}
use bpmninja.Engine.Executor.{update_instance, all_completed, is_empty, is_finished, kill_all}

module _ {V : Type 0} where
  pub update_instance_keeps :
      {A : Type 0} (part : Engine V → A)
      → ((s : Engine V) (m : Map Uuid (ProcessInstance V))
          → part (record s { instances = m }) ≡ part s)
      → (id : Uuid) (change : ProcessInstance V → ProcessInstance V) (s : Engine V)
      → part (update_instance id change s) ≡ part s
  unfolding update_instance
  update_instance_keeps part apart id change s = elim (Option-cases (get id s.instances)) [
    | inl missing ↦ rw (missing, update_instance) refl
    | inr (inst, there) ↦ rw (there, update_instance) (apart s _)
  ]

  pub get-update_instance :
      (id k : Uuid) (change : ProcessInstance V → ProcessInstance V) (inst : ProcessInstance V)
      (s : Engine V)
      → get id s.instances ≡ some inst
      → get k (update_instance id change s).instances
        ≡ (if nat_beq id k then some (change inst) else get k s.instances)
  unfolding update_instance
  get-update_instance id k change inst s there =
      rw (there, update_instance) (get-insert id k (change inst) s.instances)

  abbrev pub IsCompleted : ActiveToken V → Type 0
  IsCompleted at = at.completed ≡ true

  pub kill_all-IsCompleted : (ats : List (ActiveToken V)) → All IsCompleted (kill_all ats)
  unfolding kill_all
  kill_all-IsCompleted [] = tt
  kill_all-IsCompleted (at ∷ ats) = (refl, kill_all-IsCompleted ats)

  all_completed_iff :
      (ats : List (ActiveToken V)) → (all_completed ats ≡ true) ↔ All IsCompleted ats
  unfolding all_completed
  all_completed_iff [] = (λ _. tt, λ _. refl)
  all_completed_iff (at ∷ ats) = (
    λ h. (ground arith, (all_completed_iff ats).0 (ground arith)),
    λ h. ground (arith, h.0, (all_completed_iff ats).1 h.1),
  )

  -- No token is left, and every branch is completed.
  abbrev pub IsFinished : ProcessInstance V → Type 0
  IsFinished inst = (inst.tokens ≡ []) × All IsCompleted inst.active_tokens

  finished_iff :
      (tokens : Map Uuid (Token V)) (ats : List (ActiveToken V))
      → ((if not (is_empty tokens) then false else if is_empty ats then true else all_completed ats)
          ≡ true)
        ↔ ((tokens ≡ []) × All IsCompleted ats)
  finished_iff [] [] = (λ _. (refl, tt), λ _. refl)
  finished_iff [] (at ∷ ats) =
      (λ h. (refl, (all_completed_iff (at ∷ ats)).0 h), λ h. (all_completed_iff (at ∷ ats)).1 h.1)
  finished_iff (t ∷ ts) ats = (λ h. cc, λ h. cc (h.0))

  pub is_finished_iff : (inst : ProcessInstance V) → (is_finished inst ≡ true) ↔ IsFinished inst
  unfolding is_finished
  is_finished_iff inst = finished_iff inst.tokens inst.active_tokens
