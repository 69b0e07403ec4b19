-- ===== src/Engine/EventScope/Abort.antt =====
-- `abort_interrupted_instance` of engine-core/src/engine/event_subprocess.rs ends, and ends the
-- instance with the instances that it calls.
use bpmninja.Prelude.{
  ℕ, zero, suc, ◌≤◌, ◌≡◌, refl, sym, ◌∙◌, ◌⊎◌, ap, subst, true, false, some, List, [], ◌∷◌, get,
  insert, get-insert, keys, nat_eq, nat_beq, nat_beq_iff, All, arith, Bool-cases, inl, inr,
}
use bpmninja.Domain.Error.{Uuid}
use bpmninja.Runtime.Instance.{ProcessInstance}
use bpmninja.Runtime.State.{Engine}
use bpmninja.Engine.Waits.{each}
use bpmninja.Engine.Waits.Loops.{each-invariant}
use bpmninja.Engine.EventScope.{is_terminal}
use bpmninja.Engine.EventScope.Handler.{interrupted, abort_interrupted_instance}
use bpmninja.Engine.EventScope.Calls.{
  live, ended_at, ended_at_instances, interrupted_terminal, abort_done, abort_running, each-live_le,
  live-ended_at, Ended, Call-cases, over, under_way,
}

module _ {V : Type 0} where
  abort-live_le :
      (fuel now : ℕ) (id : Uuid) (s : Engine V)
      → live (abort_interrupted_instance fuel now id s).instances ≤ live s.instances
  unfolding abort_interrupted_instance
  abort-live_le zero now id s = omega arith
  abort-live_le (suc fuel) now id s = elim (Call-cases id s) [
    | over done ↦ rw (abort_done (suc fuel) now id s done) (omega arith)
    | under_way inst there running ↦ rw (abort_running fuel now id inst s there running) (
        omega (
          arith,
          live-ended_at now id inst s there running,
          each-live_le (abort_interrupted_instance fuel now) (abort-live_le fuel now)
              (keys inst.outstanding_calls) (ended_at now id inst s),
        ))
  ]

  -- Two bodies that agree while few instances are live.
  each-agree :
      (limit : ℕ) (f g : Uuid → Engine V → Engine V)
      → ((id : Uuid) (s : Engine V) → live s.instances ≤ limit → f id s ≡ g id s)
      → ((id : Uuid) (s : Engine V) → live (g id s).instances ≤ live s.instances)
      → (ids : List Uuid) (s : Engine V) → live s.instances ≤ limit
      → each f ids s ≡ each g ids s
  unfolding each
  each-agree limit f g agree less [] s few = refl
  each-agree limit f g agree less (id ∷ ids) s few =
      rw (agree id s few) (each-agree limit f g agree less ids (g id s) (omega (arith, less id s)))

  -- With as much fuel as there are live instances, more fuel changes nothing.
  more_fuel :
      (fuel fuel' now : ℕ) (id : Uuid) (s : Engine V)
      → live s.instances ≤ fuel
      → fuel ≤ fuel'
      → abort_interrupted_instance fuel' now id s ≡ abort_interrupted_instance fuel now id s
  more_fuel zero fuel' now id s few more = elim (Call-cases id s) [
    | over done ↦ abort_done fuel' now id s done ∙ sym (abort_done zero now id s done)
    | under_way inst there running ↦
        absurd (omega (arith, live-ended_at now id inst s there running))
  ]
  more_fuel (suc fuel) zero now id s few more = absurd (omega arith)
  more_fuel (suc fuel) (suc fuel') now id s few more = elim (Call-cases id s) [
    | over done ↦ abort_done (suc fuel') now id s done ∙ sym (abort_done (suc fuel) now id s done)
    | under_way inst there running ↦
        abort_running fuel' now id inst s there running
        ∙ each-agree fuel (abort_interrupted_instance fuel' now)
            (abort_interrupted_instance fuel now)
            (λ id s few. more_fuel fuel fuel' now id s few (omega arith)) (abort-live_le fuel now)
            (keys inst.outstanding_calls) (ended_at now id inst s)
            (omega (arith, live-ended_at now id inst s there running))
        ∙ sym (abort_running fuel now id inst s there running)
  ]

  -- What has ended stays so.
  ended_at-Ended :
      (k : Uuid) (now : ℕ) (id : Uuid) (inst : ProcessInstance V) (s : Engine V)
      → Ended s k ⊎ (nat_beq id k ≡ true)
      → Ended (ended_at now id inst s) k
  ended_at-Ended k now id inst s done other found =
      let inserted : get k (insert id (interrupted now inst) s.instances) ≡ some other =
        sym (ap (λ m. get k m) (ended_at_instances now id inst s)) ∙ found in
      let shown = sym (get-insert id k (interrupted now inst) s.instances) ∙ inserted in
      elim (Bool-cases (nat_beq id k)) [
        | inl same ↦
            let own : interrupted now inst ≡ other = ground (arith, same, shown) in
            subst (λ i. is_terminal i.state ≡ true) own (interrupted_terminal now inst)
        | inr apart ↦ elim done [
          | inl before ↦ before other (ground (arith, apart, shown))
          | inr same ↦ cc (same, apart)
        ]
      ]

  abort-keeps_Ended :
      (k : Uuid) (fuel now : ℕ) (id : Uuid) (s : Engine V)
      → Ended s k
      → Ended (abort_interrupted_instance fuel now id s) k
  unfolding abort_interrupted_instance
  abort-keeps_Ended k zero now id s done = done
  abort-keeps_Ended k (suc fuel) now id s done = elim (Call-cases id s) [
    | over finished ↦ subst (λ s'. Ended s' k) (sym (abort_done (suc fuel) now id s finished)) done
    | under_way inst there running ↦
        subst (λ s'. Ended s' k) (sym (abort_running fuel now id inst s there running))
          (each-invariant (abort_interrupted_instance fuel now) (λ s. s) (λ s'. Ended s' k)
            (abort-keeps_Ended k fuel now) (keys inst.outstanding_calls) (ended_at now id inst s)
            (ended_at-Ended k now id inst s (inl done)))
  ]

  -- With enough fuel a call ends its instance.
  abort-Ended :
      (fuel now : ℕ) (id : Uuid) (s : Engine V)
      → live s.instances ≤ fuel
      → Ended (abort_interrupted_instance fuel now id s) id
  abort-Ended zero now id s few = elim (Call-cases id s) [
    | over done ↦ abort-keeps_Ended id zero now id s done
    | under_way inst there running ↦
        absurd (omega (arith, live-ended_at now id inst s there running))
  ]
  abort-Ended (suc fuel) now id s few = elim (Call-cases id s) [
    | over done ↦ abort-keeps_Ended id (suc fuel) now id s done
    | under_way inst there running ↦
        subst (λ s'. Ended s' id) (sym (abort_running fuel now id inst s there running))
          (each-invariant (abort_interrupted_instance fuel now) (λ s. s) (λ s'. Ended s' id)
            (abort-keeps_Ended id fuel now) (keys inst.outstanding_calls) (ended_at now id inst s)
            (ended_at-Ended id now id inst s (inr ((nat_beq_iff id id).1 refl))))
  ]

  each-Ended :
      (fuel now : ℕ) (ids : List Uuid) (s : Engine V)
      → live s.instances ≤ fuel
      → All (Ended (each (abort_interrupted_instance fuel now) ids s)) ids
  unfolding each
  each-Ended fuel now [] s few = tt
  each-Ended fuel now (id ∷ ids) s few = (
    each-invariant (abort_interrupted_instance fuel now) (λ s. s) (λ s'. Ended s' id)
        (abort-keeps_Ended id fuel now) ids (abort_interrupted_instance fuel now id s)
        (abort-Ended fuel now id s few),
    each-Ended fuel now ids (abort_interrupted_instance fuel now id s)
        (omega (arith, abort-live_le fuel now id s)),
  )

  -- Whatever calls call one another, an abort of an instance that is under way ends with at least as
  -- much fuel as instances have not ended: more fuel changes nothing, and the instance has ended, and
  -- so have the instances that it was calling, as far as they are there.
  pub abort_interrupted_instance_ends :
      (fuel fuel' now : ℕ) (id : Uuid) (inst : ProcessInstance V) (s : Engine V)
      → live s.instances ≤ fuel
      → fuel ≤ fuel'
      → get id s.instances ≡ some inst
      → is_terminal inst.state ≡ false
      → (abort_interrupted_instance fuel' now id s ≡ abort_interrupted_instance fuel now id s)
        × Ended (abort_interrupted_instance fuel now id s) id
        × All (Ended (abort_interrupted_instance fuel now id s)) (keys inst.outstanding_calls)
  abort_interrupted_instance_ends fuel fuel' now id inst s few more there running =
      (more_fuel fuel fuel' now id s few more, abort-Ended fuel now id s few, children fuel few)
    where
      children :
          (fuel : ℕ)
          → live s.instances ≤ fuel
          → All (Ended (abort_interrupted_instance fuel now id s)) (keys inst.outstanding_calls)
      children zero few = absurd (omega (arith, live-ended_at now id inst s there running))
      children (suc fuel) few =
          subst (λ s'. All (Ended s') (keys inst.outstanding_calls))
            (sym (abort_running fuel now id inst s there running))
            (each-Ended fuel now (keys inst.outstanding_calls) (ended_at now id inst s)
              (omega (arith, live-ended_at now id inst s there running)))
