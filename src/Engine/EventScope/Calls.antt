-- ===== src/Engine/EventScope/Calls.antt =====
-- The cases of a call of `abort_interrupted_instance` (engine-core/src/engine/event_subprocess.rs).
use bpmninja.Prelude.{
  ℕ, zero, suc, ◌≤◌, ◌≡◌, refl, ◌∙◌, ap, subst, true, false, not, some, List, [], ◌∷◌, Map, get,
  insert, keys, nat_eq, nat_beq, length, select, arith, Bool-cases, Option-cases, inl, inr,
}
use bpmninja.Domain.Error.{Uuid}
use bpmninja.Runtime.Instance.{ProcessInstance}
use bpmninja.Runtime.State.{Engine, emit, persist_instance}
use bpmninja.Engine.Incidents.{push_audit_log}
use bpmninja.Engine.Waits.{each, cancel_scope_waits}
use bpmninja.Engine.Waits.Cancelled.{cancel_scope_waits_instances}
use bpmninja.Engine.EventScope.{is_terminal}
use bpmninja.Engine.EventScope.Handler.{interrupted, abort_interrupted_instance}

module _ {V : Type 0} where
  -- How many instances have not ended.
  abbrev pub live : Map Uuid (ProcessInstance V) → ℕ
  live m = length (select (λ e. not (is_terminal e.1.state)) m)

  pub live-insert :
      (id : Uuid) (inst ended : ProcessInstance V) (m : Map Uuid (ProcessInstance V))
      → get id m ≡ some inst
      → is_terminal inst.state ≡ false
      → is_terminal ended.state ≡ true
      → suc (live (insert id ended m)) ≡ live m
  unfolding get insert
  live-insert id inst ended [] there running done = cc
  live-insert id inst ended ((i, x) ∷ m) there running done = elim (Bool-cases (nat_beq i id)) [
    | inl same ↦ ground (arith, same)
    | inr other ↦ ground (arith, other, live-insert id inst ended m)
  ]

  -- The engine in which the children are aborted.
  abbrev pub ended_at : ℕ → Uuid → ProcessInstance V → Engine V → Engine V
  ended_at now id inst s = emit (persist_instance id) (
      cancel_scope_waits id (record s { instances = insert id (interrupted now inst) s.instances }))

  pub ended_at_instances :
      (now : ℕ) (id : Uuid) (inst : ProcessInstance V) (s : Engine V)
      → (ended_at now id inst s).instances ≡ insert id (interrupted now inst) s.instances
  ended_at_instances now id inst s =
      cancel_scope_waits_instances id
        (record s { instances = insert id (interrupted now inst) s.instances })

  pub interrupted_terminal :
      (now : ℕ) (inst : ProcessInstance V) → is_terminal (interrupted now inst).state ≡ true
  unfolding interrupted push_audit_log
  interrupted_terminal now inst = refl

  -- The two cases of a call with fuel.
  pub abort_done :
      (fuel now : ℕ) (id : Uuid) (s : Engine V)
      → ((inst : ProcessInstance V)
          → get id s.instances ≡ some inst
          → is_terminal inst.state ≡ true)
      → abort_interrupted_instance fuel now id s ≡ s
  unfolding abort_interrupted_instance
  abort_done zero now id s done = refl
  abort_done (suc fuel) now id s done = elim (Option-cases (get id s.instances)) [
    | inl missing ↦ rw (missing, abort_interrupted_instance) refl
    | inr (inst, there) ↦ rw (there, abort_interrupted_instance) (rw (done inst there, ◌≡◌) refl)
  ]

  pub abort_running :
      (fuel now : ℕ) (id : Uuid) (inst : ProcessInstance V) (s : Engine V)
      → get id s.instances ≡ some inst
      → is_terminal inst.state ≡ false
      → abort_interrupted_instance (suc fuel) now id s
        ≡ each
            (abort_interrupted_instance fuel now)
            (keys inst.outstanding_calls)
            (ended_at now id inst s)
  unfolding abort_interrupted_instance
  abort_running fuel now id inst s there running =
      rw (there, abort_interrupted_instance) (rw (running, ◌≡◌) refl)

  pub each-live_le :
      (f : Uuid → Engine V → Engine V)
      → ((id : Uuid) (s : Engine V) → live (f id s).instances ≤ live s.instances)
      → (ids : List Uuid) (s : Engine V) → live (each f ids s).instances ≤ live s.instances
  unfolding each
  each-live_le f less [] s = omega arith
  each-live_le f less (id ∷ ids) s = omega (arith, less id s, each-live_le f less ids (f id s))

  -- A running instance that is ended is one less.
  pub live-ended_at :
      (now : ℕ) (id : Uuid) (inst : ProcessInstance V) (s : Engine V)
      → get id s.instances ≡ some inst
      → is_terminal inst.state ≡ false
      → suc (live (ended_at now id inst s).instances) ≡ live s.instances
  live-ended_at now id inst s there running =
      ap (λ m. suc (live m)) (ended_at_instances now id inst s)
      ∙ live-insert id inst (interrupted now inst) s.instances there running
          (interrupted_terminal now inst)

  -- The instance has ended, if it is there.
  abbrev pub Ended : Engine V → Uuid → Type 0
  Ended s id =
      (inst : ProcessInstance V) → get id s.instances ≡ some inst → is_terminal inst.state ≡ true

  pub data Call (id : Uuid) (s : Engine V) : Type 0 where
    over : Ended s id → Call id s
    under_way :
        (inst : ProcessInstance V)
        → get id s.instances ≡ some inst
        → is_terminal inst.state ≡ false
        → Call id s

  pub Call-cases : (id : Uuid) (s : Engine V) → Call id s
  Call-cases id s = elim (Option-cases (get id s.instances)) [
    | inl missing ↦ over (λ inst there. cc)
    | inr (inst, there) ↦ elim (Bool-cases (is_terminal inst.state)) [
      | inl done ↦ over (λ other found.
          let same : inst ≡ other = cc in subst (λ i. is_terminal i.state ≡ true) same done)
      | inr running ↦ under_way inst there running
    ]
  ]
