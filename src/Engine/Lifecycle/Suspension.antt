-- ===== src/Engine/Lifecycle/Suspension.antt =====
-- Suspending and resuming an instance.
use bpmninja.Prelude.{
  ◌≡◌, refl, ◌∙◌, ap, true, false, some, get, insert, get-insert, get-insert_self, nat_eq, nat_beq,
  arith,
}
use bpmninja.Domain.Error.{Uuid, ok}
use bpmninja.Runtime.Instance.{ProcessInstance, InstanceState, instance_paused, instance_unpaused}
use bpmninja.Runtime.State.{Engine}
use bpmninja.Engine.Incidents.{push_audit_log}
use bpmninja.Engine.EventScope.{is_runnable}
use bpmninja.Engine.Lifecycle.{suspended_state, suspend_instance, resume_instance}

module _ {V : Type 0} where
  suspends :
      (id : Uuid) (state : InstanceState V)
      → is_runnable state ≡ true
      → suspended_state id state ≡ ok (InstanceState.suspended state)
  suspends id state h = ground arith

  module _ (id : Uuid) (inst : ProcessInstance V) (s : Engine V)
      (there : get id s.instances ≡ some inst) where
    -- The instance while it is suspended, and after.
    abbrev paused : ProcessInstance V
    paused =
        push_audit_log instance_paused (record inst { state = InstanceState.suspended inst.state })

    abbrev resumed : ProcessInstance V
    resumed = push_audit_log instance_unpaused (record paused { state = inst.state })

    paused_state : paused.state ≡ InstanceState.suspended inst.state
    unfolding push_audit_log
    paused_state = refl

    resumed_same : resumed ≡ record inst { audit_log = resumed.audit_log }
    unfolding push_audit_log
    resumed_same = refl

    suspend_instance_done :
        is_runnable inst.state ≡ true
        → ((suspend_instance id s).0 ≡ ok tt)
          × ((suspend_instance id s).1.instances ≡ insert id paused s.instances)
    unfolding suspend_instance
    suspend_instance_done may =
        rw (there, suspend_instance) (rw (suspends id inst.state may, ◌≡◌) (refl, refl))

    resume_instance_done :
        (s' : Engine V)
        → get id s'.instances ≡ some paused
        → ((resume_instance id s').0 ≡ ok tt)
          × ((resume_instance id s').1.instances ≡ insert id resumed s'.instances)
    unfolding resume_instance push_audit_log
    resume_instance_done s' suspended = rw (suspended, resume_instance) (refl, refl)

  -- Suspending an instance that is there, is not suspended and has not ended, and then resuming it,
  -- succeeds and gives the instance back as it was but for its audit log; in between its state is the
  -- suspended one. Other instances are untouched.
  pub suspend-resume :
      (id : Uuid) (inst : ProcessInstance V) (s : Engine V)
      → get id s.instances ≡ some inst
      → is_runnable inst.state ≡ true
      → let (first, s') = suspend_instance id s in
        let (second, s'') = resume_instance id s' in
        (first ≡ ok tt)
        × (second ≡ ok tt)
        × ((during : ProcessInstance V) × (get id s'.instances ≡ some during)
            × (during.state ≡ InstanceState.suspended inst.state))
        × ((after : ProcessInstance V) × (get id s''.instances ≡ some after)
            × (after ≡ record inst { audit_log = after.audit_log }))
        × ((k : Uuid) → nat_beq id k ≡ false → get k s''.instances ≡ get k s.instances)
  suspend-resume id inst s there may =
      let (accepted, stored) = suspend_instance_done id inst s there may in
      let s' = (suspend_instance id s).1 in
      let found : get id s'.instances ≡ some (paused id inst s there) =
        ap (λ m. get id m) stored ∙ get-insert_self id (paused id inst s there) s.instances in
      let (resumes, back) = resume_instance_done id inst s there s' found in
      (
        accepted,
        resumes,
        (paused id inst s there, found, paused_state id inst s there),
        (
          resumed id inst s there,
          ap (λ m. get id m) back ∙ get-insert_self id (resumed id inst s there) s'.instances,
          resumed_same id inst s there,
        ),
        (λ k other.
            ap (λ m. get k m) back
            ∙ get-insert id k (resumed id inst s there) s'.instances
            ∙ ground (
              arith,
              other,
              ap (λ m. get k m) stored,
              get-insert id k (paused id inst s there) s.instances,
            )),
      )
