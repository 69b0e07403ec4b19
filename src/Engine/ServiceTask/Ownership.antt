-- ===== src/Engine/ServiceTask/Ownership.antt =====
-- `verify_lock_ownership` accepts the holder of the lock and nobody else.
use bpmninja.Prelude.{
  inl, inr, String, ◌≡◌, ◌≢◌, refl, ap, Option, none, some, eq_iff, ◌==◌, string_eq, arith,
  Bool-cases,
}
use bpmninja.Domain.Error.{Uuid, EngineError, ok, err, service_task_locked}
use bpmninja.Engine.ServiceTask.{verify_lock_ownership}

pub verify-own :
    (task_id : Uuid) (worker_id : String)
    → verify_lock_ownership task_id (some worker_id) worker_id ≡ ok tt
unfolding verify_lock_ownership
verify-own task_id worker_id = ground (arith, eq_iff worker_id worker_id)

pub verify-other :
    (task_id : Uuid) (locked : Option String) (worker_id : String)
    → locked ≢ some worker_id
    → (e : EngineError) × (verify_lock_ownership task_id locked worker_id ≡ err e)
unfolding verify_lock_ownership
verify-other task_id none worker_id h = (_, refl)
verify-other task_id (some by) worker_id h = elim (Bool-cases (by == worker_id)) [
  | inl same ↦ absurd (h (ap some ((eq_iff by worker_id).0 same)))
  | inr other ↦ (service_task_locked task_id by, rw other refl)
]
