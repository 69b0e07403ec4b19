-- ===== src/Engine/TaskLock.antt =====
-- engine-core/src/engine/service_task.rs: `extend_lock`.
pub mod Extension
use bpmninja.Prelude.{ℕ, ◌+◌, String, Option, none, some, Map, get, insert, nat_eq}
use bpmninja.Prelude.Int.{ℤ}
use bpmninja.Domain.Error.{Uuid, EngineResult, ok, err, service_task_not_found}
use bpmninja.Runtime.Pending.{PendingServiceTask}
use bpmninja.Runtime.State.{Engine, persist_service_task, emit}
use bpmninja.Engine.ServiceTask.{lock_time_delta, verify_lock_ownership}

module _ {V : Type 0} where
  abbrev pub relock : (expiration : ℕ) → PendingServiceTask V → PendingServiceTask V
  relock expiration task = record task { lock_expiration = some expiration }

  unfoldable pub extend_lock :
      (now : ℕ) (task_id : Uuid) (worker_id : String) (additional_duration : ℤ)
      → Engine V
      → EngineResult (Unit {0}) × Engine V
  unfolding verify_lock_ownership lock_time_delta
  extend_lock now task_id worker_id additional_duration s =
      elim (get task_id s.pending_service_tasks) [
        | none ↦ (err (service_task_not_found task_id), s)
        | some task ↦ elim (verify_lock_ownership task_id task.worker_id worker_id) [
          | err e ↦ (err e, s)
          | ok _ ↦ (
            ok tt,
            emit (persist_service_task task_id) (record s {
              pending_service_tasks =
                  insert task_id (relock (now + lock_time_delta additional_duration) task)
                    s.pending_service_tasks;
            }),
          )
        ]
      ]
