-- ===== src/Engine/TaskFailure.antt =====
-- engine-core/src/engine/service_task.rs: a worker reports a failure, and an incident is retried.
pub mod Reports
use bpmninja.Prelude.{
  ℕ, ◌-◌, ◌^◌, String, Bool, true, false, Option, none, some, Map, get, insert, nat_eq,
  if◌then◌else◌,
}
use bpmninja.Prelude.Int.{ℤ, pos, negsuc, ◌-ℤ◌, leb_ℤ, i32_pred}
use bpmninja.Domain.Error.{
  Uuid, EngineResult, EngineError, ok, err, service_task_not_found, invalid_definition, Reason,
}
use bpmninja.Domain.Incident.{IncidentKind}
use bpmninja.Runtime.Pending.{PendingServiceTask}
use bpmninja.Runtime.Instance.{ProcessInstance, AuditEntry, incident_raised, incident_retried}
use bpmninja.Runtime.State.{
  Engine, HistoryEventType, ActorType, persist_instance, persist_service_task, record_history,
  notify_service_tasks, emit,
}
use bpmninja.Engine.Incidents.{push_audit_log, push_or_touch_incident}
use bpmninja.Engine.ServiceTask.{retry_lock_expiration, verify_lock_ownership}

abbrev pub unwrap_or {ℓ} : {A : Type ℓ} → Option A → A → A
unwrap_or none d = d
unwrap_or (some x) d = x

module _ {V : Type 0} where
  abbrev pub store_task : Uuid → PendingServiceTask V → Engine V → Engine V
  store_task task_id task s = record s {
    pending_service_tasks = insert task_id task s.pending_service_tasks;
  }

  -- The two calls that persist a task and its instance.
  abbrev pub persist_both : (task_id instance_id : Uuid) → Engine V → Engine V
  persist_both task_id instance_id s =
      emit (persist_instance instance_id) (emit (persist_service_task task_id) s)

  module _ (now : ℕ) (new_id task_id : Uuid) where
    -- The task after a failure.
    unfoldable pub failed_task :
        Option ℤ
        → (error_message error_details : Option String) → (retry_after : ℕ) → PendingServiceTask V
        → PendingServiceTask V
    unfolding retry_lock_expiration
    failed_task retries error_message error_details retry_after task =
        let new_retries = unwrap_or retries (i32_pred task.retries) in
        record task {
          retries = new_retries;
          error_message = error_message;
          error_details = error_details;
          worker_id = none;
          lock_expiration =
              if leb_ℤ new_retries (pos 0) then none else retry_lock_expiration now retry_after;
        }

    -- The incident of a task without retries.
    unfoldable pub raise_incident : PendingServiceTask V → Engine V → Engine V
    unfolding push_audit_log push_or_touch_incident
    raise_incident task s = elim (get task.instance_id s.instances) [
      | none ↦ s
      | some inst ↦
          let msg = unwrap_or task.error_message "Unknown error" in
          let logged = push_audit_log (incident_raised task.node_id msg) inst in
          let (_, is) =
            push_or_touch_incident now new_id IncidentKind.service_task (some task.node_id)
              (some task_id) msg task.error_details logged.incidents in
          record s {
            instances = insert task.instance_id (record logged { incidents = is }) s.instances;
          }
    ]

    unfoldable pub fail_service_task_with_retry_timeout :
        (worker_id : String)
        → Option ℤ
        → (error_message error_details : Option String) → (retry_after : ℕ) → Engine V
        → EngineResult (Unit {0}) × Engine V
    unfolding verify_lock_ownership failed_task raise_incident
    fail_service_task_with_retry_timeout worker_id retries error_message error_details retry_after
          s =
        elim (get task_id s.pending_service_tasks) [
          | none ↦ (err (service_task_not_found task_id), s)
          | some task ↦ elim (verify_lock_ownership task_id task.worker_id worker_id) [
            | err e ↦ (err e, s)
            | ok _ ↦
                let failed = failed_task retries error_message error_details retry_after task in
                let stored = store_task task_id failed s in
                let reported =
                  if leb_ℤ failed.retries (pos 0)
                  then raise_incident failed stored
                  else emit notify_service_tasks stored in
                let recorded =
                  emit
                    (record_history failed.instance_id HistoryEventType.error
                      ActorType.service_worker (some worker_id))
                    reported in
                (ok tt, persist_both task_id failed.instance_id recorded)
          ]
        ]

    unfoldable pub fail_service_task :
        (worker_id : String)
        → Option ℤ
        → (error_message error_details : Option String) → Engine V
        → EngineResult (Unit {0}) × Engine V
    unfolding fail_service_task_with_retry_timeout
    fail_service_task worker_id retries error_message error_details =
        fail_service_task_with_retry_timeout worker_id retries error_message error_details 0

  -- The task after an incident is retried.
  unfoldable pub retried_task : Option ℤ → PendingServiceTask V → PendingServiceTask V
  retried_task new_retries task = record task {
    retries = unwrap_or new_retries (pos 3);
    error_message = none;
    error_details = none;
    worker_id = none;
    lock_expiration = none;
  }

  abbrev pub log_retry : PendingServiceTask V → Engine V → Engine V
  log_retry task s = elim (get task.instance_id s.instances) [
    | none ↦ s
    | some inst ↦ record s {
      instances =
          insert task.instance_id (push_audit_log (incident_retried task.node_id task.retries) inst)
            s.instances;
    }
  ]

  unfoldable pub retry_incident :
      (task_id : Uuid) → Option ℤ → Engine V → EngineResult (Unit {0}) × Engine V
  unfolding retried_task push_audit_log
  retry_incident task_id new_retries s = elim (get task_id s.pending_service_tasks) [
    | none ↦ (err (service_task_not_found task_id), s)
    | some task ↦
        let retried = retried_task new_retries task in
        let logged = log_retry retried (store_task task_id retried s) in
        let recorded =
          emit
            (record_history retried.instance_id HistoryEventType.task_completed ActorType.user none)
            logged in
        if leb_ℤ task.retries (pos 0)
        then (ok tt, emit notify_service_tasks (persist_both task_id retried.instance_id recorded))
        else (err (invalid_definition Reason.not_an_incident), s)
  ]
