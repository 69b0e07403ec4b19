-- ===== src/Tests/State.antt =====
-- The theorems on incidents and on service tasks at concrete inputs.
use bpmninja.Prelude.{
  not, ◌&&◌, ℕ, ◌≤◌, ◌≡◌, ◌≢◌, refl, true, false, none, some, [], ◌∷◌, get, nat_eq, string_eq,
  nat_beq, All, length, arith,
}
use bpmninja.Prelude.Int.{pos, leb_ℤ}
use bpmninja.Domain.Error.{ok}
use bpmninja.Domain.Incident.{IncidentKind, max_incidents_per_instance}
use bpmninja.Runtime.Pending.{PendingServiceTask}
use bpmninja.Runtime.State.{Engine}
use bpmninja.Engine.Incidents.{push_or_touch_incident}
use bpmninja.Engine.Incidents.Dedup.{IsDeduplicated, push_or_touch_incident-IsDeduplicated}
use bpmninja.Engine.TopicIndex.{insert_pending_service_task, remove_pending_service_task_if}
use bpmninja.Engine.TopicIndex.Consistent.{
  IsConsistent, has_topic, insert_pending_service_task-IsConsistent,
  remove_pending_service_task_if-IsConsistent,
}
use bpmninja.Engine.ServiceTask.{
  FetchRequest, ServiceTaskFetchAudience, is_fetchable, request, fetch_and_lock_inner,
}
use bpmninja.Engine.ServiceTask.Locks.{OwnIds, Fetched}
use bpmninja.Engine.ServiceTask.Fetch.{fetch_and_lock_inner-Fetched, fetch_and_lock_inner_exclusive}
use bpmninja.Engine.TaskFailure.{failed_task, fail_service_task_with_retry_timeout, retry_incident}
use bpmninja.Engine.TaskFailure.Reports.{may_have, fail-retry}
use bpmninja.Tests.Samples.{task, empty_engine, engine_with}

push_or_touch_incident-IsDeduplicated_example :
    let (_, after) =
      push_or_touch_incident 8 50 IncidentKind.service_task (some "c") (some 7) "jam" none [] in
    IsDeduplicated after × (length after ≤ max_incidents_per_instance)
push_or_touch_incident-IsDeduplicated_example =
    push_or_touch_incident-IsDeduplicated 8 50 IncidentKind.service_task (some "c") (some 7) "jam"
      none [] (λ _ _ _. omega arith) (omega arith)

abbrev pub free : PendingServiceTask ℕ
free = task none none

abbrev pub held : PendingServiceTask ℕ
held = task (some "w1") (some 30)

empty-IsConsistent : IsConsistent empty_engine
unfolding IsConsistent has_topic get
empty-IsConsistent = (λ t i. refl, λ i t e. cc)

abbrev pub one_task : Engine ℕ
one_task = insert_pending_service_task free empty_engine

insert_pending_service_task-IsConsistent_example : IsConsistent one_task
unfolding get
insert_pending_service_task-IsConsistent_example =
    insert_pending_service_task-IsConsistent free empty_engine empty-IsConsistent refl

pub one_task-IsConsistent : IsConsistent one_task
unfolding get
one_task-IsConsistent =
    insert_pending_service_task-IsConsistent free empty_engine empty-IsConsistent refl

remove_pending_service_task_if-IsConsistent_example :
    IsConsistent (remove_pending_service_task_if 7 (λ t. nat_beq t.token_id 3) one_task).1
remove_pending_service_task_if-IsConsistent_example =
    remove_pending_service_task_if-IsConsistent 7 (λ t. nat_beq t.token_id 3) one_task
      one_task-IsConsistent

engine_with-OwnIds :
    (t : PendingServiceTask ℕ) → t.id ≡ 7 → OwnIds (engine_with t).pending_service_tasks
unfolding get
engine_with-OwnIds t h i u e = ground (arith, e, h)

fetch_and_lock_inner-Fetched_example :
    Fetched
      (request 40 "w1"
        (engine_with free)
        (("print", pos 60) ∷ [])
        ServiceTaskFetchAudience.external_worker)
      5
      (engine_with free).pending_service_tasks
      (fetch_and_lock_inner 40 "w1" 5
        (("print", pos 60) ∷ [])
        ServiceTaskFetchAudience.external_worker
        (engine_with free)).1.pending_service_tasks
      (fetch_and_lock_inner 40 "w1" 5
        (("print", pos 60) ∷ [])
        ServiceTaskFetchAudience.external_worker
        (engine_with free)).0
fetch_and_lock_inner-Fetched_example =
    fetch_and_lock_inner-Fetched 40 "w1" 5 (("print", pos 60) ∷ [])
      ServiceTaskFetchAudience.external_worker (engine_with free) (engine_with-OwnIds free refl)

fetch_and_lock_inner_exclusive_example :
    let (taken, s') =
      fetch_and_lock_inner 40 "w1" 5
        (("print", pos 60) ∷ [])
        ServiceTaskFetchAudience.external_worker
        (engine_with free) in
    let (_, s'') =
      fetch_and_lock_inner 50 "w2" 9
        (("print", pos 1) ∷ [])
        ServiceTaskFetchAudience.external_worker
        s' in
    All (λ t. (get t.id s''.pending_service_tasks ≡ some t) × (t.worker_id ≡ some "w1")) taken
fetch_and_lock_inner_exclusive_example =
    fetch_and_lock_inner_exclusive 40 50 "w1" "w2" 5 9 (("print", pos 60) ∷ [])
      (("print", pos 1) ∷ []) ServiceTaskFetchAudience.external_worker
      ServiceTaskFetchAudience.external_worker (engine_with free) (engine_with-OwnIds free refl)
      (omega arith)

not_true : false ≢ true
not_true e = cc

fail-retry_example :
    let failed = failed_task 60 50 7 none none none 0 held in
    let reported =
      (fail_service_task_with_retry_timeout 60 50 7 "w1" none none none 0 (engine_with held)).1 in
    let (result, s') = retry_incident 7 (some (pos 2)) reported in
    ((r : FetchRequest) → is_fetchable r 7 failed ≡ false)
    × (get 7 reported.pending_service_tasks ≡ some failed)
    × ((result ≡ ok tt)
        × ((u : PendingServiceTask ℕ) × (get 7 s'.pending_service_tasks ≡ some u)
            × (u.topic ≡ "print")
            × ((u.retries ≡ pos 2)
                × ((r : FetchRequest)
                    → is_fetchable r 7 u ≡ (not (leb_ℤ (pos 2) (pos 0)) && may_have r 7 "print")))))
unfolding get
fail-retry_example =
    fail-retry 60 50 7 "w1" none none none 0 (engine_with held) held refl refl (some (pos 2)) refl
