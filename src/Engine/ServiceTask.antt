-- ===== src/Engine/ServiceTask.antt =====
-- engine-core/src/engine/service_task.rs: fetching and locking service tasks. Times and durations are
-- nanoseconds, and `now` is what the clock shows.
pub mod Ownership
pub mod Locks
pub mod Claims
pub mod Fetch
pub mod Complete
use bpmninja.Prelude.{
  ℕ, zero, ◌+◌, ◌*◌, ◌/◌, ◌^◌, min, max, String, Bool, true, false, not, ◌&&◌, Option, none, some,
  List, [], ◌∷◌, ◌++◌, Map, map, get, insert, get_last, nat_eq, string_eq, ◌==◌, if◌then◌else◌,
  is_some, ltb, leb, nat_beq, length, any,
}
use bpmninja.Prelude.Int.{ℤ, pos, negsuc, ◌-ℤ◌, leb_ℤ}
use bpmninja.Domain.Error.{
  Uuid, EngineResult, ok, err, service_task_not_found, service_task_locked, service_task_not_locked,
  invalid_definition, Reason,
}
use bpmninja.Domain.Incident.{IncidentKind}
use bpmninja.Runtime.Pending.{PendingServiceTask}
use bpmninja.Runtime.Instance.{ProcessInstance, AuditEntry, incident_raised, incident_retried}
use bpmninja.Runtime.State.{
  Engine, HistoryEventType, ActorType, persist_instance, persist_service_task, record_history,
  notify_service_tasks, emit,
}
use bpmninja.Engine.Incidents.{push_audit_log, push_or_touch_incident}
use bpmninja.Engine.TopicIndex.{member, index_remove, candidate_ids}

abbrev pub second : ℕ
second = 10 ^ 9

abbrev pub millisecond : ℕ
millisecond = 10 ^ 6

abbrev pub min_lock_seconds : ℕ
min_lock_seconds = 1

abbrev pub max_lock_seconds : ℕ
max_lock_seconds = 3600

abbrev pub fallback_lock_seconds : ℤ
fallback_lock_seconds = pos 30

abbrev pub max_retry_after : ℕ
max_retry_after = 24 * 60 * 60 * second

pub data ServiceTaskFetchAudience : Type 0 where
  external_worker in_process_dispatcher : ServiceTaskFetchAudience

unfoldable pub retry_lock_expiration : (now retry_after : ℕ) → Option ℕ
retry_lock_expiration now retry_after =
    if nat_beq retry_after 0
    then none
    else some (now + min retry_after max_retry_after / millisecond * millisecond)

-- `seconds.clamp(MIN_LOCK_SECONDS, MAX_LOCK_SECONDS)`
abbrev pub clamp_seconds : ℤ → ℕ
clamp_seconds (negsuc n) = min_lock_seconds
clamp_seconds (pos n) = min (max n min_lock_seconds) max_lock_seconds

unfoldable pub lock_time_delta : ℤ → ℕ
lock_time_delta seconds = clamp_seconds seconds * second

unfoldable pub verify_lock_ownership : Uuid → Option String → String → EngineResult (Unit {0})
verify_lock_ownership task_id none worker_id = err (service_task_not_locked task_id)
verify_lock_ownership task_id (some locked_by) worker_id =
    if locked_by == worker_id then ok tt else err (service_task_locked task_id locked_by)

abbrev pub claimable : ServiceTaskFetchAudience → (reserved : Bool) → Bool
claimable ServiceTaskFetchAudience.external_worker reserved = not reserved
claimable ServiceTaskFetchAudience.in_process_dispatcher reserved = reserved

-- Whether a lock or a retry delay has run out.
abbrev pub has_elapsed : (now : ℕ) → Option ℕ → Bool
has_elapsed now none = true
has_elapsed now (some expiration) = leb expiration now

-- What the loop over the candidates changes.
pub record FetchState (V : Type 0) : Type 0 where
  pub engine : Engine V
  pub result : List (PendingServiceTask V)
  pub to_persist : List Uuid

abbrev pub duration_of : Map String ℤ → String → ℤ
duration_of topics topic = elim (get_last topic topics) [
  | none ↦ fallback_lock_seconds
  | some seconds ↦ seconds
]

-- What the loop reads and does not change.
pub record FetchRequest : Type 0 where
  pub now : ℕ
  pub worker_id : String
  pub handlers : List String
  pub inflight : List Uuid
  pub topics : Map String ℤ
  pub audience : ServiceTaskFetchAudience

module _ {V : Type 0} where
  abbrev pub lock_task : FetchRequest → (lock : ℕ) → PendingServiceTask V → PendingServiceTask V
  lock_task r lock task = record task {
    worker_id = some r.worker_id;
    lock_expiration = some (r.now + lock);
  }

  -- The guards of the loop that skip a candidate.
  unfoldable pub is_fetchable : FetchRequest → Uuid → PendingServiceTask V → Bool
  is_fetchable r task_id task =
      not (leb_ℤ task.retries (pos 0))
      && (not (member task_id r.inflight)
          && (claimable r.audience (any (λ t. t == task.topic) r.handlers)
              && has_elapsed r.now task.lock_expiration))

  abbrev pub claim : Uuid → PendingServiceTask V → FetchState V → FetchState V
  claim task_id task st = record {
    engine = record st.engine {
      pending_service_tasks = insert task_id task st.engine.pending_service_tasks;
    };
    result = st.result ++ task ∷ [];
    to_persist = st.to_persist ++ task.id ∷ [];
  }

  -- The body of the loop over the candidates.
  unfoldable pub fetch_step : FetchRequest → String × Uuid → FetchState V → FetchState V
  unfolding is_fetchable lock_time_delta index_remove
  fetch_step r (topic, task_id) st = elim (get task_id st.engine.pending_service_tasks) [
    | none ↦ record st {
      engine = record st.engine {
        service_task_topic_index = index_remove topic task_id st.engine.service_task_topic_index;
      };
    }
    | some task ↦
        if is_fetchable r task_id task
        then claim task_id (lock_task r (lock_time_delta (duration_of r.topics topic)) task) st
        else st
  ]

  unfoldable pub fetch_loop :
      (max_tasks : ℕ) → FetchRequest → List (String × Uuid) → FetchState V → FetchState V
  unfolding fetch_step
  fetch_loop max_tasks r [] st = st
  fetch_loop max_tasks r (c ∷ candidates) st = elim (leb max_tasks (length st.result)) [
    | true ↦ st
    | false ↦ fetch_loop max_tasks r candidates (fetch_step r c st)
  ]

  -- The loop that persists what was locked.
  unfoldable pub persist_all : List Uuid → Engine V → Engine V
  persist_all [] s = s
  persist_all (id ∷ ids) s = persist_all ids (emit (persist_service_task id) s)

  module _ (now : ℕ) (worker_id : String) where
    abbrev pub request : Engine V → Map String ℤ → ServiceTaskFetchAudience → FetchRequest
    request s topics audience = record {
      now = now;
      worker_id = worker_id;
      handlers = s.task_handlers;
      inflight = s.in_process_inflight;
      topics = topics;
      audience = audience;
    }

    unfoldable pub fetch_and_lock_inner :
        (max_tasks : ℕ)
        → Map String ℤ
        → ServiceTaskFetchAudience
        → Engine V
        → List (PendingServiceTask V) × Engine V
    unfolding fetch_loop persist_all candidate_ids
    fetch_and_lock_inner max_tasks topics audience s =
        let candidates = candidate_ids s.service_task_topic_index (map (λ t. t.0) topics) in
        let st =
          fetch_loop max_tasks (request s topics audience) candidates
            (record { engine = s; result = []; to_persist = [] }) in
        (st.result, persist_all st.to_persist st.engine)

    unfoldable pub fetch_and_lock_service_tasks_with_durations :
        (max_tasks : ℕ) → Map String ℤ → Engine V → List (PendingServiceTask V) × Engine V
    unfolding fetch_and_lock_inner
    fetch_and_lock_service_tasks_with_durations max_tasks topics =
        fetch_and_lock_inner max_tasks topics ServiceTaskFetchAudience.external_worker

    unfoldable pub fetch_and_lock_service_tasks :
        (max_tasks : ℕ)
        → List String
        → (lock_duration : ℤ) → Engine V
        → List (PendingServiceTask V) × Engine V
    unfolding fetch_and_lock_service_tasks_with_durations
    fetch_and_lock_service_tasks max_tasks topics lock_duration =
        fetch_and_lock_service_tasks_with_durations max_tasks
          (map (λ topic. (topic, lock_duration)) topics)

    unfoldable pub fetch_and_lock_in_process :
        (max_tasks : ℕ)
        → List String
        → (lock_duration : ℤ) → Engine V
        → List (PendingServiceTask V) × Engine V
    unfolding fetch_and_lock_inner
    fetch_and_lock_in_process max_tasks topics lock_duration =
        fetch_and_lock_inner max_tasks (map (λ topic. (topic, lock_duration)) topics)
          ServiceTaskFetchAudience.in_process_dispatcher
