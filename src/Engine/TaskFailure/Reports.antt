-- ===== src/Engine/TaskFailure/Reports.antt =====
-- What a reported failure and a retry do to the task.
use bpmninja.Prelude.{
  ◌&&◌, not, inl, inr, ℕ, ◌+◌, ◌≤◌, String, ◌≡◌, refl, ◌∙◌, Bool, true, false, Option, none, some,
  get, get-insert_self, get-insert, nat_eq, string_eq, nat_beq, nat_beq_iff, ◌==◌, ◌≢◌,
  if◌then◌else◌, arith, Option-cases, any, ◌/◌, ◌*◌, leb, min,
}
use bpmninja.Prelude.Int.{ℤ, pos, leb_ℤ, i32_pred}
use bpmninja.Domain.Error.{Uuid, EngineResult, EngineError, ok, err, service_task_not_found}
use bpmninja.Runtime.Pending.{PendingServiceTask}
use bpmninja.Runtime.State.{Engine, emit, notify_service_tasks}
use bpmninja.Engine.ServiceTask.Ownership.{verify-own, verify-other}
use bpmninja.Engine.ServiceTask.{
  is_fetchable, FetchRequest, claimable, millisecond, max_retry_after, retry_lock_expiration,
}
use bpmninja.Engine.TopicIndex.{member}
use bpmninja.Engine.TaskFailure.{
  unwrap_or, log_retry, failed_task, raise_incident, fail_service_task_with_retry_timeout,
  retry_incident, retried_task,
}

-- The topic is open to the audience, and no handler is working on the task.
abbrev pub may_have : FetchRequest → Uuid → String → Bool
may_have r task_id topic =
    not (member task_id r.inflight) && claimable r.audience (any (λ t. t == topic) r.handlers)

module _ {V : Type 0} where
  raise_incident-tasks :
      (now : ℕ) (new_id task_id : Uuid) (task : PendingServiceTask V) (s : Engine V)
      → (raise_incident now new_id task_id task s).pending_service_tasks ≡ s.pending_service_tasks
  unfolding raise_incident
  raise_incident-tasks now new_id task_id task s =
      elim (Option-cases (get task.instance_id s.instances)) [
        | inl missing ↦ rw (missing, raise_incident) refl
        | inr (inst, found) ↦ rw (found, raise_incident) refl
      ]

  reported-tasks :
      (exhausted : Bool) (now : ℕ) (new_id task_id : Uuid) (task : PendingServiceTask V)
      (s : Engine V)
      → (if exhausted
          then raise_incident now new_id task_id task s
          else emit notify_service_tasks s).pending_service_tasks
        ≡ s.pending_service_tasks
  reported-tasks true now new_id task_id task s = raise_incident-tasks now new_id task_id task s
  reported-tasks false now new_id task_id task s = refl

  module _ (now : ℕ) (new_id task_id : Uuid) (worker_id : String) (retries : Option ℤ)
      (message details : Option String) (retry_after : ℕ) (s : Engine V) where
    abbrev outcome : EngineResult (Unit {0}) × Engine V
    outcome =
        fail_service_task_with_retry_timeout now new_id task_id worker_id retries message details
          retry_after s

    -- A report by a worker that does not hold the lock of the task is refused, and changes nothing.
    fail_service_task_refused :
        ((task : PendingServiceTask V)
          → get task_id s.pending_service_tasks ≡ some task
          → task.worker_id ≢ some worker_id)
        → (e : EngineError) × (outcome ≡ (err e, s))
    unfolding fail_service_task_with_retry_timeout
    fail_service_task_refused h = elim (Option-cases (get task_id s.pending_service_tasks)) [
      | inl missing ↦
          (service_task_not_found task_id, rw (missing, fail_service_task_with_retry_timeout) refl)
      | inr (task, found) ↦
          let (e, v) = verify-other task_id task.worker_id worker_id (h task found) in
          (e, rw (found, fail_service_task_with_retry_timeout) (rw v refl))
    ]

    -- A report by the worker that holds the lock is accepted. It stores the failed task, and no
    -- other pending task changes.
    pub fail_service_task_accepted :
        (task : PendingServiceTask V)
        → get task_id s.pending_service_tasks ≡ some task
        → task.worker_id ≡ some worker_id
        → (outcome.0 ≡ ok tt)
          × ((id : Uuid)
              → get id outcome.1.pending_service_tasks ≡ (
                  if nat_beq task_id id
                  then some
                      (failed_task now new_id task_id retries message details retry_after task)
                  else get id s.pending_service_tasks))
    unfolding fail_service_task_with_retry_timeout
    fail_service_task_accepted task found own =
        rw (found, fail_service_task_with_retry_timeout)
          (rw own (
            rw (verify-own task_id worker_id) (
              refl,
              λ id.
                  rw (reported-tasks _ now new_id task_id _ _)
                    (get-insert task_id id _ s.pending_service_tasks),
            )))

  log_retry-tasks :
      (task : PendingServiceTask V) (s : Engine V)
      → (log_retry task s).pending_service_tasks ≡ s.pending_service_tasks
  log_retry-tasks task s = elim (Option-cases (get task.instance_id s.instances)) [
    | inl missing ↦ rw (missing, log_retry) refl
    | inr (inst, found) ↦ rw (found, log_retry) refl
  ]

  retry_incident_accepted :
      (task_id : Uuid) (new_retries : Option ℤ) (task : PendingServiceTask V) (s : Engine V)
      → get task_id s.pending_service_tasks ≡ some task
      → leb_ℤ task.retries (pos 0) ≡ true
      → ((retry_incident task_id new_retries s).0 ≡ ok tt)
        × (get task_id (retry_incident task_id new_retries s).1.pending_service_tasks
            ≡ some (retried_task new_retries task))
  unfolding retry_incident
  retry_incident_accepted task_id new_retries task s found exhausted =
      rw (found, retry_incident)
        (rw exhausted
          (refl, rw (log_retry-tasks _ _) (get-insert_self task_id _ s.pending_service_tasks)))

  -- A task without retries, or within its retry delay, is not fetched.
  exhausted_hidden :
      (r : FetchRequest) (task_id : Uuid) (task : PendingServiceTask V)
      → leb_ℤ task.retries (pos 0) ≡ true
      → is_fetchable r task_id task ≡ false
  unfolding is_fetchable
  exhausted_hidden r task_id task exhausted = rw exhausted refl

  retried_fetchable :
      (r : FetchRequest) (task_id : Uuid) (given : ℤ) (task : PendingServiceTask V)
      → is_fetchable r task_id (retried_task (some given) task)
        ≡ (not (leb_ℤ given (pos 0)) && may_have r task_id task.topic)
  unfolding is_fetchable retried_task
  retried_fetchable r task_id given task = ground arith

  default_fetchable :
      (r : FetchRequest) (task_id : Uuid) (task : PendingServiceTask V)
      → is_fetchable r task_id (retried_task none task) ≡ may_have r task_id task.topic
  unfolding is_fetchable retried_task
  default_fetchable r task_id task = ground arith

  module _ (now : ℕ) (new_id task_id : Uuid) (worker_id : String) (retries : Option ℤ)
      (message details : Option String) (retry_after : ℕ) (s : Engine V)
      (task : PendingServiceTask V) (found : get task_id s.pending_service_tasks ≡ some task)
      (own : task.worker_id ≡ some worker_id) where
    -- Who can fetch a task after a retry.
    abbrev pub Allows : Option ℤ → PendingServiceTask V → Type 0
    Allows none u =
        (u.retries ≡ pos 3)
        × ((r : FetchRequest) → is_fetchable r task_id u ≡ may_have r task_id task.topic)
    Allows (some n) u =
        (u.retries ≡ n)
        × ((r : FetchRequest)
            → is_fetchable r task_id u ≡ (not (leb_ℤ n (pos 0)) && may_have r task_id task.topic))

    abbrev failed : PendingServiceTask V
    failed = failed_task now new_id task_id retries message details retry_after task

    abbrev reported : Engine V
    reported =
        (fail_service_task_with_retry_timeout now new_id task_id worker_id retries message details
          retry_after s).1

    failed_stored : get task_id reported.pending_service_tasks ≡ some failed
    failed_stored =
        let (_, at) =
          fail_service_task_accepted now new_id task_id worker_id retries message details
            retry_after s task found own in
        at task_id ∙ rw ((nat_beq_iff task_id task_id).1 refl) refl

    -- The stored task after a retry, with a given number of retries or with the default of three.
    abbrev pub Retried : Option ℤ → Type 0
    Retried given =
        let (result, s') = retry_incident task_id given reported in
        (result ≡ ok tt)
        × ((u : PendingServiceTask V) × (get task_id s'.pending_service_tasks ≡ some u)
            × (u.topic ≡ task.topic)
            × Allows given u)

    -- When the holder of the lock reports a failure that leaves no retries, no request fetches the
    -- task any more, whatever its time, worker and topics. Once the incident is retried, the task has
    -- the given number of retries, or three by default, and exactly those requests can fetch it that
    -- may have its topic while no handler in the process is working on it, if that number is
    -- positive; with any other number no request can.
    pub fail-retry :
        (given : Option ℤ)
        → leb_ℤ (unwrap_or retries (i32_pred task.retries)) (pos 0) ≡ true
        → ((r : FetchRequest) → is_fetchable r task_id failed ≡ false)
          × (get task_id reported.pending_service_tasks ≡ some failed)
          × Retried given
    unfolding failed_task retried_task
    fail-retry given exhausted =
        ((λ r. exhausted_hidden r task_id failed exhausted), failed_stored, retried given)
      where
        retried : (given : Option ℤ) → Retried given
        retried none =
            let (accepted, stored) =
              retry_incident_accepted task_id none failed reported failed_stored exhausted in
            (
              accepted,
              (
                retried_task none failed,
                stored,
                refl,
                (refl, (λ r. default_fetchable r task_id failed)),
              ),
            )
        retried (some n) =
            let (accepted, stored) =
              retry_incident_accepted task_id (some n) failed reported failed_stored exhausted in
            (
              accepted,
              (
                retried_task (some n) failed,
                stored,
                refl,
                (refl, (λ r. retried_fetchable r task_id n failed)),
              ),
            )

    -- When the holder of the lock reports a failure that leaves retries, with a delay from a
    -- millisecond to a day, exactly those requests can fetch the task that come when the delay, in
    -- whole milliseconds, has gone by and that may have its topic while no handler in the process
    -- is working on it.
    pub fail_delays :
        leb_ℤ (unwrap_or retries (i32_pred task.retries)) (pos 0) ≡ false
        → millisecond ≤ retry_after
        → retry_after ≤ max_retry_after
        → (get task_id reported.pending_service_tasks ≡ some failed)
          × ((r : FetchRequest)
              → is_fetchable r task_id failed ≡ (
                  may_have r task_id task.topic
                  && leb (now + retry_after / millisecond * millisecond) r.now))
    unfolding failed_task retry_lock_expiration is_fetchable
    fail_delays left low high =
        let nonzero : nat_beq retry_after 0 ≡ false = ground arith in
        let capped : min retry_after max_retry_after ≡ retry_after = omega arith in
        (failed_stored, λ r. rw left (rw (nonzero, capped) (ground arith)))
