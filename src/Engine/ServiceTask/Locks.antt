-- ===== src/Engine/ServiceTask/Locks.antt =====
-- Locks on service tasks, and what a fetch may do to a task.
use bpmninja.Prelude.{
  inl, inr, ℕ, ◌+◌, ◌*◌, ◌≤◌, ◌<◌, ◌≡◌, refl, ap, ◌∙◌, ◌⊎◌, true, false, some, List, Map, get,
  nat_eq, string_eq, nat_beq, length, any, arith, All,
}
use bpmninja.Prelude.Int.{ℤ, pos, negsuc}
use bpmninja.Domain.Error.{Uuid}
use bpmninja.Runtime.Pending.{PendingServiceTask}
use bpmninja.Engine.ServiceTask.{
  FetchRequest, second, lock_task, is_fetchable, lock_time_delta, has_elapsed,
}

-- A lock of 1 to 3600 seconds.
abbrev pub IsLockTime : ℕ → Type 0
IsLockTime lock = (n : ℕ) × (1 ≤ n) × (n ≤ 3600) × (lock ≡ n * second)

pub lock_time_delta-IsLockTime : (seconds : ℤ) → IsLockTime (lock_time_delta seconds)
unfolding lock_time_delta
lock_time_delta-IsLockTime (negsuc n) = (1, omega arith, omega arith, refl)
lock_time_delta-IsLockTime (pos n) = (_, omega arith, omega arith, refl)

-- Tasks stand under their own identifiers.
abbrev pub OwnIds : {V : Type 0} → Map Uuid (PendingServiceTask V) → Type 0
OwnIds tasks = (id : Uuid) (t : PendingServiceTask _) → get id tasks ≡ some t → t.id ≡ id

pub lock_future : (now lock : ℕ) → IsLockTime lock → now < now + lock
lock_future now lock (n, low, high, e) = omega arith

module _ {V : Type 0} (r : FetchRequest) where
  -- What became of a task: nothing, or it was free and the request holds it and returns it.
  abbrev pub Claimed :
      List (PendingServiceTask V) → Uuid → (before after : PendingServiceTask V) → Type 0
  Claimed result id before after =
      (after ≡ before)
      ⊎ (is_fetchable r id before ≡ true)
        × (any (λ t. nat_beq t.id id) result ≡ true)
        × ((lock : ℕ) × IsLockTime lock × (after ≡ lock_task r lock before))

  -- A returned task is the stored one, and the worker has it for 1 to 3600 seconds.
  abbrev pub Granted : Map Uuid (PendingServiceTask V) → PendingServiceTask V → Type 0
  Granted tasks t =
      (get t.id tasks ≡ some t)
      × (t.worker_id ≡ some r.worker_id)
      × ((lock : ℕ) × IsLockTime lock × (t.lock_expiration ≡ some (r.now + lock)))

  pub record Fetched (max_tasks : ℕ) (before after : Map Uuid (PendingServiceTask V))
      (result : List (PendingServiceTask V)) : Type 0 where
    pub bounded : length result ≤ max_tasks
    pub own : OwnIds after
    pub granted : All (Granted after) result
    pub claimed :
        (id : Uuid) (t : PendingServiceTask V)
        → get id before ≡ some t
        → (u : PendingServiceTask V) × (get id after ≡ some u) × Claimed result id t u

  -- A lock that ends later than the request hides the task from it.
  pub locked_busy :
      (id : Uuid) (t : PendingServiceTask V) (at : ℕ)
      → r.now < at
      → t.lock_expiration ≡ some at
      → is_fetchable r id t ≡ false
  unfolding is_fetchable
  locked_busy id t at later held = ground (arith, held, ap (has_elapsed r.now) held)

  -- A task that is hidden from a request stays.
  pub hidden_kept :
      (max_tasks : ℕ) (before after : Map Uuid (PendingServiceTask V))
      (result : List (PendingServiceTask V))
      → Fetched max_tasks before after result
      → (id : Uuid) (t : PendingServiceTask V) (at : ℕ) → r.now < at
      → t.lock_expiration ≡ some at
      → get id before ≡ some t
      → get id after ≡ some t
  hidden_kept max_tasks before after result fetched id t at later held e =
      let (u, found, c) = fetched.claimed id t e in
      elim c [
        | inl unchanged ↦ found ∙ ap some unchanged
        | inr (free, _, _) ↦ absurd (ground (arith, free, locked_busy id t at later held))
      ]
