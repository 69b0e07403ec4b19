-- ===== src/Engine/ServiceTask/Fetch.antt =====
-- What a fetch does to the pending tasks.
use bpmninja.Prelude.{
  inl, ℕ, ◌+◌, ◌<◌, String, ◌≡◌, refl, some, List, [], ◌∷◌, Map, map, get, nat_eq, string_eq, arith,
  All, All-mono,
}
use bpmninja.Prelude.Int.{ℤ}
use bpmninja.Domain.Error.{Uuid}
use bpmninja.Runtime.State.{Engine}
use bpmninja.Engine.TopicIndex.{candidate_ids}
use bpmninja.Engine.ServiceTask.{
  ServiceTaskFetchAudience, second, persist_all, request, fetch_and_lock_inner,
}
use bpmninja.Engine.ServiceTask.Locks.{OwnIds, Fetched, hidden_kept}
use bpmninja.Engine.ServiceTask.Claims.{fetch_loop_keeps}

persist_all-tasks :
    {V : Type 0} (ids : List Uuid) (s : Engine V)
    → (persist_all ids s).pending_service_tasks ≡ s.pending_service_tasks
unfolding persist_all
persist_all-tasks [] s = refl
persist_all-tasks (id ∷ ids) s = persist_all-tasks ids _

-- A fetch returns at most `max_tasks` tasks. Each is stored as it is returned, under a lock of the
-- worker that ends 1 to 3600 seconds from now. Each task that was pending is still so, and it is
-- unchanged, or it was free for this audience and is now locked and returned. The hypothesis:
-- pending tasks stand under their own identifiers.
pub fetch_and_lock_inner-Fetched :
    {V : Type 0} (now : ℕ) (worker_id : String) (max_tasks : ℕ) (topics : Map String ℤ)
    (audience : ServiceTaskFetchAudience) (s : Engine V)
    → OwnIds s.pending_service_tasks
    → Fetched
        (request now worker_id s topics audience)
        max_tasks
        s.pending_service_tasks
        (fetch_and_lock_inner now worker_id max_tasks topics audience s).1.pending_service_tasks
        (fetch_and_lock_inner now worker_id max_tasks topics audience s).0
unfolding fetch_and_lock_inner
fetch_and_lock_inner-Fetched now worker_id max_tasks topics audience s own =
    rw (persist_all-tasks _ _) (
      fetch_loop_keeps (request now worker_id s topics audience) max_tasks s.pending_service_tasks
        (candidate_ids s.service_task_topic_index (map (λ t. t.0) topics))
        (record { engine = s; result = []; to_persist = [] })
        (record {
          bounded = omega arith;
          own = own;
          granted = tt;
          claimed = λ id t e. (t, e, inl refl);
        }))

-- Until a second has gone by, a second fetch, by whichever worker and for whichever topics, leaves
-- every task that the first returned as it is: locked by the first worker. The hypothesis: pending
-- tasks stand under their own identifiers.
pub fetch_and_lock_inner_exclusive :
    {V : Type 0} (now later : ℕ) (worker_id other : String) (max_tasks max_tasks' : ℕ)
    (topics topics' : Map String ℤ) (audience audience' : ServiceTaskFetchAudience) (s : Engine V)
    → OwnIds s.pending_service_tasks
    → later < now + second
    → let (taken, s') = fetch_and_lock_inner now worker_id max_tasks topics audience s in
      let (_, s'') = fetch_and_lock_inner later other max_tasks' topics' audience' s' in
      All
        (λ t. (get t.id s''.pending_service_tasks ≡ some t) × (t.worker_id ≡ some worker_id))
        taken
fetch_and_lock_inner_exclusive now later worker_id other m m' topics topics' audience audience' s
      own soon =
    let first = fetch_and_lock_inner-Fetched now worker_id m topics audience s own in
    let s' = (fetch_and_lock_inner now worker_id m topics audience s).1 in
    let second_fetch = fetch_and_lock_inner-Fetched later other m' topics' audience' s' first.own in
    All-mono
      (λ t (stored, by, (lock, (n, low, high, e), held)). (
        hidden_kept (request later other s' topics' audience') m' s'.pending_service_tasks _ _
            second_fetch t.id t (now + lock) (omega arith) held stored,
        by,
      ))
      _ first.granted
