-- ===== src/Engine/ServiceTask/Complete.antt =====
-- A fetch that returns fewer tasks than allowed has left none out.
use bpmninja.Prelude.{
  inl, inr, refl, ap, ◌∙◌, ℕ, ◌<◌, String, ◌≡◌, Bool, true, some, List, [], ◌∷◌, Map, map, get,
  nat_eq, string_eq, nat_beq, nat_beq_iff, eq_iff, ◌==◌, leb, length, any, any-append, arith,
  Bool-cases, Option-cases,
}
use bpmninja.Prelude.Int.{ℤ}
use bpmninja.Domain.Error.{Uuid}
use bpmninja.Runtime.Pending.{PendingServiceTask}
use bpmninja.Runtime.State.{Engine}
use bpmninja.Engine.TopicIndex.{candidate_ids}
use bpmninja.Engine.TopicIndex.Consistent.{IsConsistent, has_topic}
use bpmninja.Engine.TopicIndex.Candidates.{offers, candidate_ids-offers}
use bpmninja.Engine.ServiceTask.{
  FetchRequest, FetchState, ServiceTaskFetchAudience, is_fetchable, fetch_step, fetch_loop, request,
  fetch_and_lock_inner,
}
use bpmninja.Engine.ServiceTask.Claims.{Invariant, fetch_step_keeps}

abbrev pub returned : {V : Type 0} → Uuid → List (PendingServiceTask V) → Bool
returned id result = any (λ t. nat_beq t.id id) result

module _ {V : Type 0} (r : FetchRequest) where
  fetch_step-returned :
      (c : String × Uuid) (st : FetchState V) (id : Uuid)
      → returned id st.result ≡ true
      → returned id (fetch_step r c st).result ≡ true
  unfolding fetch_step
  fetch_step-returned (topic, j) st id there =
      elim (Option-cases (get j st.engine.pending_service_tasks)) [
        | inl missing ↦ rw (missing, fetch_step) there
        | inr (task, found) ↦ elim (Bool-cases (is_fetchable r j task)) [
          | inl free ↦
              rw (found, fetch_step)
                (rw free (rw (any-append (λ t. nat_beq t.id id) st.result _) (rw there refl)))
          | inr busy ↦ rw (found, fetch_step) (rw busy there)
        ]
      ]

  fetch_loop-returned :
      (max_tasks : ℕ) (cs : List (String × Uuid)) (st : FetchState V) (id : Uuid)
      → returned id st.result ≡ true
      → returned id (fetch_loop max_tasks r cs st).result ≡ true
  unfolding fetch_loop
  fetch_loop-returned max_tasks [] st id there = there
  fetch_loop-returned max_tasks (c ∷ cs) st id there =
      elim (Bool-cases (leb max_tasks (length st.result))) [
        | inl full ↦ rw (full, fetch_loop) there
        | inr room ↦
            rw (room, fetch_loop)
              (fetch_loop-returned max_tasks cs (fetch_step r c st) id
                (fetch_step-returned c st id there))
      ]

  module _ (max_tasks : ℕ) (before : Map Uuid (PendingServiceTask V)) (id : Uuid)
      (t : PendingServiceTask V) (pending : get id before ≡ some t) (own : t.id ≡ id)
      (free : is_fetchable r id t ≡ true) where
    -- A candidate that is free, and not returned yet, is returned by its own step.
    fetch_step-claims :
        (topic : String) (st : FetchState V)
        → Invariant r max_tasks before st
        → returned id (fetch_step r (topic, id) st).result ≡ true
    unfolding fetch_step
    fetch_step-claims topic st inv =
        let (u, stored, c) = inv.claimed id t pending in
        elim c [
          | inr (_, there, _) ↦ fetch_step-returned (topic, id) st id there
          | inl unchanged ↦
              rw (stored ∙ ap some unchanged, fetch_step)
                (rw free (
                  rw (any-append (λ t. nat_beq t.id id) st.result _)
                    (ground (arith, own, nat_beq_iff t.id id))))
        ]

    fetch_loop-claims :
        (cs : List (String × Uuid)) (st : FetchState V)
        → Invariant r max_tasks before st
        → offers id cs ≡ true
        → length (fetch_loop max_tasks r cs st).result < max_tasks
        → returned id (fetch_loop max_tasks r cs st).result ≡ true
    unfolding fetch_loop
    fetch_loop-claims [] st inv offered short = cc
    fetch_loop-claims ((topic, j) ∷ cs) st inv offered short =
        elim (Bool-cases (leb max_tasks (length st.result))) [
          | inl full ↦
              let short' = rw (full, fetch_loop) at short in absurd (ground (arith, full, short'))
          | inr room ↦
              let st' = fetch_step r (topic, j) st in
              let inv' = fetch_step_keeps r max_tasks before (topic, j) st (ground arith) inv in
              rw (room, fetch_loop)
                (elim (Bool-cases (nat_beq j id)) [
                  | inl same ↦ fetch_loop-returned max_tasks cs st' id (
                      ap (λ k. returned id (fetch_step r (topic, k) st).result)
                        ((nat_beq_iff j id).0 same)
                      ∙ fetch_step-claims topic st inv)
                  | inr other ↦
                      fetch_loop-claims cs st' inv' (ground arith) (rw (room, fetch_loop) at short)
                ])
        ]

any-topics :
    (topics : Map String ℤ) (topic : String)
    → any (λ t. t.0 == topic) topics ≡ true
    → any (λ t. t == topic) (map (λ t. t.0) topics) ≡ true
any-topics [] topic h = cc
any-topics (t ∷ topics) topic h = ground (arith, any-topics topics topic)

-- If a fetch returns fewer than `max_tasks` tasks, then every pending task that has a requested topic
-- and is free for the request is among them. The hypothesis on the state: the topic index and the
-- pending tasks are consistent.
pub fetch_and_lock_inner_complete :
    {V : Type 0} (now : ℕ) (worker_id : String) (max_tasks : ℕ) (topics : Map String ℤ)
    (audience : ServiceTaskFetchAudience) (s : Engine V) (id : Uuid) (t : PendingServiceTask V)
    → IsConsistent s
    → get id s.pending_service_tasks ≡ some t
    → any (λ e. e.0 == t.topic) topics ≡ true
    → is_fetchable (request now worker_id s topics audience) id t ≡ true
    → length (fetch_and_lock_inner now worker_id max_tasks topics audience s).0 < max_tasks
    → returned id (fetch_and_lock_inner now worker_id max_tasks topics audience s).0 ≡ true
unfolding fetch_and_lock_inner IsConsistent has_topic
fetch_and_lock_inner_complete now worker_id max_tasks topics audience s id t (agree, own) pending
      asked free short =
    fetch_loop-claims (request now worker_id s topics audience) max_tasks s.pending_service_tasks id
      t pending (own id t pending) free
      (candidate_ids s.service_task_topic_index (map (λ t. t.0) topics))
      (record { engine = s; result = []; to_persist = [] })
      (record {
        bounded = omega arith;
        own = own;
        granted = tt;
        claimed = λ id t e. (t, e, inl refl);
      })
      (candidate_ids-offers s.service_task_topic_index (map (λ t. t.0) topics) t.topic id
        (any-topics topics t.topic asked)
        (agree t.topic id ∙ rw pending ((eq_iff t.topic t.topic).1 refl)))
      short
