-- ===== src/Engine/ServiceTask/Claims.antt =====
-- The loop over the candidates keeps what a fetch promises.
use bpmninja.Prelude.{
  inl, inr, sym, ℕ, suc, ◌+◌, ◌≤◌, String, ◌≡◌, refl, ap, ◌∙◌, true, false, some, List, [], ◌∷◌,
  ◌++◌, Map, get, insert, get-insert, nat_eq, string_eq, nat_beq, nat_beq_iff, leb, length,
  length-append, any, any-append, arith, Bool-cases, Option-cases, All-append, All-mono,
}
use bpmninja.Domain.Error.{Uuid}
use bpmninja.Runtime.Pending.{PendingServiceTask}
use bpmninja.Engine.ServiceTask.{
  FetchRequest, FetchState, lock_task, is_fetchable, claim, fetch_step, fetch_loop,
}
use bpmninja.Engine.ServiceTask.Locks.{
  IsLockTime, lock_time_delta-IsLockTime, OwnIds, lock_future, Claimed, Granted, Fetched,
  locked_busy,
}

module _ {V : Type 0} (r : FetchRequest) where
  module _ (max_tasks : ℕ) (before : Map Uuid (PendingServiceTask V)) where
    abbrev pub Invariant : FetchState V → Type 0
    Invariant st = Fetched r max_tasks before st.engine.pending_service_tasks st.result

    module _ (id : Uuid) (task : PendingServiceTask V) (lock : ℕ) (st : FetchState V)
        (time : IsLockTime lock) (found : get id st.engine.pending_service_tasks ≡ some task)
        (free : is_fetchable r id task ≡ true) (inv : Invariant st) where
      abbrev locked : PendingServiceTask V
      locked = lock_task r lock task

      abbrev after : Map Uuid (PendingServiceTask V)
      after = insert id locked st.engine.pending_service_tasks

      get-after_same : (j : Uuid) → nat_beq id j ≡ true → get j after ≡ some locked
      get-after_same j same = rw (get-insert id j locked st.engine.pending_service_tasks, same) refl

      get-after_other :
          (j : Uuid) → nat_beq id j ≡ false → get j after ≡ get j st.engine.pending_service_tasks
      get-after_other j other =
          rw (get-insert id j locked st.engine.pending_service_tasks, other) refl

      -- The task that the map has under the same number.
      found_same :
          (j : Uuid) (t : PendingServiceTask V)
          → nat_beq id j ≡ true
          → get j st.engine.pending_service_tasks ≡ some t
          → t ≡ task
      found_same j t same e = ground (
        arith,
        e,
        found,
        ap (λ k. get k st.engine.pending_service_tasks) ((nat_beq_iff id j).0 same),
      )

      own_after : OwnIds after
      own_after j u e = elim (Bool-cases (nat_beq id j)) [
        | inl same ↦
            ground
              (arith, e, get-after_same j same, inv.own id task found, (nat_beq_iff id j).0 same)
        | inr other ↦ inv.own j u (sym (get-after_other j other) ∙ e)
      ]

      Granted-kept :
          (t : PendingServiceTask V)
          → Granted r st.engine.pending_service_tasks t
          → Granted r after t
      Granted-kept t (stored, by, held) = elim (Bool-cases (nat_beq id t.id)) [
        | inl same ↦ absurd (
            ground (
              arith,
              free,
              locked_busy r id t (r.now + held.0) (lock_future r.now held.0 held.1) held.2,
              ap (is_fetchable r id) (found_same t.id t same stored),
            ))
        | inr other ↦ (get-after_other t.id other ∙ stored, by, held)
      ]

      Granted-new : Granted r after locked
      Granted-new = (
        get-after_same task.id ground (arith, inv.own id task found, nat_beq_iff id task.id),
        refl,
        (lock, time, refl),
      )

      -- The task was free until now.
      Claimed-now :
          (j : Uuid) (t u : PendingServiceTask V)
          → nat_beq id j ≡ true
          → get j st.engine.pending_service_tasks ≡ some u
          → Claimed r st.result j t u
          → (is_fetchable r j t ≡ true)
            × (any (λ t. nat_beq t.id j) (st.result ++ locked ∷ []) ≡ true)
            × ((l : ℕ) × IsLockTime l × (locked ≡ lock_task r l t))
      Claimed-now j t u same stored (inl unchanged) =
          let e = sym (found_same j u same stored) ∙ unchanged in
          (
            ap (λ k. is_fetchable r k t) (sym ((nat_beq_iff id j).0 same))
                ∙ ap (is_fetchable r id) (sym e)
                ∙ free,
            ground (
              arith,
              any-append (λ t. nat_beq t.id j) st.result (locked ∷ []),
              inv.own id task found,
              (nat_beq_iff id j).0 same,
            ),
            (lock, time, ap (lock_task r lock) e),
          )
      Claimed-now j t u same stored (inr (_, _, (l, lt, e))) = absurd (
          ground (
            arith,
            free,
            locked_busy r id u (r.now + l) (lock_future r.now l lt) (ap (λ t. t.lock_expiration) e),
            ap (is_fetchable r id) (found_same j u same stored),
          ))

      Claimed-before :
          (j : Uuid) (t u : PendingServiceTask V)
          → Claimed r st.result j t u
          → Claimed r (st.result ++ locked ∷ []) j t u
      Claimed-before j t u (inl unchanged) = inl unchanged
      Claimed-before j t u (inr (f, listed, l)) =
          inr
            (f, ground (arith, listed, any-append (λ t. nat_beq t.id j) st.result (locked ∷ [])), l)

      Claimed-after :
          (j : Uuid) (t : PendingServiceTask V)
          → get j before ≡ some t
          → (u : PendingServiceTask V) × (get j after ≡ some u)
            × Claimed r (st.result ++ locked ∷ []) j t u
      Claimed-after j t e =
          let (u, stored, c) = inv.claimed j t e in
          elim (Bool-cases (nat_beq id j)) [
            | inl same ↦ (locked, get-after_same j same, inr (Claimed-now j t u same stored c))
            | inr other ↦ (u, get-after_other j other ∙ stored, Claimed-before j t u c)
          ]

      claim_keeps : suc (length st.result) ≤ max_tasks → Invariant (claim id locked st)
      claim_keeps room = record {
        bounded = omega (arith, length-append st.result (locked ∷ []));
        own = own_after;
        granted =
            All-append _ st.result (locked ∷ []) (All-mono Granted-kept st.result inv.granted)
              (Granted-new, tt);
        claimed = Claimed-after;
      }

    pub fetch_step_keeps :
        (c : String × Uuid) (st : FetchState V)
        → suc (length st.result) ≤ max_tasks
        → Invariant st
        → Invariant (fetch_step r c st)
    unfolding fetch_step
    fetch_step_keeps (topic, id) st room inv =
        elim (Option-cases (get id st.engine.pending_service_tasks)) [
          | inl missing ↦ rw (missing, fetch_step) inv
          | inr (task, found) ↦ elim (Bool-cases (is_fetchable r id task)) [
            | inl free ↦
                rw (found, fetch_step)
                  (rw free
                    (claim_keeps id task _ st (lock_time_delta-IsLockTime _) found free inv room))
            | inr busy ↦ rw (found, fetch_step) (rw busy inv)
          ]
        ]

    pub fetch_loop_keeps :
        (cs : List (String × Uuid)) (st : FetchState V)
        → Invariant st
        → Invariant (fetch_loop max_tasks r cs st)
    unfolding fetch_loop
    fetch_loop_keeps [] st inv = inv
    fetch_loop_keeps (c ∷ cs) st inv = elim (Bool-cases (leb max_tasks (length st.result))) [
      | inl full ↦ rw (full, fetch_loop) inv
      | inr room ↦
          rw (room, fetch_loop)
            (fetch_loop_keeps cs (fetch_step r c st) (fetch_step_keeps c st (ground arith) inv))
    ]
