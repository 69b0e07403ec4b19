-- ===== src/Engine/TimerIndex/Due.antt =====
-- The due index agrees with the map of pending timers.
use bpmninja.Prelude.{
  inl, inr, sym, ap, ◌∙◌, refl, ℕ, ◌≤◌, ◌≡◌, ◌↔◌, Bool, true, false, not, ◌&&◌, ◌||◌, Option, none,
  some, [], ◌∷◌, get, get-insert, get-remove, nat_eq, nat_beq, nat_beq_iff, any, arith, Bool-cases,
  Option-cases,
}
use bpmninja.Domain.Error.{Uuid}
use bpmninja.Runtime.Pending.{PendingTimer}
use bpmninja.Runtime.State.{Engine}
use bpmninja.Engine.TopicIndex.{member}
use bpmninja.Engine.TimerIndex.{
  TimerDueIndex, uuid_max, key_before, same_key, due_insert, due_remove, due_ids,
  insert_pending_timer, remove_pending_timer,
}

abbrev pub scheduled : ℕ × Uuid → TimerDueIndex → Bool
scheduled k index = any (λ x. same_key x k) index

scheduled-due_insert :
    (at : ℕ) (id : Uuid) (j : ℕ × Uuid) (index : TimerDueIndex)
    → scheduled (at, id) (due_insert j index) ≡ (same_key j (at, id) || scheduled (at, id) index)
unfolding due_insert
scheduled-due_insert at id (b, k) [] = refl
scheduled-due_insert at id (b, k) ((c, l) ∷ xs) =
    ground (arith, scheduled-due_insert at id (b, k) xs)

pub scheduled-due_remove :
    (at : ℕ) (id : Uuid) (j : ℕ × Uuid) (index : TimerDueIndex)
    → scheduled (at, id) (due_remove j index)
      ≡ (not (same_key j (at, id)) && scheduled (at, id) index)
unfolding due_remove
scheduled-due_remove at id (b, k) [] = ground arith
scheduled-due_remove at id (b, k) ((c, l) ∷ xs) =
    ground (arith, scheduled-due_remove at id (b, k) xs)

due_ids-member :
    (now at : ℕ) (id : Uuid) (index : TimerDueIndex)
    → id ≤ uuid_max
    → at ≤ now
    → scheduled (at, id) index ≡ true
    → member id (due_ids now index) ≡ true
unfolding due_ids
due_ids-member now at id [] fits due there = cc
due_ids-member now at id ((b, k) ∷ xs) fits due there =
    elim (Bool-cases (same_key (b, k) (at, id))) [
      | inl same ↦ ground arith
      | inr other ↦ ground (arith, due_ids-member now at id xs fits due (ground arith))
    ]

member-due_ids :
    (now : ℕ) (id : Uuid) (index : TimerDueIndex)
    → member id (due_ids now index) ≡ true
    → (at : ℕ) × (at ≤ now) × (scheduled (at, id) index ≡ true)
unfolding due_ids
member-due_ids now id [] there = cc
member-due_ids now id ((b, k) ∷ xs) there =
    elim (Bool-cases (not (key_before (now, uuid_max) (b, k)) && nat_beq k id)) [
      | inl here ↦ (b, ground arith, ground arith)
      | inr elsewhere ↦
          let (at, due, later) = member-due_ids now id xs (ground arith) in
          (at, due, ground (arith, later))
    ]

abbrev pub expires : ℕ → Option PendingTimer → Bool
expires at none = false
expires at (some timer) = nat_beq timer.expires_at at

-- The index has each pending timer at its due time, and nothing else; a timer stands under its own
-- identifier.
abbrev pub IsTimed : {V : Type 0} → Engine V → Type 0
IsTimed s =
    ((at : ℕ) (id : Uuid)
      → scheduled (at, id) s.timer_due_index ≡ expires at (get id s.pending_timers))
    × ((id : Uuid) (timer : PendingTimer) → get id s.pending_timers ≡ some timer → timer.id ≡ id)

-- The timers that are due at a time, given a consistent index and a timer identifier of 128 bits, are
-- exactly the pending ones whose time has come.
pub due_ids_iff :
    {V : Type 0} (now : ℕ) (id : Uuid) (s : Engine V)
    → IsTimed s
    → id ≤ uuid_max
    → (member id (due_ids now s.timer_due_index) ≡ true)
      ↔ ((timer : PendingTimer) × (get id s.pending_timers ≡ some timer) × (timer.expires_at ≤ now))
due_ids_iff now id s (agree, own) fits = (
  λ there.
      let (at, due, listed) = member-due_ids now id s.timer_due_index there in
      elim (Option-cases (get id s.pending_timers)) [
        | inl missing ↦ absurd (ground (arith, missing, listed, agree at id))
        | inr (timer, found) ↦ (timer, found, ground (arith, found, due, listed, agree at id))
      ],
  λ (timer, found, due). due_ids-member now timer.expires_at id s.timer_due_index fits due (
      agree timer.expires_at id
      ∙ rw found ((nat_beq_iff timer.expires_at timer.expires_at).1 refl)),
)

module _ {V : Type 0} where
  -- Arming a timer under a new identifier keeps the due index consistent.
  pub insert_pending_timer-IsTimed :
      (timer : PendingTimer) (s : Engine V)
      → IsTimed s
      → get timer.id s.pending_timers ≡ none
      → IsTimed (insert_pending_timer timer s)
  unfolding insert_pending_timer
  insert_pending_timer-IsTimed timer s (agree, own) fresh = (
    (λ at id. rw (scheduled-due_insert at id (timer.expires_at, timer.id) s.timer_due_index) (
        rw (get-insert timer.id id timer s.pending_timers) (
          rw (agree at id) (elim (Bool-cases (nat_beq timer.id id)) [
            | inl same ↦
                rw
                  (
                    same,
                    sym (ap (λ k. get k s.pending_timers) ((nat_beq_iff timer.id id).0 same)),
                    fresh,
                  )
                  (ground arith)
            | inr other ↦ rw other (ground arith)
          ])))),
    (λ id found e. ground (
      arith,
      e,
      get-insert timer.id id timer s.pending_timers,
      own id found,
      nat_beq_iff timer.id id,
    )),
  )

  -- Removing a timer keeps the due index consistent.
  remove_pending_timer-IsTimed :
      (timer_id : Uuid) (s : Engine V) → IsTimed s → IsTimed (remove_pending_timer timer_id s).1
  unfolding remove_pending_timer
  remove_pending_timer-IsTimed timer_id s (agree, own) =
      elim (Option-cases (get timer_id s.pending_timers)) [
        | inl missing ↦ rw (missing, remove_pending_timer) (agree, own)
        | inr (timer, found) ↦
            rw (found, remove_pending_timer)
              (
                (λ at id.
                    rw (scheduled-due_remove at id (timer.expires_at, timer.id) s.timer_due_index) (
                      rw (get-remove timer_id id s.pending_timers) (
                        rw (agree at id) (
                          rw (own timer_id timer found) (elim (Bool-cases (nat_beq timer_id id)) [
                            | inl same ↦
                                rw
                                  (
                                    same,
                                    sym (
                                        ap (λ k. get k s.pending_timers)
                                          ((nat_beq_iff timer_id id).0 same)),
                                    found,
                                  )
                                  (ground arith)
                            | inr other ↦ rw other (ground arith)
                          ]))))),
                (λ id kept e.
                    ground (arith, e, get-remove timer_id id s.pending_timers, own id kept)),
              )
      ]
