-- ===== src/Engine/TimerIndex/Sleep.antt =====
-- How long the scheduler sleeps.
use bpmninja.Prelude.{
  inl, inr, refl, ℕ, ◌+◌, ◌≤◌, ◌<◌, ◌≡◌, ◌⊎◌, true, false, none, some, [], ◌∷◌, leb, min, ◌-◌,
  Option, find, arith, Bool-cases, All, All-mono,
}
use bpmninja.Domain.Error.{Uuid}
use bpmninja.Engine.TimerIndex.{
  TimerDueIndex, uuid_max, key_before, due_insert, next_due_after, sleep_deadline,
}

abbrev pub IsSorted : TimerDueIndex → Type 0
IsSorted [] = Unit
IsSorted (x ∷ xs) = All (λ y. key_before x y ≡ true) xs × IsSorted xs

before_trans :
    (a b c : ℕ × Uuid) → key_before a b ≡ true → key_before b c ≡ true → key_before a c ≡ true
before_trans (a, i) (b, j) (c, k) h h' = ground arith

All-due_insert :
    (P : ℕ × Uuid → Type 0) (k : ℕ × Uuid) (xs : TimerDueIndex)
    → P k
    → All P xs
    → All P (due_insert k xs)
unfolding due_insert
All-due_insert P k [] new old = (new, tt)
All-due_insert P k (x ∷ xs) new old = elim (Bool-cases (key_before k x)) [
  | inl first ↦ rw (first, due_insert) (new, old)
  | inr not_first ↦ elim (Bool-cases (key_before x k)) [
    | inl second ↦ rw (not_first, due_insert) (rw second (old.0, All-due_insert P k xs new old.1))
    | inr equal ↦ rw (not_first, due_insert) (rw equal old)
  ]
]

-- Arming a timer keeps the due index in order.
due_insert-IsSorted : (k : ℕ × Uuid) (xs : TimerDueIndex) → IsSorted xs → IsSorted (due_insert k xs)
unfolding due_insert
due_insert-IsSorted k [] sorted = (tt, tt)
due_insert-IsSorted k (x ∷ xs) (ahead, rest) = elim (Bool-cases (key_before k x)) [
  | inl first ↦
      rw (first, due_insert)
        ((first, All-mono (λ y h. before_trans k x y first h) xs ahead), (ahead, rest))
  | inr not_first ↦ elim (Bool-cases (key_before x k)) [
    | inl second ↦
        rw (not_first, due_insert)
          (rw second (
            All-due_insert (λ y. key_before x y ≡ true) k xs second ahead,
            due_insert-IsSorted k xs rest,
          ))
    | inr equal ↦ rw (not_first, due_insert) (rw equal (ahead, rest))
  ]
]

-- The next due time is the least that is not over yet.
next_due_cases :
    (now : ℕ) (index : TimerDueIndex)
    → IsSorted index
    → All (λ e. e.1 ≤ uuid_max) index
    → ((next_due_after now index ≡ none) × All (λ e. e.0 ≤ now) index)
      ⊎ ((due : ℕ) × (next_due_after now index ≡ some due)
          × (now < due)
          × All (λ e. (e.0 ≤ now) ⊎ (due ≤ e.0)) index)
unfolding next_due_after
next_due_cases now [] sorted fits = inl (refl, tt)
next_due_cases now ((at, id) ∷ xs) (first, rest) (fit, fits) =
    elim (Bool-cases (key_before (now, uuid_max) (at, id))) [
      | inl later ↦ inr (
        at,
        rw (later, next_due_after, find) refl,
        ground arith,
        (inr (omega arith), All-mono (λ (b, k) h. inr (ground (arith, h))) xs first),
      )
      | inr past ↦ elim (next_due_cases now xs rest fits) [
        | inl (none_left, all_past) ↦
            inl (rw (past, next_due_after, find) none_left, (ground arith, all_past))
        | inr (due, next, future, least) ↦
            inr (due, rw (past, next_due_after, find) next, future, (inl (ground arith), least))
      ]
    ]

-- Where the clock can represent every instant up to `max_idle` from now, a scheduler that finds
-- nothing to do sleeps until an instant from now to `max_idle` later, and never past a timer that is
-- not due yet; with a positive `max_idle` that instant is not now. The other hypotheses: the due index
-- is in order, and its identifiers have 128 bits.
pub sleep_deadline_bounds :
    (checked_add : ℕ → ℕ → Option ℕ) (origin now max_idle : ℕ) (index : TimerDueIndex)
    → ((d : ℕ) → d ≤ max_idle → checked_add origin d ≡ some (origin + d))
    → IsSorted index
    → All (λ e. e.1 ≤ uuid_max) index
    → let deadline = sleep_deadline checked_add origin (next_due_after now index) now max_idle in
      (origin ≤ deadline)
      × (deadline ≤ origin + max_idle)
      × ((max_idle ≡ 0) ⊎ (origin < deadline))
      × All (λ e. (e.0 ≤ now) ⊎ (now + (deadline - origin) ≤ e.0)) index
unfolding sleep_deadline
sleep_deadline_bounds checked_add origin now max_idle index adds sorted fits =
    elim (next_due_cases now index sorted fits) [
      | inl (none_left, all_past) ↦
          rw (none_left, sleep_deadline)
            (rw (adds max_idle (omega arith))
              (omega arith, omega arith, ground arith, All-mono (λ e h. inl h) index all_past))
      | inr (due, next, future, least) ↦
          let positive : leb due now ≡ false = ground arith in
          rw (next, sleep_deadline)
            (rw positive (
              rw (adds (min (due - now) max_idle) (ground arith)) (
                omega arith,
                ground arith,
                ground arith,
                All-mono
                    (λ (b, k) h. elim h [ inl past ↦ inl past | inr after ↦ inr (ground arith) ])
                    index least,
              )))
    ]
