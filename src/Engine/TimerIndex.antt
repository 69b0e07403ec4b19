-- ===== src/Engine/TimerIndex.antt =====
-- engine-core/src/engine/timer_index.rs: the pending timers by due time. A `BTreeMap` is the list of
-- its keys in order.
pub mod Due
pub mod Sleep
use bpmninja.Prelude.{
  ℕ, ◌-◌, ◌^◌, Bool, true, false, not, ◌&&◌, ◌||◌, Option, none, some, List, [], ◌∷◌, Map, map, get,
  insert, remove, nat_eq, if◌then◌else◌, leb, ◌-◌, ltb, nat_beq, select, find, min,
}
use bpmninja.Domain.Error.{Uuid}
use bpmninja.Runtime.Pending.{PendingTimer}
use bpmninja.Runtime.Instance.{ProcessInstance, InstanceState}
use bpmninja.Runtime.State.{Engine, notify_timers, emit}

abbrev pub TimerDueIndex : Type 0
TimerDueIndex = List (ℕ × Uuid)

-- `Uuid::from_u128(u128::MAX)`
abbrev pub uuid_max : Uuid
uuid_max = 2 ^ 128 - 1

-- The order of the keys, and their equality.
abbrev pub key_before : ℕ × Uuid → ℕ × Uuid → Bool
key_before (at, id) (other, id') = ltb at other || (nat_beq at other && ltb id id')

abbrev pub same_key : ℕ × Uuid → ℕ × Uuid → Bool
same_key (at, id) (other, id') = nat_beq at other && nat_beq id id'

unfoldable pub due_insert : ℕ × Uuid → TimerDueIndex → TimerDueIndex
due_insert k [] = k ∷ []
due_insert k (x ∷ xs) =
    if key_before k x then k ∷ x ∷ xs else if key_before x k then x ∷ due_insert k xs else x ∷ xs

unfoldable pub due_remove : ℕ × Uuid → TimerDueIndex → TimerDueIndex
due_remove k [] = []
due_remove k (x ∷ xs) = if same_key x k then due_remove k xs else x ∷ due_remove k xs

-- `range(..=(now, MAX))`
unfoldable pub due_ids : (now : ℕ) → TimerDueIndex → List Uuid
due_ids now index = map (λ e. e.1) (select (λ e. not (key_before (now, uuid_max) e)) index)

-- The first key of `range((Excluded((now, MAX)), Unbounded))`
unfoldable pub next_due_after : (now : ℕ) → TimerDueIndex → Option ℕ
next_due_after now index = elim (find (λ e. key_before (now, uuid_max) e) index) [
  | none ↦ none
  | some (due, _) ↦ some due
]

abbrev pub unwrap_or : Option ℕ → ℕ → ℕ
unwrap_or none d = d
unwrap_or (some at) d = at

-- `origin` is the clock reading `Instant::now()`, and `checked_add` is that of `Instant`. `due` is
-- after `now` where their difference is converted, so that `to_std` does not fail.
unfoldable pub sleep_deadline :
    (checked_add : ℕ → ℕ → Option ℕ) (origin : ℕ) → Option ℕ → (now max_idle : ℕ) → ℕ
sleep_deadline checked_add origin none now max_idle = unwrap_or (checked_add origin max_idle) origin
sleep_deadline checked_add origin (some due) now max_idle =
    let idle_at = unwrap_or (checked_add origin max_idle) origin in
    if leb due now
    then origin
    else unwrap_or (checked_add origin (min (due - now) max_idle)) idle_at

abbrev pub is_suspended : {V : Type 0} → Option (ProcessInstance V) → Bool
is_suspended none = false
is_suspended (some inst) = elim inst.state [ InstanceState.suspended _ ↦ true | _ ↦ false ]

-- The loop that drops the due times of the timers that go.
unfoldable pub unschedule : List (Uuid × PendingTimer) → TimerDueIndex → TimerDueIndex
unfolding due_remove
unschedule [] index = index
unschedule ((_, timer) ∷ dropped) index =
    unschedule dropped (due_remove (timer.expires_at, timer.id) index)

module _ {V : Type 0} where
  unfoldable pub insert_pending_timer : PendingTimer → Engine V → Engine V
  unfolding due_insert
  insert_pending_timer timer s = emit notify_timers (record s {
    pending_timers = insert timer.id timer s.pending_timers;
    timer_due_index = due_insert (timer.expires_at, timer.id) s.timer_due_index;
  })

  unfoldable pub remove_pending_timer : Uuid → Engine V → Option PendingTimer × Engine V
  unfolding due_remove
  remove_pending_timer timer_id s = elim (get timer_id s.pending_timers) [
    | none ↦ (none, s)
    | some timer ↦ (
      some timer,
      emit notify_timers (record s {
        pending_timers = remove timer_id s.pending_timers;
        timer_due_index = due_remove (timer.expires_at, timer.id) s.timer_due_index;
      }),
    )
  ]

  abbrev pub notify_unless_empty : List (Uuid × PendingTimer) → Engine V → Engine V
  notify_unless_empty [] s = s
  notify_unless_empty (x ∷ xs) s = emit notify_timers s

  -- Every caller's test reads the timer only.
  unfoldable pub retain_pending_timers : (PendingTimer → Bool) → Engine V → Engine V
  unfolding unschedule
  retain_pending_timers keep s =
      let dropped = select (λ e. not (keep e.1)) s.pending_timers in
      notify_unless_empty dropped (record s {
        pending_timers = select (λ e. keep e.1) s.pending_timers;
        timer_due_index = unschedule dropped s.timer_due_index;
      })

  -- Whether `process_timers` would take the timer.
  abbrev pub is_actionable : (now : ℕ) → Engine V → Option PendingTimer → Bool
  is_actionable now s none = false
  is_actionable now s (some timer) =
      not (ltb now timer.expires_at) && not (is_suspended (get timer.instance_id s.instances))

  unfoldable pub any_actionable : (now : ℕ) → Engine V → List Uuid → Bool
  any_actionable now s [] = false
  any_actionable now s (id ∷ ids) =
      is_actionable now s (get id s.pending_timers) || any_actionable now s ids

  unfoldable pub has_actionable_due_timer : (now : ℕ) → Engine V → Bool
  unfolding any_actionable due_ids
  has_actionable_due_timer now s = any_actionable now s (due_ids now s.timer_due_index)
