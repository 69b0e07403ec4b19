-- ===== src/Tests/Timers.antt =====
-- The theorems on the due index of the timers at concrete inputs.
use bpmninja.Prelude.{
  Option, leb, ◌-◌, if◌then◌else◌, ℕ, ◌+◌, ◌≤◌, ◌<◌, ◌≡◌, refl, ◌⊎◌, ◌↔◌, true, none, some, List,
  [], ◌∷◌, get, nat_eq, All, arith,
}
use bpmninja.Domain.Error.{Uuid}
use bpmninja.Runtime.Pending.{PendingTimer}
use bpmninja.Runtime.State.{Engine}
use bpmninja.Engine.TopicIndex.{member}
use bpmninja.Engine.TimerIndex.{due_ids, next_due_after, sleep_deadline, insert_pending_timer}
use bpmninja.Engine.TimerIndex.Due.{IsTimed, due_ids_iff, insert_pending_timer-IsTimed}
use bpmninja.Engine.TimerIndex.Sleep.{IsSorted, sleep_deadline_bounds}
use bpmninja.Tests.Samples.{empty_engine}

abbrev timer : PendingTimer
timer = record {
  id = 11;
  instance_id = 2;
  node_id = "wait";
  expires_at = 90;
  token_id = 3;
  timer_def = none;
  remaining_repetitions = none;
}

empty-IsTimed : IsTimed empty_engine
unfolding get
empty-IsTimed = (λ at id. refl, λ id t e. cc)

abbrev armed : Engine ℕ
armed = insert_pending_timer timer empty_engine

armed-IsTimed : IsTimed armed
unfolding get
armed-IsTimed = insert_pending_timer-IsTimed timer empty_engine empty-IsTimed refl

insert_pending_timer-IsTimed_example : IsTimed armed
unfolding get
insert_pending_timer-IsTimed_example =
    insert_pending_timer-IsTimed timer empty_engine empty-IsTimed refl

due_ids_iff_example :
    (member 11 (due_ids 95 armed.timer_due_index) ≡ true)
    ↔ ((t : PendingTimer) × (get 11 armed.pending_timers ≡ some t) × (t.expires_at ≤ 95))
due_ids_iff_example = due_ids_iff 95 11 armed armed-IsTimed (omega arith)

abbrev two_due : List (ℕ × Uuid)
two_due = (90, 11) ∷ (120, 4) ∷ []

two_due-IsSorted : IsSorted two_due
two_due-IsSorted = ((refl, tt), (tt, tt))

abbrev idle : ℕ
idle = 60

-- A clock that ends at the instant 100000.
abbrev add_instant : ℕ → ℕ → Option ℕ
add_instant origin d = if leb (origin + d) 100_000 then some (origin + d) else none

add_instant_fits : (d : ℕ) → d ≤ idle → add_instant 7 d ≡ some (7 + d)
add_instant_fits d few = ground arith

sleep_deadline_bounds_example :
    let deadline = sleep_deadline add_instant 7 (next_due_after 95 two_due) 95 idle in
    (7 ≤ deadline)
    × (deadline ≤ 7 + idle)
    × ((idle ≡ 0) ⊎ (7 < deadline))
    × All (λ e. (e.0 ≤ 95) ⊎ (95 + (deadline - 7) ≤ e.0)) two_due
sleep_deadline_bounds_example =
    sleep_deadline_bounds add_instant 7 95 idle two_due add_instant_fits two_due-IsSorted
      (omega arith, (omega arith, tt))
