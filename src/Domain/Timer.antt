-- ===== src/Domain/Timer.antt =====
-- engine-core/src/domain/timer.rs. Instants and durations are numbers of nanoseconds. The calendar
-- library's conversion of a duration and the cron schedule are parameters.
use bpmninja.Prelude.{ℕ, ◌+◌, String, Bool, true, false, Option, none, some, ltb, if◌then◌else◌}

pub data TimerDefinition : Type 0 where
  duration : ℕ → TimerDefinition
  absolute_date : ℕ → TimerDefinition
  cron_cycle : (expression : String) (max_repetitions : Option ℕ) → TimerDefinition
  repeating_interval : (repetitions : Option ℕ) (interval : ℕ) → TimerDefinition

-- `chrono::Duration::from_std` and the next occurrence of a cron expression after an instant.
pub record Calendar : Type 0 where
  pub from_std : ℕ → Option ℕ
  pub next_occurrence : String → ℕ → Option ℕ

-- `now + d` where the conversion succeeds.
abbrev pub advance : ℕ → Option ℕ → Option ℕ
advance now none = none
advance now (some d) = some (now + d)

unfoldable pub next_expiry : Calendar → TimerDefinition → ℕ → Option ℕ
next_expiry c (duration dur) now = advance now (c.from_std dur)
next_expiry c (absolute_date dt) now = if ltb now dt then some dt else none
next_expiry c (cron_cycle expression _) now = c.next_occurrence expression now
next_expiry c (repeating_interval _ interval) now = advance now (c.from_std interval)

unfoldable pub is_recurring : TimerDefinition → Bool
is_recurring (cron_cycle _ _) = true
is_recurring (repeating_interval _ _) = true
is_recurring _ = false

unfoldable pub initial_remaining_repetitions : TimerDefinition → Option ℕ
initial_remaining_repetitions (repeating_interval repetitions _) = repetitions
initial_remaining_repetitions (cron_cycle _ max_repetitions) = max_repetitions
initial_remaining_repetitions _ = none
