-- ===== src/Engine/RetryQueue.antt =====
-- The worker of engine-core/src/engine/retry_queue.rs: the attempts at one job and the waits between
-- them, and the drain at shutdown. What `execute_job` answers is an argument.
pub mod Attempts
use bpmninja.Prelude.{
  ℕ, zero, suc, ◌+◌, ◌*◌, String, Bool, true, false, List, [], ◌∷◌, ◌++◌, leb, min, if◌then◌else◌,
}
use bpmninja.Domain.Error.{Uuid, Result, ok, err}

abbrev pub max_retries : ℕ
max_retries = 50

abbrev pub initial_backoff_ms : ℕ
initial_backoff_ms = 1000

abbrev pub max_backoff_ms : ℕ
max_backoff_ms = 60000

-- `H` is the type of history entries.
pub data PersistJob (H : Type 0) : Type 0 where
  save_instance save_definition save_user_task delete_user_task save_service_task
        delete_service_task save_timer delete_timer save_message_catch delete_message_catch
        save_signal_catch delete_signal_catch save_conditional_catch delete_conditional_catch :
      Uuid → PersistJob H
  append_history_entry : H → PersistJob H
  shutdown : PersistJob H

-- How the attempts at a job end, with their number and the waits between them. `out_of_fuel` belongs
-- to the model alone.
pub data Ended : Type 0 where
  succeeded : (attempts : ℕ) (waits : List ℕ) → Ended
  exhausted : (error : String) (attempts : ℕ) (waits : List ℕ) → Ended
  out_of_fuel : Ended

-- `answer n` is what `execute_job` answers to the attempt `n`.
module _ (answer : ℕ → Result String (Unit {0})) where
  unfoldable pub retry_loop : ℕ → (attempt backoff_ms : ℕ) (waits : List ℕ) → Ended
  retry_loop zero attempt backoff_ms waits = out_of_fuel
  retry_loop (suc fuel) attempt backoff_ms waits = elim (answer (suc attempt)) [
    | ok _ ↦ succeeded (suc attempt) waits
    | err e ↦ elim (leb max_retries (suc attempt)) [
      | true ↦ exhausted e (suc attempt) waits
      | false ↦
          retry_loop fuel (suc attempt) (min (backoff_ms * 2) max_backoff_ms)
            (waits ++ backoff_ms ∷ [])
    ]
  ]

  unfoldable pub retry_job : Ended
  unfolding retry_loop
  retry_job = retry_loop max_retries 0 initial_backoff_ms []

pub record DrainResult : Type 0 where
  pub processed : ℕ
  pub failed : ℕ
  pub remaining : ℕ

abbrev pub is_shutdown : {H : Type 0} → PersistJob H → Bool
is_shutdown shutdown = true
is_shutdown _ = false

-- `expired` tells whether the deadline has passed when a job is taken from the queue, and `executes`
-- whether its one attempt succeeds before the deadline.
module _ {H : Type 0} (expired executes : PersistJob H → ℕ → Bool) where
  unfoldable pub drain_retry_queue : ℕ → List (PersistJob H) → DrainResult → DrainResult
  drain_retry_queue n [] result = result
  drain_retry_queue n (job ∷ jobs) result = drain_retry_queue (n + 1) jobs (
      if is_shutdown job
      then result
      else if expired job n
      then record result { remaining = result.remaining + 1 }
      else if executes job n
      then record result { processed = result.processed + 1 }
      else record result { failed = result.failed + 1 })
