-- ===== src/Engine/RetryQueue/Attempts.antt =====
-- What the worker of engine-core/src/engine/retry_queue.rs does with a job that keeps failing, and with
-- the jobs that a shutdown finds.
use bpmninja.Prelude.{
  ℕ, zero, suc, ◌+◌, ◌*◌, ◌^◌, ◌<◌, ◌≡◌, ◌⊎◌, ap, subst, refl, String, Bool, Bool-cases, inl, inr,
  List, [], ◌∷◌, ◌++◌, length, select, not, leb, min, if◌then◌else◌, arith,
}
use native.Mathlib.Nat.{pow-suc}
use bpmninja.Domain.Error.{Result, ok, err}
use bpmninja.Engine.RetryQueue.{
  max_retries, PersistJob, Ended, succeeded, exhausted, out_of_fuel, retry_loop, retry_job,
  DrainResult, is_shutdown, drain_retry_queue,
}

-- The wait before the attempt `i + 2`: it doubles from a second, up to a minute.
abbrev pub delay : ℕ → ℕ
delay i = min (1000 * 2 ^ i) 60000

abbrev pub delays : ℕ → List ℕ
delays zero = []
delays (suc n) = delays n ++ delay n ∷ []

delay-suc : (i : ℕ) → delay (suc i) ≡ min (delay i * 2) 60000
delay-suc i = let e = pow-suc 2 i in ground arith

-- Every attempt from 1 to `n` failed.
abbrev pub AllFail : (ℕ → Result String (Unit {0})) → ℕ → Type 0
AllFail answer zero = Unit
AllFail answer (suc n) = AllFail answer n × ((e : String) × (answer (suc n) ≡ err e))

-- The attempts ended with the first success, or with failure number fifty.
abbrev pub Attempted : (ℕ → Result String (Unit {0})) → Ended → Type 0
Attempted answer (succeeded n waits) =
    (k : ℕ) × (n ≡ suc k) × (k < 50) × (answer n ≡ ok tt) × AllFail answer k × (waits ≡ delays k)
Attempted answer (exhausted e n waits) =
    (n ≡ 50) × (answer n ≡ err e) × AllFail answer 50 × (waits ≡ delays 49)
Attempted answer out_of_fuel = ⊥

Result-cases : (r : Result String (Unit {0})) → (r ≡ ok tt) ⊎ ((e : String) × (r ≡ err e))
Result-cases (ok done) = inl refl
Result-cases (err e) = inr (e, refl)

module _ (answer : ℕ → Result String (Unit {0})) where
  retry_loop-Attempted :
      (fuel n : ℕ)
      → n + fuel ≡ 50
      → 0 < fuel
      → AllFail answer n
      → Attempted answer (retry_loop answer fuel n (delay n) (delays n))
  unfolding retry_loop
  retry_loop-Attempted zero n total more failed = absurd (omega arith)
  retry_loop-Attempted (suc fuel) n total more failed = elim (Result-cases (answer (suc n))) [
    | inl done ↦ rw (done, Attempted) (n, refl, omega arith, done, failed, refl)
    | inr (e, fails) ↦
        rw (fails, Attempted)
          (elim (Bool-cases (leb max_retries (suc n))) [
            | inl last ↦
                rw (last, Attempted)
                  (let end : n ≡ 49 = ground arith in
                    (
                      ap suc end,
                      fails,
                      subst (AllFail answer) (ap suc end) (failed, (e, fails)),
                      ap delays end,
                    ))
            | inr again ↦
                rw (again, Attempted)
                  (subst (λ b. Attempted answer (retry_loop answer fuel (suc n) b (delays (suc n))))
                    (delay-suc n)
                    (retry_loop-Attempted fuel (suc n) (omega arith) (ground arith)
                      (failed, (e, fails))))
          ])
  ]

  -- A job is tried until its first success, at most fifty times. The error of the last attempt is
  -- reported if all fifty fail. The waits between the attempts double from a second up to a minute.
  pub retry_job-Attempted : Attempted answer (retry_job answer)
  unfolding retry_job
  retry_job-Attempted = retry_loop-Attempted 50 0 refl (omega arith) tt

-- Each job that the drain finds, besides further shutdowns, is counted once.
drain_retry_queue_counts :
    {H : Type 0} (expired executes : PersistJob H → ℕ → Bool) (n : ℕ) (jobs : List (PersistJob H))
    (result : DrainResult)
    → let after = drain_retry_queue expired executes n jobs result in
      after.processed + after.failed + after.remaining
      ≡ result.processed
        + result.failed
        + result.remaining
        + length (select (λ job. not (is_shutdown job)) jobs)
unfolding drain_retry_queue
drain_retry_queue_counts expired executes n [] result = omega arith
drain_retry_queue_counts expired executes n (job ∷ jobs) result = ground (
  arith,
  drain_retry_queue_counts expired executes (n + 1) jobs (
      if is_shutdown job
      then result
      else if expired job n
      then record result { remaining = result.remaining + 1 }
      else if executes job n
      then record result { processed = result.processed + 1 }
      else record result { failed = result.failed + 1 }),
)
