-- ===== src/Engine/Executor/Loop/Rounds.antt =====
-- The rounds of a batch as a relation, and how a batch ends.
use bpmninja.Prelude.{
  ℕ, zero, suc, ◌+◌, ◌≤◌, ◌<◌, ◌≡◌, refl, Option, none, some, List, ltb, arith, Bool-cases, inl,
  inr,
}
use bpmninja.Domain.Error.{Uuid, EngineError, EngineResult, ok, err, execution_limit_exceeded}
use bpmninja.Domain.Token.{Token}
use bpmninja.Runtime.State.{Engine}
use bpmninja.Engine.Executor.Actions.{Handled}
use bpmninja.Engine.Executor.Loop.{
  after_step, after_next, Behaviour, max_execution_steps, next_token, step_once, finish_batch,
  limit_abort, run, run_instance_batch_with_tokens,
}

-- `n` steps lead from the start of the batch to a queue and an engine.
pub data Rounds {V : Type 0} (b : Behaviour V) (instance_id : Uuid) (tokens : List (Token V))
    (start : Engine V) : ℕ → List (Token V) → Engine V → Type 0 where
  here : Rounds b instance_id tokens start zero tokens start
  next :
      {n : ℕ} {queue queue' rest : List (Token V)} {s s' s'' : Engine V} {token : Token V}
      → Rounds b instance_id tokens start n queue s
      → next_token b instance_id queue s ≡ (ok (some (token, rest)), s')
      → step_once b instance_id (suc n) token rest s' ≡ (ok tt, queue', s'')
      → Rounds b instance_id tokens start (suc n) queue' s''

-- How a batch ends: no token is left and no catch fires; a catch or a step fails; or a token is
-- left after as many steps as are allowed.
pub data Ends {V : Type 0} (b : Behaviour V) (limit : ℕ) (instance_id : Uuid)
    (tokens : List (Token V)) (start : Engine V) : EngineResult (Unit {0}) × Engine V → Type 0 where
  drained :
      {n : ℕ} {queue : List (Token V)} {s s' : Engine V}
      → n ≤ limit
      → Rounds b instance_id tokens start n queue s
      → next_token b instance_id queue s ≡ (ok none, s')
      → Ends b limit instance_id tokens start (finish_batch b instance_id s')
  catch_failed :
      {n : ℕ} {queue : List (Token V)} {s s' : Engine V} {e : EngineError}
      → n ≤ limit
      → Rounds b instance_id tokens start n queue s
      → next_token b instance_id queue s ≡ (err e, s')
      → Ends b limit instance_id tokens start (err e, s')
  step_failed :
      {n : ℕ} {queue queue' rest : List (Token V)} {s s' s'' : Engine V} {token : Token V}
      {e : EngineError}
      → n < limit
      → Rounds b instance_id tokens start n queue s
      → next_token b instance_id queue s ≡ (ok (some (token, rest)), s')
      → step_once b instance_id (suc n) token rest s' ≡ (err e, queue', s'')
      → Ends b limit instance_id tokens start (err e, s'')
  aborted :
      {n : ℕ} {queue rest : List (Token V)} {s s' : Engine V} {token : Token V}
      → n ≡ limit
      → Rounds b instance_id tokens start n queue s
      → next_token b instance_id queue s ≡ (ok (some (token, rest)), s')
      → Ends b limit instance_id tokens start (
        err (execution_limit_exceeded instance_id limit),
        limit_abort (b.clock (suc n)) limit instance_id s',
      )

module _ {V : Type 0} (b : Behaviour V) (limit : ℕ) (instance_id : Uuid) (tokens : List (Token V))
    (start : Engine V) where
  abbrev pub EndsWith : Option (EngineResult (Unit {0}) × Engine V) → Type 0
  EndsWith none = ⊥
  EndsWith (some result) = Ends b limit instance_id tokens start result

  module _ (n : ℕ) (queue : List (Token V)) (s : Engine V) (within : n ≤ limit)
      (done : Rounds b instance_id tokens start n queue s)
      (go : List (Token V) → Engine V → Option (EngineResult (Unit {0}) × Engine V))
      (goes : (queue' : List (Token V)) (s' : Engine V)
        → n < limit
        → Rounds b instance_id tokens start (suc n) queue' s'
        → EndsWith (go queue' s')) where
    after_step-Ends :
        (token : Token V) (rest : List (Token V)) (s' : Engine V)
        → n < limit
        → next_token b instance_id queue s ≡ (ok (some (token, rest)), s')
        → (h : Handled V) → step_once b instance_id (suc n) token rest s' ≡ h
        → EndsWith (after_step b limit instance_id go h)
    after_step-Ends token rest s' more popped (err e, queue', s'') stepped =
        step_failed more done popped stepped
    after_step-Ends token rest s' more popped (ok tt, queue', s'') stepped =
        goes queue' s'' more (next done popped stepped)

    after_next-Ends :
        (r : EngineResult (Option (Token V × List (Token V))) × Engine V)
        → next_token b instance_id queue s ≡ r
        → EndsWith (after_next b limit instance_id go (suc n) r)
    after_next-Ends (err e, s') popped = catch_failed within done popped
    after_next-Ends (ok none, s') popped = drained within done popped
    after_next-Ends (ok (some (token, rest)), s') popped = elim (Bool-cases (ltb limit (suc n))) [
      | inl past ↦ rw (past, EndsWith) (aborted (ground arith) done popped)
      | inr more ↦ rw (more, EndsWith) (after_step-Ends token rest s' (ground arith) popped _ refl)
    ]

  run-Ends :
      (fuel n : ℕ) (queue : List (Token V)) (s : Engine V)
      → n ≤ limit
      → limit < n + fuel
      → Rounds b instance_id tokens start n queue s
      → EndsWith (run b limit instance_id fuel n queue s)
  unfolding run
  run-Ends zero n queue s within enough done = absurd (omega arith)
  run-Ends (suc fuel) n queue s within enough done =
      after_next-Ends n queue s within done (run b limit instance_id fuel (suc n))
        (λ queue' s' more later. run-Ends fuel (suc n) queue' s' (omega arith) (omega arith) later)
        (next_token b instance_id queue s) refl

-- A batch always ends: its tokens and fired catches are used up within ten thousand steps, or an
-- error is returned, or the instance is aborted with a token left after exactly ten thousand steps.
pub run_instance_batch_with_tokens-Ends :
    {V : Type 0} (b : Behaviour V) (instance_id : Uuid) (tokens : List (Token V)) (s : Engine V)
    → EndsWith b max_execution_steps instance_id tokens s
        (run_instance_batch_with_tokens b instance_id tokens s)
unfolding run_instance_batch_with_tokens
run_instance_batch_with_tokens-Ends b instance_id tokens s =
    run-Ends b max_execution_steps instance_id tokens s (suc max_execution_steps) 0 tokens s
      (omega arith) (omega arith) here
