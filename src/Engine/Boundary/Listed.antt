-- ===== src/Engine/Boundary/Listed.antt =====
-- The waits that engine-core/src/engine/boundary.rs makes from what its scan finds.
use bpmninja.Prelude.{
  ℕ, suc, ◌≡◌, refl, ap, String, Option, some, List, [], ◌∷◌, map, All, nat_eq, string_eq,
}
use bpmninja.Domain.Error.{Uuid}
use bpmninja.Domain.Timer.{TimerDefinition, Calendar}
use bpmninja.Engine.Boundary.{timers_for, messages_for, signals_for, conditionals_for}

module _ (calendar : Calendar) (now : ℕ) (fresh : ℕ → Uuid) (id token_id : Uuid) where
  pub messages_listed :
      (found : List (String × String)) (k : ℕ)
      → map (λ m. (m.node_id, m.message_name)) (messages_for calendar now fresh id token_id k found)
        ≡ found
  unfolding messages_for
  messages_listed [] k = refl
  messages_listed (x ∷ found) k = ap (λ xs. x ∷ xs) (messages_listed found (suc k))

  pub messages_owned :
      (found : List (String × String)) (k : ℕ)
      → All
          (λ m. (m.instance_id ≡ id) × (m.token_id ≡ token_id))
          (messages_for calendar now fresh id token_id k found)
  unfolding messages_for
  messages_owned [] k = tt
  messages_owned (x ∷ found) k = ((refl, refl), messages_owned found (suc k))

  pub signals_listed :
      (found : List (String × String)) (k : ℕ)
      → map (λ g. (g.node_id, g.signal_name)) (signals_for calendar now fresh id token_id k found)
        ≡ found
  unfolding signals_for
  signals_listed [] k = refl
  signals_listed (x ∷ found) k = ap (λ xs. x ∷ xs) (signals_listed found (suc k))

  pub signals_owned :
      (found : List (String × String)) (k : ℕ)
      → All
          (λ g. (g.instance_id ≡ id) × (g.token_id ≡ token_id))
          (signals_for calendar now fresh id token_id k found)
  unfolding signals_for
  signals_owned [] k = tt
  signals_owned (x ∷ found) k = ((refl, refl), signals_owned found (suc k))

  pub conditionals_listed :
      (found : List (String × String)) (k : ℕ)
      → map
          (λ c. (c.node_id, c.condition))
          (conditionals_for calendar now fresh id token_id k found)
        ≡ found
  unfolding conditionals_for
  conditionals_listed [] k = refl
  conditionals_listed (x ∷ found) k = ap (λ xs. x ∷ xs) (conditionals_listed found (suc k))

  pub conditionals_owned :
      (found : List (String × String)) (k : ℕ)
      → All
          (λ c. (c.instance_id ≡ id) × (c.token_id ≡ token_id))
          (conditionals_for calendar now fresh id token_id k found)
  unfolding conditionals_for
  conditionals_owned [] k = tt
  conditionals_owned (x ∷ found) k = ((refl, refl), conditionals_owned found (suc k))

  pub timers_listed :
      (found : List (String × TimerDefinition)) (k : ℕ)
      → map {B = String × Option TimerDefinition}
          (λ t. (t.node_id, t.timer_def))
          (timers_for calendar now fresh id token_id k found)
        ≡ map {B = String × Option TimerDefinition} (λ x. (x.0, some x.1)) found
  unfolding timers_for
  timers_listed [] k = refl
  timers_listed (x ∷ found) k = ap (λ xs. (x.0, some x.1) ∷ xs) (timers_listed found (suc k))

  pub timers_owned :
      (found : List (String × TimerDefinition)) (k : ℕ)
      → All
          (λ t. (t.instance_id ≡ id) × (t.token_id ≡ token_id))
          (timers_for calendar now fresh id token_id k found)
  unfolding timers_for
  timers_owned [] k = tt
  timers_owned (x ∷ found) k = ((refl, refl), timers_owned found (suc k))
