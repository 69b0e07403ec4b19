-- ===== src/Engine/Join/Register.antt =====
-- What registering a join changes.
use bpmninja.Prelude.{
  ℕ, String, ◌≡◌, ◌≢◌, refl, Option, none, some, List, [], Map, get, get-insert_self,
  get-insert_other, string_eq,
}
use bpmninja.Domain.Token.{Token}
use bpmninja.Runtime.Instance.{JoinBarrier}
use bpmninja.Engine.Join.{register_barrier, registered}

abbrev pub arrived_at : {V : Type 0} → Option (JoinBarrier V) → List (Token V)
arrived_at none = []
arrived_at (some b) = b.arrived_tokens

registered_count :
    {V : Type 0} (join_id : String) (n : ℕ) (b : Option (JoinBarrier V))
    → (registered join_id n b).expected_count ≡ n
registered_count join_id n none = refl
registered_count join_id n (some b) = refl

registered_tokens :
    {V : Type 0} (join_id : String) (n : ℕ) (b : Option (JoinBarrier V))
    → (registered join_id n b).arrived_tokens ≡ arrived_at b
registered_tokens join_id n none = refl
registered_tokens join_id n (some b) = refl

-- Registering a join sets the number that its barrier expects, keeps the tokens that have arrived
-- there, and leaves the barrier of any other gateway alone.
register_barrier_keeps :
    {V : Type 0} (join_id other : String) (n : ℕ) (barriers : Map String (JoinBarrier V))
    → join_id ≢ other
    → ((b : JoinBarrier V) × (get join_id (register_barrier join_id n barriers) ≡ some b)
        × (b.expected_count ≡ n)
        × (b.arrived_tokens ≡ arrived_at (get join_id barriers)))
      × (get other (register_barrier join_id n barriers) ≡ get other barriers)
unfolding register_barrier
register_barrier_keeps join_id other n barriers apart = (
  (
    registered join_id n (get join_id barriers),
    get-insert_self join_id _ barriers,
    registered_count join_id n (get join_id barriers),
    registered_tokens join_id n (get join_id barriers),
  ),
  get-insert_other join_id other _ barriers apart,
)
