-- ===== src/Domain/Error.antt =====
-- engine-core/src/domain/error.rs: the errors of the engine, and results. A message that the
-- source formats is kept as the format (a constructor of `Reason`) with its arguments.
use bpmninja.Prelude.{ℕ, String, ◌≡◌, refl}

-- A UUID is a 128-bit number.
abbrev pub Uuid : Type 0
Uuid = ℕ

-- The texts that `InvalidDefinition` is raised with.
pub data Reason : Type 0 where
  no_start_event multiple_start_events no_end_event : Reason
  boundary_unattached : (node_id attached_to : String) → Reason
  no_outgoing_flow : (node_id : String) → Reason
  gateway_flows : (node_id : String) → Reason
  event_gateway_target : (node_id target : String) → Reason
  join_barrier_missing : (gateway_id : String) → (instance_id : Uuid) → Reason
  token_missing : (token_id : Uuid) → Reason
  not_an_incident not_suspended : Reason
  subprocess_missing : (subprocess_id : String) → Reason
  no_matching_flow : (from : String) → Reason
  duplicate_process : (process_id : String) → Reason
  -- The position is that of the error in the expression.
  flow_condition : (source target : String) (position : ℕ) → Reason
  join_condition event_condition : (node_id : String) (position : ℕ) → Reason

-- The texts that `DataMappingError` is raised with.
pub data MappingReason : Type 0 where
  variable_missing : (name : String) → MappingReason
  bad_target : (target : String) → MappingReason
  activation_unmapped : (node : String) → MappingReason

pub data EngineError : Type 0 where
  invalid_definition : Reason → EngineError
  data_mapping_error : MappingReason → EngineError
  no_such_node : String → EngineError
  no_such_definition : Uuid → EngineError
  no_such_instance : Uuid → EngineError
  task_not_pending : (task_id : Uuid) (actual_state : String) → EngineError
  already_completed : EngineError
  timer_mismatch : (expected provided : ℕ) → EngineError
  no_matching_condition : String → EngineError
  service_task_not_found : Uuid → EngineError
  service_task_locked : (task_id : Uuid) (worker_id : String) → EngineError
  service_task_not_locked : Uuid → EngineError
  definition_has_instances : ℕ → EngineError
  orphaned_token : String → EngineError
  persistence_error : String → EngineError
  script_error : String → EngineError
  execution_limit_exceeded : (instance_id : Uuid) (limit : ℕ) → EngineError
  instance_suspended : Uuid → EngineError
  incident_not_found : Uuid → EngineError
  incident_already_resolved : Uuid → EngineError

pub data Result {ℓ} (E : Type 0) (A : Type ℓ) : Type ℓ where
  err : E → Result E A
  ok : A → Result E A

module _ {ℓ κ} {E : Type 0} {A : Type ℓ} {B : Type κ} where
  infixl 5 ◌>>=◌ ◌>>◌
  -- `m?` and the rest of the function.
  abbrev pub ◌>>=◌ : Result E A → (A → Result E B) → Result E B
  err e >>= f = err e
  ok a >>= f = f a

  abbrev pub ◌>>◌ : Result E A → Result E B → Result E B
  m >> next = m >>= λ _. next

  pub >>=-eq-ok :
      (m : Result E A) (f : A → Result E B) {b : B}
      → (m >>= f) ≡ ok b
      → (first : A) × (m ≡ ok first) × (f first ≡ ok b)
  >>=-eq-ok (err e) f done = cc
  >>=-eq-ok (ok first) f done = (first, refl, done)

abbrev pub EngineResult {ℓ} : Type ℓ → Type ℓ
EngineResult A = Result EngineError A
