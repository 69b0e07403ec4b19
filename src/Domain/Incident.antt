-- ===== src/Domain/Incident.antt =====
-- engine-core/src/domain/incident.rs
use bpmninja.Prelude.{ℕ, String, Bool, true, false, Option, Eq, ◌≡◌, ◌↔◌, arith}
use bpmninja.Domain.Error.{Uuid}

abbrev pub max_incidents_per_instance : ℕ
max_incidents_per_instance = 100

pub data IncidentKind : Type 0 where
  service_task timer persistence bpmn_error : IncidentKind

abbrev pub kind_beq : IncidentKind → IncidentKind → Bool
kind_beq service_task service_task = true
kind_beq timer timer = true
kind_beq persistence persistence = true
kind_beq bpmn_error bpmn_error = true
kind_beq _ _ = false

pub kind_beq_iff : (a b : IncidentKind) → (kind_beq a b ≡ true) ↔ (a ≡ b)
kind_beq_iff a b = ground arith

instance abbrev pub kind_eq : Eq IncidentKind
kind_eq = record { same = kind_beq; agrees = kind_beq_iff }

unfoldable pub as_str : IncidentKind → String
as_str service_task = "service_task"
as_str timer = "timer"
as_str persistence = "persistence"
as_str bpmn_error = "bpmn_error"

pub record Incident : Type 0 where
  pub id : Uuid
  pub kind : IncidentKind
  pub node_id : Option String
  pub task_id : Option Uuid
  pub message : String
  pub details : Option String
  pub created_at : ℕ
  pub last_seen_at : ℕ
  pub occurrences : ℕ
  pub resolved_at : Option ℕ
  pub resolved_by : Option String
