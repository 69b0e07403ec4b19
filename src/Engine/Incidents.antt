-- ===== src/Engine/Incidents.antt =====
-- The audit log and the incidents of an instance: `impl ProcessInstance` of
-- engine-core/src/runtime/instance.rs, and engine-core/src/engine/incidents.rs. `now` is the clock
-- reading and `new_id` the `Uuid::new_v4()` of a call.
pub mod Bounds
pub mod Update
pub mod Dedup
use bpmninja.Prelude.{
  ℕ, zero, suc, ◌+◌, ◌-◌, ◌^◌, min, String, Bool, true, false, not, ◌&&◌, Option, none, some, List,
  [], ◌∷◌, ◌++◌, Map, get, insert, ◌==◌, nat_eq, string_eq, option_eq, is_some, if◌then◌else◌, ltb,
  nat_beq, length, drop, any, select,
}
use bpmninja.Domain.Error.{
  Uuid, EngineResult, ok, err, no_such_instance, incident_not_found, incident_already_resolved,
}
use bpmninja.Domain.Incident.{IncidentKind, Incident, max_incidents_per_instance, kind_eq}
use bpmninja.Runtime.Instance.{ProcessInstance, AuditEntry}
use bpmninja.Runtime.State.{Engine, persist_instance, emit}

-- engine-core/src/runtime/constants.rs
abbrev pub max_audit_log_entries : ℕ
max_audit_log_entries = 200

abbrev pub u32_max : ℕ
u32_max = 2 ^ 32 - 1

-- The cap on the audit log: the oldest entries go.
unfoldable pub cap_log : List AuditEntry → List AuditEntry
cap_log log =
    if ltb max_audit_log_entries (length log)
    then drop (length log - max_audit_log_entries) log
    else log

unfoldable pub push_audit_log : {V : Type 0} → AuditEntry → ProcessInstance V → ProcessInstance V
unfolding cap_log
push_audit_log entry inst = record inst { audit_log = cap_log (inst.audit_log ++ entry ∷ []) }

unfoldable pub append_audit_log :
    {V : Type 0} → List AuditEntry → ProcessInstance V → ProcessInstance V
unfolding cap_log
append_audit_log entries inst = record inst { audit_log = cap_log (inst.audit_log ++ entries) }

abbrev pub is_open : Incident → Bool
is_open i = not (is_some i.resolved_at)

-- What a new incident has in common with an open one that it is merged into.
abbrev pub matches : IncidentKind → Option String → Option Uuid → Incident → Bool
matches kind node_id task_id i =
    is_open i && (i.kind == kind && (i.node_id == node_id && i.task_id == task_id))

abbrev pub or_keep : Option String → Option String → Option String
or_keep none old = old
or_keep (some details) old = some details

unfoldable pub touch : ℕ → String → Option String → Incident → Incident
touch now message details i = record i {
  occurrences = min (i.occurrences + 1) u32_max;
  last_seen_at = now;
  message = message;
  details = or_keep details i.details;
}

-- `iter_mut().find(…)`, then the update of what was found.
unfoldable pub update_first :
    (Incident → Bool) → (Incident → Incident) → List Incident → Option (Uuid × List Incident)
update_first p f [] = none
update_first p f (i ∷ is) =
    if p i
    then some (i.id, f i ∷ is)
    else elim (update_first p f is) [ none ↦ none | some (id, rest) ↦ some (id, i ∷ rest) ]

-- One step of `min_by_key(created_at)`, which keeps the first of equal keys.
abbrev pub consider : Bool → ℕ → ℕ → Option (ℕ × ℕ) → Option (ℕ × ℕ)
consider false k created_at best = best
consider true k created_at none = some (k, created_at)
consider true k created_at (some (j, at)) =
    if ltb created_at at then some (k, created_at) else some (j, at)

-- `enumerate().filter(…).min_by_key(created_at)`; `best` is what the entries before index `k` gave.
unfoldable pub oldest : (Incident → Bool) → ℕ → Option (ℕ × ℕ) → List Incident → Option (ℕ × ℕ)
oldest p k best [] = best
oldest p k best (i ∷ is) = oldest p (suc k) (consider (p i) k i.created_at best) is

abbrev pub first_of : Option (ℕ × ℕ) → Option (ℕ × ℕ) → Option ℕ
first_of (some (k, _)) other = some k
first_of none (some (k, _)) = some k
first_of none none = none

-- The index that `trim_incidents` removes: the oldest resolved incident, or else the oldest.
unfoldable pub victim : List Incident → Option ℕ
unfolding oldest
victim is = first_of (oldest (λ i. is_some i.resolved_at) 0 none is) (oldest (λ _. true) 0 none is)

-- `Vec::remove`
unfoldable pub remove_at : ℕ → List Incident → List Incident
remove_at k [] = []
remove_at zero (i ∷ is) = is
remove_at (suc k) (i ∷ is) = i ∷ remove_at k is

-- The `while` loop of `trim_incidents`. A round removes an entry, so the length is enough fuel.
unfoldable pub trim_rounds : ℕ → List Incident → List Incident
trim_rounds zero is = is
trim_rounds (suc fuel) is = elim (ltb max_incidents_per_instance (length is)) [
  | false ↦ is
  | true ↦ elim (victim is) [ none ↦ is | some k ↦ trim_rounds fuel (remove_at k is) ]
]

unfoldable pub trim_incidents : List Incident → List Incident
trim_incidents is = trim_rounds (length is) is

module _ (now : ℕ) (new_id : Uuid) (kind : IncidentKind) (node_id : Option String)
    (task_id : Option Uuid) (message : String) (details : Option String) where
  abbrev pub fresh_incident : Incident
  fresh_incident = record {
    id = new_id;
    kind = kind;
    node_id = node_id;
    task_id = task_id;
    message = message;
    details = details;
    created_at = now;
    last_seen_at = now;
    occurrences = 1;
    resolved_at = none;
    resolved_by = none;
  }

  unfoldable pub push_or_touch_incident : List Incident → Uuid × List Incident
  push_or_touch_incident is =
      elim (update_first (matches kind node_id task_id) (touch now message details) is) [
        | some (id, updated) ↦ (id, updated)
        | none ↦ (new_id, trim_incidents (is ++ fresh_incident ∷ []))
      ]

  -- `record_incident_on`: the identifier, and whether the incident is a new one.
  unfoldable pub record_incident_on :
      {V : Type 0} → Engine V → Uuid → Option (Uuid × Bool) × Engine V
  record_incident_on s instance_id = elim (get instance_id s.instances) [
    | none ↦ (none, s)
    | some inst ↦
        let already_open = any (matches kind node_id task_id) inst.incidents in
        let (id, is) = push_or_touch_incident inst.incidents in
        (
          some (id, not already_open),
          record s { instances = insert instance_id (record inst { incidents = is }) s.instances },
        )
  ]

abbrev pub has_id : Uuid → Incident → Bool
has_id id i = nat_beq i.id id

abbrev pub find_incident : Uuid → List Incident → Option Incident
find_incident id [] = none
find_incident id (i ∷ is) = if has_id id i then some i else find_incident id is

-- The first incident with the identifier becomes `r`.
unfoldable pub replace_incident : Uuid → Incident → List Incident → List Incident
replace_incident id r [] = []
replace_incident id r (i ∷ is) = if has_id id i then r ∷ is else i ∷ replace_incident id r is

unfoldable pub resolve_instance_incident :
    {V : Type 0}
    → (now : ℕ) → Engine V
    → Uuid
    → Uuid
    → Option String
    → EngineResult Incident × Engine V
resolve_instance_incident now s instance_id incident_id resolved_by =
    elim (get instance_id s.instances) [
      | none ↦ (err (no_such_instance instance_id), s)
      | some inst ↦ elim (find_incident incident_id inst.incidents) [
        | none ↦ (err (incident_not_found incident_id), s)
        | some incident ↦
            let resolved = record incident { resolved_at = some now; resolved_by = resolved_by } in
            if is_some incident.resolved_at
            then (err (incident_already_resolved incident_id), s)
            else (
              ok resolved,
              emit (persist_instance instance_id) (record s {
                instances =
                    insert instance_id
                      (record inst {
                        incidents = replace_incident incident_id resolved inst.incidents;
                      })
                      s.instances;
              }),
            )
      ]
    ]
