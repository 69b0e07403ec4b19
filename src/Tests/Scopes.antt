-- ===== src/Tests/Scopes.antt =====
-- The theorems on event scopes, boundary events and pending waits at concrete inputs.
use bpmninja.Prelude.{
  ℕ, ◌≡◌, refl, String, true, false, Option, none, some, List, [], ◌∷◌, get, insert, nat_eq,
  string_eq, All, arith,
}
use bpmninja.Domain.Error.{Uuid}
use bpmninja.Domain.Element.{BpmnElement, EventSubProcessTrigger}
use bpmninja.Domain.Graph.{ProcessDefinition, EventSubProcess}
use bpmninja.Runtime.Instance.{ProcessInstance, EventSubscription}
use bpmninja.Runtime.Pending.{PendingMessageCatch}
use bpmninja.Runtime.State.{Engine}
use bpmninja.Engine.TopicIndex.{insert_pending_service_task}
use bpmninja.Engine.TopicIndex.Consistent.{
  IsConsistent, has_topic, insert_pending_service_task-IsConsistent,
}
use bpmninja.Engine.TimerIndex.Due.{IsTimed}
use bpmninja.Engine.Waits.{drop_waits, cancel_scope_waits}
use bpmninja.Engine.Waits.Released.{HasKeyedWaits, Released}
use bpmninja.Engine.Waits.Cancelled.{cancel_scope_waits-Released}
use bpmninja.Engine.Waits.Consistent.{drop_waits-IsConsistent}
use bpmninja.Engine.EventScope.Activation.{try_activate_event_code}
use bpmninja.Engine.EventScope.Started.{Starts, try_activate_event_code-Starts}
use bpmninja.Engine.EventScope.Handler.{abort_interrupted_instance}
use bpmninja.Engine.EventScope.Calls.{Ended}
use bpmninja.Engine.EventScope.Abort.{abort_interrupted_instance_ends}
use bpmninja.Engine.Boundary.{cancel_boundary_waits}
use bpmninja.Engine.Boundary.Cancelled.{Entered, Left, setup-cancel_waits}
use bpmninja.Tests.Samples.{process, token_at, task, instance_one, empty_engine, calendar, ids}

abbrev message : Uuid → Uuid → String → PendingMessageCatch
message id instance_id node_id = record {
  id = id;
  instance_id = instance_id;
  node_id = node_id;
  message_name = "order";
  token_id = 3;
}

-- Two instances wait for a message.
abbrev waiting_engine : Engine ℕ
waiting_engine = record empty_engine {
  pending_message_catches = (31, message 31 2 "recall") ∷ (32, message 32 5 "recall") ∷ [];
}

waiting_engine-IsConsistent : IsConsistent waiting_engine
unfolding get IsConsistent has_topic
waiting_engine-IsConsistent = (λ t i. refl, λ i task e. cc)

-- One of them waits for a worker too.
abbrev busy_engine : Engine ℕ
busy_engine = insert_pending_service_task (task none none) waiting_engine

busy_engine_keyed : HasKeyedWaits busy_engine
unfolding get insert_pending_service_task insert
busy_engine_keyed = record {
  users = (tt, tt);
  services = ((refl, tt), (refl, tt));
  timers = (tt, tt);
  messages = ((refl, (refl, tt)), (refl, (refl, tt)));
  signals = (tt, tt);
  conditionals = (tt, tt);
}

cancel_scope_waits-Released_example : Released 2 busy_engine (cancel_scope_waits 2 busy_engine)
cancel_scope_waits-Released_example = cancel_scope_waits-Released 2 busy_engine busy_engine_keyed

busy_engine-IsConsistent : IsConsistent busy_engine
unfolding get
busy_engine-IsConsistent =
    insert_pending_service_task-IsConsistent (task none none) waiting_engine
      waiting_engine-IsConsistent refl

busy_engine-IsTimed : IsTimed busy_engine
unfolding get insert_pending_service_task
busy_engine-IsTimed = (λ at id. refl, λ id t e. cc)

drop_waits-IsConsistent_example :
    IsConsistent (drop_waits 2 busy_engine) × IsTimed (drop_waits 2 busy_engine)
drop_waits-IsConsistent_example =
    drop_waits-IsConsistent 2 busy_engine busy_engine_keyed busy_engine-IsConsistent
      busy_engine-IsTimed

-- Two handlers for errors, of which one catches every code.
abbrev handler : String → Option String → EventSubProcess
handler id code = record {
  id = id;
  start_node = "caught";
  node_ids = [];
  trigger = EventSubProcessTrigger.error code;
  is_interrupting = true;
}

abbrev guarded : ProcessDefinition ℕ
guarded = record process {
  event_subprocesses = handler "any" none ∷ handler "jam" (some "JAM") ∷ [];
}

abbrev subscription : Uuid → String → EventSubscription
subscription id subprocess_id = record {
  id = id;
  subprocess_id = subprocess_id;
  next_due = none;
  remaining = none;
}

abbrev open_scope : List EventSubscription
open_scope = subscription 61 "any" ∷ subscription 62 "jam" ∷ []

abbrev guarded_instance : ProcessInstance ℕ
guarded_instance = record instance_one { event_subscriptions = open_scope }

abbrev guarded_engine : Engine ℕ
guarded_engine = record empty_engine {
  definitions = (1, guarded) ∷ [];
  instances = (2, guarded_instance) ∷ [];
}

try_activate_event_code-Starts_example :
    Starts calendar 40 100 2 "JAM" false [] none guarded guarded_instance guarded_engine
      (try_activate_event_code calendar 40 100 2 "JAM" false [] none guarded_engine)
unfolding get
try_activate_event_code-Starts_example =
    try_activate_event_code-Starts calendar 40 100 2 "JAM" false [] none guarded guarded_instance
      guarded_engine refl refl refl

-- An instance that calls another one.
abbrev calling_instance : ProcessInstance ℕ
calling_instance = record instance_one {
  outstanding_calls = (5, record { node_id = "a"; token = token_at 3 "a" [] }) ∷ [];
}

abbrev calling_engine : Engine ℕ
calling_engine = record waiting_engine {
  instances = (2, calling_instance) ∷ (5, record instance_one { id = 5 }) ∷ [];
}

abort_interrupted_instance_ends_example :
    let s' = abort_interrupted_instance 2 40 2 calling_engine in
    (abort_interrupted_instance 3 40 2 calling_engine ≡ s') × Ended s' 2 × All (Ended s') (5 ∷ [])
unfolding get
abort_interrupted_instance_ends_example =
    abort_interrupted_instance_ends 2 3 40 2 calling_instance calling_engine (omega arith)
      (omega arith) refl refl

-- A message recalls the task.
abbrev recallable : ProcessDefinition ℕ
recallable = record process {
  nodes =
      ("a", BpmnElement.service_task "print" none)
      ∷ ("recall", BpmnElement.boundary_message_event "a" "order" true)
      ∷ [];
}

abbrev recallable_engine : Engine ℕ
recallable_engine = record waiting_engine { definitions = (1, recallable) ∷ [] }

recallable_engine_keyed : HasKeyedWaits recallable_engine
unfolding get
recallable_engine_keyed = record {
  users = (tt, tt);
  services = (tt, tt);
  timers = (tt, tt);
  messages = ((refl, (refl, tt)), (refl, (refl, tt)));
  signals = (tt, tt);
  conditionals = (tt, tt);
}

setup-cancel_waits_example :
    Entered calendar 40 ids recallable "a" 2 (token_at 3 "a" [])
    × Left calendar 40 ids recallable "a" 2
        (token_at 3 "a" [])
        recallable_engine
        (cancel_boundary_waits 2 "a" recallable_engine)
unfolding get
setup-cancel_waits_example =
    setup-cancel_waits calendar 40 ids recallable "a" 2 (token_at 3 "a" []) instance_one
      recallable_engine refl refl recallable_engine_keyed
