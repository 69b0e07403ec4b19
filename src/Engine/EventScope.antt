-- ===== src/Engine/EventScope.antt =====
-- engine-core/src/engine/event_subprocess.rs: the handlers of the event subprocesses of an instance.
-- `now` is the clock reading and `new_id` the `Uuid::new_v4()` of the token of the handler.
pub mod Handler
pub mod Order
pub mod Choice
pub mod Joined
pub mod Preferred
pub mod Started
pub mod Calls
pub mod Abort
pub mod Activation
use Prim.Native.Char.{code}
use bpmninja.Prelude.{
  ℕ, zero, suc, ◌-◌, String, Bool, true, false, not, ◌&&◌, ◌||◌, Option, none, some, List, [], ◌∷◌,
  ◌++◌, Map, map, get, insert, extend, keys, nat_eq, string_eq, option_eq, ◌==◌, if◌then◌else◌, ltb,
  nat_beq, length, any, find, select,
}
use bpmninja.Domain.Error.{
  Uuid, EngineResult, ok, err, no_such_instance, no_such_definition, invalid_definition,
  subprocess_missing,
}
use bpmninja.Domain.Element.{EventSubProcessTrigger}
use bpmninja.Domain.Timer.{TimerDefinition, Calendar, next_expiry, is_recurring}
use bpmninja.Domain.Token.{Token, with_variables}
use bpmninja.Domain.Graph.{ProcessDefinition, EventSubProcess, event_subprocess_by_id}
use bpmninja.Runtime.Pending.{PendingTimer, PendingMessageCatch, PendingSignalCatch}
use bpmninja.Runtime.Instance.{
  ProcessInstance, InstanceState, EventSubscription, scope_interrupted, handler_activated,
}
use bpmninja.Runtime.State.{Engine, emit, persist_instance, find_instance, find_definition}
use bpmninja.Engine.Incidents.{push_audit_log}
use bpmninja.Engine.TimerIndex.{insert_pending_timer}
use bpmninja.Engine.Waits.{each, cancel_scope_waits}

pub data EventConsumption : Type 0 where
  timer : PendingTimer → EventConsumption
  message : PendingMessageCatch → EventConsumption
  signal : PendingSignalCatch → EventConsumption
  code_event : EventConsumption

pub data ScopeActivation (V : Type 0) : Type 0 where
  interrupting parallel : Token V → ScopeActivation V

pub record TimerReschedule : Type 0 where
  pub expires_at : ℕ
  pub remaining : Option ℕ
  pub definition : TimerDefinition

module _ {V : Type 0} where
  abbrev pub is_terminal : InstanceState V → Bool
  is_terminal InstanceState.completed = true
  is_terminal (InstanceState.completed_with_error _) = true
  is_terminal _ = false

  -- Whether a handler may start: the instance is neither suspended nor at an end.
  abbrev pub is_runnable : InstanceState V → Bool
  is_runnable InstanceState.completed = false
  is_runnable (InstanceState.completed_with_error _) = false
  is_runnable (InstanceState.suspended _) = false
  is_runnable _ = true

-- `matches!(remaining, Some(0 | 1))`
abbrev pub is_last : Option ℕ → Bool
is_last (some n) = ltb n 2
is_last none = false

-- `saturating_sub(1)`
abbrev pub count_down : Option ℕ → Option ℕ
count_down none = none
count_down (some left) = some (left - 1)

abbrev rescheduled : Option ℕ → Option ℕ → TimerDefinition → Option TimerReschedule
rescheduled none remaining definition = none
rescheduled (some at) remaining definition =
    some (record { expires_at = at; remaining = count_down remaining; definition = definition })

unfoldable pub reschedule_trigger :
    Calendar → EventSubProcessTrigger → Option ℕ → (now : ℕ) → Option TimerReschedule
reschedule_trigger c (EventSubProcessTrigger.timer definition) remaining now =
    if is_recurring definition && not (is_last remaining)
    then rescheduled (next_expiry c definition now) remaining definition
    else none
reschedule_trigger c _ remaining now = none

unfoldable pub reschedule_timer :
    Calendar → EventSubProcess → EventSubscription → (now : ℕ) → Option TimerReschedule
unfolding reschedule_trigger
reschedule_timer c handler subscription now =
    if handler.is_interrupting
    then none
    else reschedule_trigger c handler.trigger subscription.remaining now

abbrev pub is_timer : EventSubProcessTrigger → Bool
is_timer (EventSubProcessTrigger.timer _) = true
is_timer _ = false

-- The order of `str`: by code points.
unfoldable pub text_before : String → String → Bool
text_before s String.[] = false
text_before String.[] (String.◌∷◌ d t) = true
text_before (String.◌∷◌ c s) (String.◌∷◌ d t) =
    if ltb (code c) (code d) then true else if ltb (code d) (code c) then false else text_before s t

-- What a handler catches: `(&handler.trigger, escalation)` with the code that it expects.
abbrev pub expected_code : EventSubProcessTrigger → (is_escalation : Bool) → Option (Option String)
expected_code (EventSubProcessTrigger.error expected) false = some expected
expected_code (EventSubProcessTrigger.escalation expected) true = some expected
expected_code _ _ = none

abbrev pub accepts : Option String → String → Bool
accepts none thrown = true
accepts (some expected) thrown = expected == thrown

-- A candidate: whether it catches every code, its subscription and its handler.
pub record Candidate : Type 0 where
  pub catches_all : Bool
  pub subscription : EventSubscription
  pub handler : EventSubProcess

abbrev pub catching :
    EventSubscription → EventSubProcess → Option (Option String) → String → Option Candidate
catching subscription handler none thrown = none
catching subscription handler (some expected) thrown =
    if accepts expected thrown
    then some (record {
      catches_all = elim expected [ none ↦ true | some _ ↦ false ];
      subscription = subscription;
      handler = handler;
    })
    else none

abbrev pub push : Option Candidate → List Candidate → List Candidate
push none cs = cs
push (some c) cs = c ∷ cs

module _ {V : Type 0} (def : ProcessDefinition V) (thrown : String) (is_escalation : Bool)
    (exclude : Option String) where
  -- The body of the loop over the subscriptions.
  unfoldable pub candidate : EventSubscription → Option Candidate
  unfolding event_subprocess_by_id
  candidate subscription =
      if exclude == some subscription.subprocess_id
      then none
      else elim (event_subprocess_by_id def subscription.subprocess_id) [
        | none ↦ none
        | some handler ↦
            catching subscription handler (expected_code handler.trigger is_escalation) thrown
      ]

  unfoldable pub candidates : List EventSubscription → List Candidate
  unfolding candidate
  candidates [] = []
  candidates (first ∷ rest) = push (candidate first) (candidates rest)

-- The order of `candidates.sort_by`: handlers of one code first, then by the handler's identifier.
unfoldable pub sorts_before : Candidate → Candidate → Bool
unfolding text_before
sorts_before a b =
    if a.catches_all
    then b.catches_all && text_before a.handler.id b.handler.id
    else not b.catches_all && text_before a.handler.id b.handler.id || b.catches_all

-- A stable sort.
unfoldable pub sort_in : Candidate → List Candidate → List Candidate
unfolding sorts_before
sort_in x [] = x ∷ []
sort_in x (y ∷ ys) = if sorts_before y x then y ∷ sort_in x ys else x ∷ y ∷ ys

unfoldable pub sorted : List Candidate → List Candidate
unfolding sort_in
sorted [] = []
sorted (x ∷ xs) = sort_in x (sorted xs)

abbrev pub first : List Candidate → Option Candidate
first [] = none
first (x ∷ xs) = some x
