-- ===== src/Tests/Execution.antt =====
-- The theorems on the executor and on the life of an instance at concrete inputs.
use bpmninja.Prelude.{
  ℕ, ◌+◌, ◌==◌, string_eq, ◌≡◌, refl, true, false, not, none, some, List, [], ◌∷◌, ◌++◌, get,
  nat_eq, nat_beq, kept, if◌then◌else◌,
}
use bpmninja.Domain.Error.{Uuid, EngineResult, ok, err, no_such_instance}
use bpmninja.Domain.Token.{Token}
use bpmninja.Runtime.Instance.{ProcessInstance, InstanceState, NextAction}
use bpmninja.Runtime.Pending.{PendingMessageCatch}
use bpmninja.Runtime.State.{Engine}
use bpmninja.Engine.Topology.{find_downstream_join}
use bpmninja.Engine.Join.{found_join}
use bpmninja.Engine.Waits.Released.{HasKeyedWaits}
use bpmninja.Engine.Executor.Ends.{terminate, complete_path}
use bpmninja.Engine.Executor.Ends.Terminated.{Terminated, terminate-Terminated}
use bpmninja.Engine.Executor.Ends.Completed.{PathEnded, complete_path-PathEnded}
use bpmninja.Engine.Executor.Dispatch.{handle_next_action}
use bpmninja.Engine.Executor.Dispatch.Waiting.{Stores, Parks, handle_next_action-Parks}
use bpmninja.Engine.Executor.Dispatch.Forking.{fork_of, handle_next_action-Forks}
use bpmninja.Engine.Executor.Loop.{Behaviour, max_execution_steps, run_instance_batch_with_tokens}
use bpmninja.Engine.Executor.Loop.Rounds.{EndsWith, run_instance_batch_with_tokens-Ends}
use bpmninja.Engine.Lifecycle.{suspend_instance, resume_instance, delete_instance}
use bpmninja.Engine.Lifecycle.Suspension.{suspend-resume}
use bpmninja.Engine.Lifecycle.Deletion.{DeletesWaits, delete_instance_cases}
use bpmninja.Engine.Lifecycle.Definitions.{delete_definition}
use bpmninja.Engine.Lifecycle.Definitions.Cascade.{delete_definition-Cascades}
use bpmninja.Tests.Samples.{calendar, holds, process, token_at, instance_one, empty_engine}

abbrev order : PendingMessageCatch
order = record { id = 31; instance_id = 2; node_id = "a"; message_name = "order"; token_id = 3 }

-- The instance waits for a message, and another one does too.
abbrev waiting_engine : Engine ℕ
waiting_engine = record empty_engine {
  pending_message_catches = (31, order) ∷ (32, record order { id = 32; instance_id = 5 }) ∷ [];
}

waiting_engine_keyed : HasKeyedWaits waiting_engine
unfolding get
waiting_engine_keyed = record {
  users = (tt, tt);
  services = (tt, tt);
  timers = (tt, tt);
  messages = ((refl, (refl, tt)), (refl, (refl, tt)));
  signals = (tt, tt);
  conditionals = (tt, tt);
}

abbrev not_spawned : Uuid → Uuid → Token ℕ → Engine ℕ → EngineResult Uuid × Engine ℕ
not_spawned parent definition token s = (err (no_such_instance parent), s)

-- A token goes from the task to the end of its path.
abbrev prints : Behaviour ℕ
prints = record {
  execute_step = λ id token s.
      if token.current_node == "a"
      then (ok (NextAction.continue (record token { current_node = "end" })), token, s)
      else (ok NextAction.complete, token, s);
  fire_conditional_catches = λ id s. (ok [], s);
  resume_parent_if_needed = λ id code s. (ok tt, s);
  spawn_call_activity_for_parent = not_spawned;
  evaluate_condition = holds;
  calendar = calendar;
  clock = λ n. n;
  fresh = λ n. 100 + n;
}

run_instance_batch_with_tokens-Ends_example :
    EndsWith prints max_execution_steps 2
      (token_at 3 "a" [] ∷ [])
      waiting_engine
      (run_instance_batch_with_tokens prints 2 (token_at 3 "a" [] ∷ []) waiting_engine)
run_instance_batch_with_tokens-Ends_example =
    run_instance_batch_with_tokens-Ends prints 2 (token_at 3 "a" [] ∷ []) waiting_engine

terminate-Terminated_example :
    Terminated 40 2 instance_one waiting_engine (terminate 40 2 waiting_engine)
unfolding get
terminate-Terminated_example =
    terminate-Terminated 40 2 instance_one waiting_engine refl waiting_engine_keyed

-- Two branches, of which one has come to its end.
abbrev forked_instance : ProcessInstance ℕ
forked_instance = record instance_one {
  state = InstanceState.parallel_execution 2;
  tokens = (3, token_at 3 "a" []) ∷ [];
  active_tokens =
      record {
        token = token_at 3 "a" [];
        fork_id = some "fork";
        branch_index = 0;
        completed = false;
      }
      ∷ record {
        token = token_at 4 "b" [];
        fork_id = some "fork";
        branch_index = 1;
        completed = true;
      }
      ∷ [];
}

abbrev forked_engine : Engine ℕ
forked_engine = record waiting_engine { instances = (2, forked_instance) ∷ (5, instance_one) ∷ [] }

complete_path-PathEnded_example :
    let (result, queue', s') = complete_path 40 2 3 (token_at 6 "b" [] ∷ []) forked_engine in
    (result ≡ ok tt)
    × (queue' ≡ token_at 6 "b" [] ∷ [])
    × ((k : Uuid) → nat_beq 2 k ≡ false → get k s'.instances ≡ get k forked_engine.instances)
    × ((after : ProcessInstance ℕ) × (get 2 s'.instances ≡ some after)
        × PathEnded 40 3 forked_instance after)
unfolding get
complete_path-PathEnded_example =
    complete_path-PathEnded 40 2 3 forked_instance (token_at 6 "b" [] ∷ []) forked_engine refl

abbrev both : List (Token ℕ)
both = token_at 4 "a" [] ∷ token_at 5 "b" [] ∷ []

handle_next_action-Forks_example :
    let join = found_join (find_downstream_join process "fork") in
    let (result, queue', s') =
      handle_next_action holds calendar not_spawned 40 100 2 3 "fork"
        (NextAction.continue_multiple both)
        (token_at 6 "b" [] ∷ [])
        waiting_engine in
    (result ≡ ok tt)
    × (queue' ≡ (token_at 6 "b" [] ∷ []) ++ both)
    × (get 2 s'.instances ≡ some (fork_of 3 "fork" both join instance_one))
    × ((k : Uuid) → nat_beq 2 k ≡ false → get k s'.instances ≡ get k waiting_engine.instances)
unfolding get
handle_next_action-Forks_example =
    handle_next_action-Forks holds calendar not_spawned 40 100 2 3 "fork" both
      (token_at 6 "b" [] ∷ []) instance_one process waiting_engine refl refl

handle_next_action-Parks_example :
    let next : NextAction ℕ = NextAction.wait_for_message (record order { id = 33 }) in
    let (result, queue', s') =
      handle_next_action holds calendar not_spawned 40 100 2 3 "a" next [] waiting_engine in
    (result ≡ ok tt)
    × (queue' ≡ [])
    × Stores next waiting_engine s'
    × Parks 2 instance_one (InstanceState.waiting_on_message 33) waiting_engine s'
unfolding get
handle_next_action-Parks_example =
    handle_next_action-Parks holds calendar not_spawned 40 100 2 3 "a"
      (NextAction.wait_for_message (record order { id = 33 })) (InstanceState.waiting_on_message 33)
      instance_one [] waiting_engine refl refl

suspend-resume_example :
    let (first, s') = suspend_instance 2 forked_engine in
    let (second, s'') = resume_instance 2 s' in
    (first ≡ ok tt)
    × (second ≡ ok tt)
    × ((during : ProcessInstance ℕ) × (get 2 s'.instances ≡ some during)
        × (during.state ≡ InstanceState.suspended (InstanceState.parallel_execution 2)))
    × ((after : ProcessInstance ℕ) × (get 2 s''.instances ≡ some after)
        × (after ≡ record forked_instance { audit_log = after.audit_log }))
    × ((k : Uuid) → nat_beq 2 k ≡ false → get k s''.instances ≡ get k forked_engine.instances)
unfolding get
suspend-resume_example = suspend-resume 2 forked_instance forked_engine refl refl

delete_instance_cases_example :
    let outcome = delete_instance (err (no_such_instance 2)) 2 waiting_engine in
    (get 2 outcome.1.instances ≡ none)
    × ((k : Uuid)
        → nat_beq 2 k ≡ false
        → get k outcome.1.instances ≡ get k waiting_engine.instances)
    × DeletesWaits (err (no_such_instance 2)) 2 waiting_engine outcome
unfolding get
delete_instance_cases_example =
    delete_instance_cases (err (no_such_instance 2)) 2 instance_one waiting_engine refl
      waiting_engine_keyed

abbrev agrees : Uuid → EngineResult (Unit {0})
agrees id = ok tt

delete_definition-Cascades_example :
    let (result, s') = delete_definition agrees agrees 1 true waiting_engine in
    (result ≡ ok tt)
    × ((k : Uuid)
        → get k s'.instances
          ≡ kept
              (λ (i : ProcessInstance ℕ). not (nat_beq i.definition_key 1))
              (get k waiting_engine.instances))
    × ((k : Uuid)
        → get k s'.definitions ≡ (if nat_beq 1 k then none else get k waiting_engine.definitions))
unfolding get
delete_definition-Cascades_example =
    delete_definition-Cascades agrees agrees 1 waiting_engine ((refl, tt), (refl, tt)) refl
      (λ id. refl) (λ id. refl)
