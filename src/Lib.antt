-- ===== src/Lib.antt =====
-- The core of the BPMN engine (crate engine-core): process definitions and their deployment, the
-- condition language, the executor with its gateways, joins and data mappings, event scopes and
-- boundary events, the life of an instance, incidents, timers, and the service tasks that workers
-- fetch and lock.
--
-- How the parts work together. A `ProcessDefinition` (engine-core/src/domain/definition.rs) is a
-- graph of `BpmnElement`s. A `ProcessInstance` (engine-core/src/runtime/instance.rs) moves `Token`s
-- through it: gateways (engine-core/src/engine/gateway.rs) split them, join barriers
-- (engine-core/src/engine/executor/parallel.rs) merge them, and an activity reads and writes the
-- variables of its token through data mappings (engine-core/src/engine/data_mappings.rs). The
-- executor (engine-core/src/engine/executor) takes the tokens of a batch one by one, has each step
-- executed, and applies the `NextAction` that it answers: it queues tokens, stores what is waited
-- for, or ends a path or the instance. Errors and escalations go to the handlers of event
-- subprocesses (engine-core/src/engine/event_subprocess.rs). A service
-- task that waits for a worker is in `pending_service_tasks` and in a topic index
-- (engine-core/src/engine/topic_index.rs). Workers fetch and lock such tasks and report failures
-- (engine-core/src/engine/service_task.rs); a task without retries becomes an incident of its
-- instance (engine-core/src/engine/incidents.rs).
--
-- Files and code. Paths are under engine-core/src.
--   Prelude      Boolean tests, equality, lists, maps as lists of entries, signed integers
--   Domain       the types of domain/; Domain/Definition/Validation is `ProcessDefinition::new`,
--                and Domain/Definition/Builder is `ProcessDefinitionBuilder`
--   Condition    condition.rs: the condition language. Condition/Literals and Condition/Lexer make
--                tokens, Condition/Parser expressions, and Condition/Evaluator values; each has the
--                lemmas about it below it
--   Runtime      the types of runtime/, and in Runtime/State the fields of `WorkflowEngine` in use
--   Engine/Gateway      engine/gateway.rs: `execute_parallel_gateway` and the other three
--   Engine/Topology     engine/executor/helpers.rs: `find_downstream_join` and the lookups
--   Engine/Join         engine/executor/parallel.rs: `register_join_barrier_if_needed`,
--                       `register_active_token`, `arrive_at_join`
--   Engine/Mappings     engine/data_mappings.rs: `enter`, `leave` and the multi-instance outputs
--   Engine/Incidents    runtime/instance.rs: `push_audit_log`, `push_or_touch_incident`,
--                       `trim_incidents`; engine/incidents.rs: `resolve_instance_incident`
--   Engine/TopicIndex   engine/topic_index.rs
--   Engine/ServiceTask  engine/service_task.rs: `fetch_and_lock_inner` and its callers
--   Engine/TaskFailure  engine/service_task.rs: `fail_service_task_with_retry_timeout`,
--                       `retry_incident`
--   Engine/TaskLock     engine/service_task.rs: `extend_lock`
--   Engine/Registry     engine/registry.rs, engine/definition_ops.rs: `deploy_definition`, and
--                       `flatten` of `deploy_collection`
--   Engine/RetryQueue   engine/retry_queue.rs: the attempts at a job, and `drain_retry_queue`
--   Engine/TimerIndex   engine/timer_index.rs: `TimerDueIndex`, and the methods on pending timers
--   Engine/Waits        what ends the pending entries of an instance: engine/event_subprocess.rs
--                       (`cancel_scope_waits`, `close_event_scope`), and the clean-up in
--                       engine/instance_ops.rs and engine/executor/next_action.rs (`drop_waits`)
--   Engine/EventScope   engine/event_subprocess.rs: `try_activate_event_code`, `activate_handler`,
--                       `activate_event_subscription`, `abort_interrupted_instance`
--   Engine/Executor     engine/executor/completion.rs, engine/executor/next_action.rs in
--                       Engine/Executor/Dispatch and Engine/Executor/Ends, and the batch of
--                       engine/executor/mod.rs in Engine/Executor/Loop
--   Engine/Lifecycle    engine/instance_ops.rs: `suspend_instance`, `resume_instance`,
--                       `delete_instance`; Engine/Lifecycle/Definitions is `delete_definition` and
--                       `delete_all_definitions` of engine/definition_ops.rs
--   Engine/Boundary     engine/boundary.rs, and `cancel_boundary_timers` and
--                       `cancel_boundary_waits` of engine/mod.rs
--   Tests        sample data, and the theorems applied to it
--
-- Conventions. A method of `WorkflowEngine` is a function from the engine state to its result and
-- the new state. Each runs as one step: the locks of the source are not modelled, and neither is
-- what other threads do between two locks of one method. Clock readings, `Uuid::new_v4`, the
-- condition evaluator (`holds`) of the gateways, `f64`, `serde_json` values, the character classes
-- of `char`, calendar arithmetic and the JSON constructors are arguments. A `HashMap` is a list of
-- entries whose order stands for the iteration order. Times are nanoseconds; `DateTime` overflow
-- and the monotonic test clock are not modelled. Persistence, notifications and history are
-- recorded as effects, without their texts; logging and metrics are left out. The audit log is not
-- trimmed when an instance is persisted. The version of a definition is an `i32`, and its successor
-- wraps around as in a release build (`i32_succ`). `checked_add` of `Instant` is an argument. What the
-- batch of the executor calls of parts that are not modelled (`execute_step`,
-- `fire_conditional_catches`, `resume_parent_if_needed`, `spawn_call_activity_for_parent`) is a field
-- of `Behaviour`. The answers of the persistence layer to a deletion are arguments.
--
-- Fuel. `find_downstream_join` queues each flow of the definition at most once besides those of its
-- start node, and its fuel is their number and one more. `trim_incidents` removes an entry per
-- round, so the length of the list is enough. The lexer takes a unit of fuel per character, and the
-- parser ten per token and ten more. A write is tried with a unit per allowed attempt. A batch of the
-- executor takes a unit per step, and has one more than the steps that are allowed. Aborting an
-- interrupted instance takes a unit per level of calls, and the number of instances that have not
-- ended is enough, whatever calls call one another. Every other loop is structural.
--
-- Not modelled: the element handlers behind `execute_step`, opening and restoring event scopes, the
-- timer processor, message and signal correlation, starting and migrating instances, user tasks, the
-- message routes of a collection, task completion, the persistence back ends, scripting, the BPMN
-- parser and the server.

pub mod Prelude
pub mod Domain
pub mod Condition
pub mod Runtime
pub mod Engine
pub mod Tests
