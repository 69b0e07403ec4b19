-- ===== src/Engine.antt =====
-- engine-core/src/engine: the operations of the workflow engine.
pub mod Gateway
pub mod Topology
pub mod Join
pub mod Incidents
pub mod Mappings
pub mod Registry
pub mod RetryQueue
pub mod TopicIndex
pub mod ServiceTask
pub mod TaskFailure
pub mod TaskLock
pub mod TimerIndex
pub mod Waits
pub mod EventScope
pub mod Executor
pub mod Lifecycle
pub mod Boundary
