-- ===== src/Runtime.antt =====
-- engine-core/src/runtime: the state of running processes.
pub mod Pending
pub mod Instance
pub mod State
