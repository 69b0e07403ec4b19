-- ===== src/Tests.antt =====
-- The concrete inputs on which the theorems are applied.
pub mod Samples
mod Flow
mod State
mod Locks
mod Timers
mod Expressions
mod Deployment
mod Execution
mod Scopes
