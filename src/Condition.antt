-- ===== src/Condition.antt =====
-- engine-core/src/condition.rs: the condition language of flows, gateways and events.
pub mod Syntax
pub mod Literals
pub mod Lexer
pub mod Parser
pub mod Evaluator
pub mod Errors
