-- ===== src/Domain/Definition.antt =====
-- engine-core/src/domain/definition.rs: process definitions and their structural validation.
-- `ProcessDefinition` holds the fields of one scope; `DefinitionTree` adds `sub_processes`.
mod Validation
pub mod WellFormed
pub mod Builder
pub use Validation.*
