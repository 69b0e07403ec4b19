-- ===== src/Domain.antt =====
-- engine-core/src/domain: the data that the engine works on.
pub mod Error
pub mod Timer
pub mod Element
pub mod Data
pub mod Token
pub mod Graph
pub mod Definition
pub mod Incident
