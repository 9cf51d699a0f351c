-- ===== src/Core.antt =====
-- murmur/core: the events of a run, and what is derived from them.
pub mod Events
pub mod Json
pub mod Schema
pub mod Types
pub mod Judge
pub mod Acceptance
pub mod Divergence
pub mod Classify
pub mod Metrics
