-- ===== src/Flock.antt =====
-- murmur/flock: the runtime that plans and runs workflows of operator nodes.
pub mod Ir
pub mod Validation
pub mod Gateway
pub mod Artifact
pub mod Operators
pub mod EventLog
pub mod Scheduler
pub mod Planner
