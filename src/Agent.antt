-- ===== src/Agent.antt =====
-- agent/ and tools/: the single-agent loop.
pub mod State
pub mod Schema
pub mod Conforms
pub mod Registry
pub mod Nodes
pub mod Orchestrator
pub mod Bounds
pub mod Runs
pub mod Fallback
mod Tests
pub mod Dispatch
