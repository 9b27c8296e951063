-- ===== src/MultiAgent.antt =====
-- multiagent/: the multi-agent collaboration, its bounds, and the human approval gate.
pub mod State
pub mod Graph
pub mod Orchestrator
pub mod Bounds
pub mod Runs
pub mod Approval
pub mod Streaming
mod Tests
