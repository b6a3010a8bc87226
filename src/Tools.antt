-- ===== src/Tools.antt =====
-- services/agent-runtime: the tool policy engine and the tool executor of a generated agent.
pub mod Policy
pub mod Executor
pub mod Clearance
pub mod Permitted
