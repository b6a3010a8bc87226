-- ===== src/Approval.antt =====
-- The human approval of tool calls: the queue of app/modules/hitl and the pause and resumption of a
-- turn in services/agent-runtime, which share the table panasa-hitl-reviews.
pub mod Review
pub mod Resume
pub mod Claims
pub mod Decide
pub mod Once
pub mod Races
