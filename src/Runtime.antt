-- ===== src/Runtime.antt =====
-- services/agent-runtime: one turn of a deployed agent, and the gate in front of its endpoints.
pub mod Guardrail
pub mod Closed
pub mod Memory
pub mod Window
pub mod Prompt
pub mod Rag
pub mod State
pub mod Orchestrator
pub mod Post
pub mod Replies
pub mod Parking
pub mod Pauses
pub mod Calls
pub mod Invokes
pub mod Startup
pub mod Starts
pub mod Redeploys
pub mod Jwt
pub mod Gate
pub mod Admits
