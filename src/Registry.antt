-- ===== src/Registry.antt =====
-- app/modules/registry: agents, their immutable versions, and what changes them.
pub mod Models
pub mod Contract
pub mod Db
pub mod Versioner
pub mod Agents
pub mod Create
pub mod Pipeline
pub mod Credentials
pub mod Project
pub mod Reading
mod ReadBack
pub mod Returned
pub mod History
