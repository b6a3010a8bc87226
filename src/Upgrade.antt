-- ===== src/Upgrade.antt =====
-- The upgrade of the platform's own service: its records, the handlers of its stages, and the workflow.
pub mod Store
pub mod Stages
pub mod Triples
pub mod Forward
pub mod Atomic
