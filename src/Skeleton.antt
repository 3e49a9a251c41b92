-- ===== src/Skeleton.antt =====
-- The execution of chat tools: internal/application/skeleton.
pub mod Template
pub mod Pending
pub mod Response
pub mod Orchestrator
