-- ===== src/Llm.antt =====
-- The calls of language models: internal/infra/llm.
pub mod Errors
pub mod Breaker
pub mod Resilient
pub mod Failover
pub mod Routed
