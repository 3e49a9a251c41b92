-- ===== src/Concurrency.antt =====
-- Work in parallel: pkg/concurrency, as steps that workers and callers take in any order.
pub mod Limiter
pub mod Parallel
