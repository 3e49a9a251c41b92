-- ===== src/Rag.antt =====
-- The retrieval pipeline that answers a question from the knowledge base: internal/ai/rag.
pub mod Types
pub mod Merge
pub mod Context
pub mod Decision
pub mod Retrieve
pub mod Pipeline
