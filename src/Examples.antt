-- ===== src/Examples.antt =====
-- Tests of the definitions at concrete inputs, and uses of the theorems.
mod LlmCalls
mod ToolCalls
mod RagRuns
mod Assessments
mod Messages
mod Selections
mod Turns
mod PendingCalls
mod Parallel
mod Budgets
