-- ===== src/Intake.antt =====
-- The assessment of an incoming message without a model: internal/application/workflows/intake.
pub mod Score
pub mod Confidence
pub mod Spec
