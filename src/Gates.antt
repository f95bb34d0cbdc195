-- ===== src/Gates.antt =====
-- The gates over evidence that comes as untyped mappings.
pub mod Values
pub mod Times
pub mod AutonomousPilot
pub mod ManualLiveProof
