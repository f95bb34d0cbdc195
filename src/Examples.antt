-- ===== src/Examples.antt =====
-- The theorems applied to concrete inputs, one module per component.
pub mod Queue
pub mod Governor
pub mod Pilot
pub mod Risks
pub mod Paper
pub mod Access
pub mod Wallet
pub mod Prices
pub mod Conditions
pub mod Mobile
pub mod Signer
pub mod Gates
pub mod Promotions
