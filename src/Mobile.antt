-- ===== src/Mobile.antt =====
-- The devices of the mobile gateway: their pairing and their tokens.
pub mod Storage
pub mod Scopes
pub mod Pairing
pub mod Tokens
pub mod Steps
pub mod Once
pub mod Revocation
pub mod Acceptance
pub mod Guesses
pub mod Tickets
