-- ===== src/Verify.antt =====
-- src/verify.rs: verification of chains, messages, approvals and peer revocations.
pub mod Time
pub mod Chain
pub mod Message
pub mod Approval
