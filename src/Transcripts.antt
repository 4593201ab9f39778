-- ===== src/Transcripts.antt =====
-- src/transcripts.rs: the canonical bytes that each signature covers.
pub mod Layout
pub mod Enc
pub mod Tags
pub mod Purpose
pub mod Keys
pub mod Messages
pub mod Requests
pub mod Fronts
pub mod Kinds
