-- ===== src/Keyfile.antt =====
-- identity-keyfile: the key files of an agent directory.
pub mod Text
pub mod Disk
pub mod Outcome
pub mod Op
pub mod Files
pub mod Identity
pub mod Load
pub mod Store
pub mod Create
