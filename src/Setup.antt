-- ===== src/Setup.antt =====
-- The parts of src/setup: what the setup headers say and how it is used.
pub mod Expression
pub mod Filename
pub mod Version
pub mod Load
pub mod Entry
pub mod Header
pub mod Info
