-- ===== src/Stream.antt =====
-- The filters and streams of src/stream.
pub mod Exe4108
pub mod Exe5200
pub mod Slice
pub mod Block
