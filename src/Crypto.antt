-- ===== src/Crypto.antt =====
-- The checksums and the cipher of src/crypto.
pub mod Arc4
pub mod Crc32
pub mod Adler32
pub mod IteratedHash
pub mod Md5
pub mod Sha1
pub mod Checksum
pub mod Hasher
