-- ===== src/Crypto/Hasher.antt =====
-- A checksum whose kind is chosen at run time (src/crypto/hasher.hpp, src/crypto/hasher.cpp).
-- The address of the data, which CRC32 depends on, is an argument; the number `m` of values of
-- `uint_fast32_t` and the width of `size_t` are parameters.
pub mod Kinds
pub mod Tests
use innoextract_wasm.Base.{ℕ, List, [], ◌∷◌}
use innoextract_wasm.Crypto.IteratedHash.{IteratedHash}
use innoextract_wasm.Crypto.IteratedHash
use innoextract_wasm.Crypto.Adler32
use innoextract_wasm.Crypto.Crc32
use innoextract_wasm.Crypto.Md5.{md5_transform}
use innoextract_wasm.Crypto.Sha1.{sha1_transform}
use innoextract_wasm.Crypto.Checksum.{
  ChecksumType, no_checksum, adler32, crc32, md5, sha1, Checksum, no_sum, adler32_sum, crc32_sum,
  md5_sum, sha1_sum,
}

-- The union, with `active_type`.
pub data Hasher : Type 0 where
  no_hasher : Hasher
  adler32_hasher : ℕ → Hasher
  crc32_hasher : ℕ → Hasher
  md5_hasher : IteratedHash → Hasher
  sha1_hasher : IteratedHash → Hasher

-- The constructor, with what stands in the buffer that is not initialised.
pub hasher : ChecksumType → List ℕ → Hasher
hasher no_checksum buffer = no_hasher
hasher adler32 buffer = adler32_hasher Adler32.init
hasher crc32 buffer = crc32_hasher Crc32.init
hasher md5 buffer = md5_hasher (IteratedHash.init md5_transform buffer)
hasher sha1 buffer = sha1_hasher (IteratedHash.init sha1_transform buffer)

pub update : ℕ → ℕ → ℕ → Hasher → List ℕ → Hasher
update m size_bits address no_hasher bytes = no_hasher
update m size_bits address (adler32_hasher state) bytes =
    adler32_hasher (Adler32.update m state bytes)
update m size_bits address (crc32_hasher crc) bytes = crc32_hasher (Crc32.update address crc bytes)
update m size_bits address (md5_hasher h) bytes =
    md5_hasher (IteratedHash.update md5_transform size_bits h bytes)
update m size_bits address (sha1_hasher h) bytes =
    sha1_hasher (IteratedHash.update sha1_transform size_bits h bytes)

-- `adler32::finalize` returns the state.
pub finalize : Hasher → Checksum
finalize no_hasher = no_sum
finalize (adler32_hasher state) = adler32_sum state
finalize (crc32_hasher crc) = crc32_sum (Crc32.finalize crc)
finalize (md5_hasher h) = md5_sum (IteratedHash.finalize md5_transform h)
finalize (sha1_hasher h) = sha1_sum (IteratedHash.finalize sha1_transform h)
