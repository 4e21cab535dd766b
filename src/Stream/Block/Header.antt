-- ===== src/Stream/Block/Header.antt =====
-- The header of a block: the part of `block_reader::get` that reads it (src/stream/block.cpp,
-- `load` of src/crypto/checksum.hpp, `ceildiv` of src/util/math.hpp). The filters that are stacked up
-- then are those of boost, of liblzma, and `inno_block_filter`.
use innoextract_wasm.Base.{
  ℕ, ◌+◌, ◌-◌, ◌*◌, ◌/◌, ◌^◌, Bool, true, false, List, [], ◌∷◌, ◌==◌, if◌then◌else◌,
}
use innoextract_wasm.Base.Words.{u32, load32}
use innoextract_wasm.Crypto.Crc32
use innoextract_wasm.Setup.Version.{Version, at_least}

-- `block_compression`
pub data BlockCompression : Type 0 where
  stored : BlockCompression
  zlib : BlockCompression
  lzma1 : BlockCompression

-- What `block_reader::get` reads, or throws: its own error, or that of a stream that ends.
pub data HeaderReading : Type 0 where
  header : ℕ → BlockCompression → List ℕ → HeaderReading
  block_header_crc32_mismatch : HeaderReading
  stream_end : HeaderReading

unfoldable pub ceildiv : ℕ → ℕ → ℕ
ceildiv num denom = (num + (denom - 1)) / denom

-- "Add the size of a CRC32 checksum for each 4KiB subblock."
unfoldable pub with_checksums : ℕ → ℕ
unfolding ceildiv
with_checksums size = u32 (size + u32 (ceildiv size 4096 * 4))

abbrev pub new_compression : Version → ℕ → BlockCompression
new_compression v compressed =
    if compressed == 0 then stored else if at_least v 4 1 6 then lzma1 else zlib

-- Before: a compressed size, or -1, and an uncompressed one.
abbrev pub old_size : ℕ → ℕ → ℕ
old_size compressed_size uncompressed_size =
    if compressed_size == 2 ^ 32 - 1
    then with_checksums uncompressed_size
    else with_checksums compressed_size

abbrev pub old_compression : ℕ → BlockCompression
old_compression compressed_size = if compressed_size == 2 ^ 32 - 1 then stored else zlib

-- `checksum_base::load` updates the checksum with the bytes of every number, which stand in a buffer
-- of their own; `here` and `there` are the addresses of the two buffers.
module _ (here there : ℕ) where
  abbrev pub header_crc32 : List ℕ → List ℕ → ℕ
  header_crc32 first second =
      Crc32.finalize (Crc32.update there (Crc32.update here Crc32.init first) second)

  abbrev pub checked : Bool → HeaderReading → HeaderReading
  checked true reading = reading
  checked false reading = block_header_crc32_mismatch

  -- From version 4.0.9 on: a size, and a byte that tells whether the block is compressed.
  unfoldable pub new_header : Version → List ℕ → HeaderReading
  new_header v (c0 ∷ c1 ∷ c2 ∷ c3 ∷ s0 ∷ s1 ∷ s2 ∷ s3 ∷ compressed ∷ rest) =
      checked (header_crc32 (s0 ∷ s1 ∷ s2 ∷ s3 ∷ []) (compressed ∷ []) == load32 c0 c1 c2 c3)
        (header (load32 s0 s1 s2 s3) (new_compression v compressed) rest)
  new_header v rest = stream_end

  unfoldable pub old_header : List ℕ → HeaderReading
  old_header (c0 ∷ c1 ∷ c2 ∷ c3 ∷ s0 ∷ s1 ∷ s2 ∷ s3 ∷ t0 ∷ t1 ∷ t2 ∷ t3 ∷ rest) =
      checked (header_crc32 (s0 ∷ s1 ∷ s2 ∷ s3 ∷ []) (t0 ∷ t1 ∷ t2 ∷ t3 ∷ []) == load32 c0 c1 c2 c3)
        (header (old_size (load32 s0 s1 s2 s3) (load32 t0 t1 t2 t3))
          (old_compression (load32 s0 s1 s2 s3)) rest)
  old_header rest = stream_end

  unfoldable pub block_header : Version → List ℕ → HeaderReading
  block_header v stream = if at_least v 4 0 9 then new_header v stream else old_header stream
