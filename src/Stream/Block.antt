-- ===== src/Stream/Block.antt =====
-- Blocks of chunks that are guarded by a CRC32 checksum each: `inno_block_filter`
-- (src/stream/block.cpp).
pub mod Supply
pub mod Chunks
pub mod Header
pub mod Headed
pub mod Stored
pub mod Tests
use innoextract_wasm.Base.{
  ℕ, zero, suc, ◌+◌, ◌-◌, min, List, [], ◌∷◌, ◌++◌, Option, none, some, length, take, drop, ◌==◌,
  if◌then◌else◌,
}
use innoextract_wasm.Base.Words.{load32}
use innoextract_wasm.Crypto.Crc32.{init, update, finalize}

-- The position in the buffer; its length is the field `length` of the source.
pub record BlockFilter : Type 0 where
  pub pos : ℕ
  pub buffer : List ℕ

pub data BlockError : Type 0 where
  unexpected_block_end : BlockError
  block_crc32_mismatch : BlockError

-- What `read_chunk` does: return false, throw, or fill the buffer.
pub data Chunk (S : Type 0) : Type 0 where
  no_chunk : S → Chunk S
  chunk_error : BlockError → Chunk S
  chunk : List ℕ → S → Chunk S

-- What `read` does; `returned none` is `EOF`.
pub data Reading (S : Type 0) : Type 0 where
  returned : Option ℕ → List ℕ → BlockFilter → S → Reading S
  thrown : BlockError → Reading S
  out_of_fuel : Reading S

abbrev pub count_or_eof : ℕ → Option ℕ
count_or_eof zero = none
count_or_eof (suc n) = some (suc n)

abbrev pub preceded : {S : Type 0} → List ℕ → Reading S → Reading S
preceded bytes (returned count rest f src) = returned count (bytes ++ rest) f src
preceded bytes (thrown e) = thrown e
preceded bytes out_of_fuel = out_of_fuel

-- The source is a parameter, with `boost::iostreams::read`, which answers `none` for `EOF`; so is the
-- address of the buffer.
module _ {S : Type 0} (fetch : ℕ → S → Option (List ℕ) × S) (address : ℕ) where
  -- `actual.finalize()`
  abbrev pub actual_crc32 : List ℕ → ℕ
  actual_crc32 data_bytes = finalize (update address init data_bytes)

  abbrev pub check_chunk : ℕ → Option (List ℕ) → S → Chunk S
  check_chunk block_crc32 none src = chunk_error unexpected_block_end
  check_chunk block_crc32 (some data_bytes) src =
      if actual_crc32 data_bytes == block_crc32
      then chunk data_bytes src
      else chunk_error block_crc32_mismatch

  -- Behind the attempt to read the four bytes of the checksum.
  abbrev pub chunk_body : Option (List ℕ) → S → Chunk S
  chunk_body none src = no_chunk src
  chunk_body (some (x ∷ y ∷ z ∷ w ∷ [])) src =
      let (data_bytes, src') = fetch 4096 src in check_chunk (load32 x y z w) data_bytes src'
  chunk_body (some _) src = chunk_error unexpected_block_end

  unfoldable pub read_chunk : S → Chunk S
  read_chunk src = let (head, src') = fetch 4 src in chunk_body head src'

  -- `size` bytes are copied, and `later` is the loop from there on.
  abbrev pub copy : (ℕ → ℕ → BlockFilter → S → Reading S) → ℕ → ℕ → BlockFilter → S → Reading S
  copy later nread n f src =
      let size = min n (length f.buffer - f.pos) in
      preceded (take size (drop f.pos f.buffer))
        (later (nread + size) (n - size) (record f { pos = f.pos + size }) src)

  -- Behind `read_chunk`, where the buffer was used up.
  abbrev pub refilled :
      (ℕ → ℕ → BlockFilter → S → Reading S) → ℕ → ℕ → BlockFilter → Chunk S → Reading S
  refilled later nread n f (no_chunk src) = returned (count_or_eof nread) [] f src
  refilled later nread n f (chunk_error e) = thrown e
  refilled later nread n f (chunk data_bytes src) =
      copy later nread n (record { pos = 0; buffer = data_bytes }) src

  -- The loop of `read`, with fuel for its rounds.
  unfoldable pub read_loop : ℕ → ℕ → ℕ → BlockFilter → S → Reading S
  read_loop fuel nread zero f src = returned (some nread) [] f src
  read_loop zero nread (suc n) f src = out_of_fuel
  read_loop (suc fuel) nread (suc n) f src =
      if f.pos == length f.buffer
      then refilled (read_loop fuel) nread (suc n) f (read_chunk src)
      else copy (read_loop fuel) nread (suc n) f src

  unfoldable pub read : ℕ → BlockFilter → S → Reading S
  read n f src = read_loop n 0 n f src
