-- ===== src/Crypto/Crc32.antt =====
-- The CRC-32 checksum (src/crypto/crc32.hpp, src/crypto/crc32.cpp).
-- The address of the first byte is an argument, since `update` first walks to a word boundary.
mod Table
pub mod Serial
pub mod Update
pub mod Width
pub mod Tests
unfoldable pub use Table.{crc32_table}
use innoextract_wasm.Base.Words.{u8, load32}
use innoextract_wasm.Base.{
  ℕ, ◌+◌, ◌/◌, ◌%◌, ◌^◌, List, [], ◌∷◌, bit_and, bit_xor, get_or, ◌==◌, if◌then◌else◌,
}

abbrev pub crc32_negl : ℕ
crc32_negl = 0xffffffff

pub table_at : ℕ → ℕ
table_at i = get_or crc32_table i 0

unfoldable pub init : ℕ
init = crc32_negl

pub crc32_index : ℕ → ℕ
crc32_index crc = u8 (bit_and crc 0xff)

pub crc32_shifted : ℕ → ℕ
crc32_shifted crc = crc / 2 ^ 8

-- The body of the two loops over single bytes.
pub byte_step : ℕ → ℕ → ℕ
byte_step crc byte = bit_xor (table_at (bit_xor (crc32_index crc) byte)) (crc32_shifted crc)

-- One of the four equal lines in the loop over words.
pub word_step : ℕ → ℕ
word_step crc = bit_xor (table_at (crc32_index crc)) (crc32_shifted crc)

-- The loop up to a word boundary: the checksum and the bytes that are left.
pub align_loop : ℕ → ℕ → List ℕ → ℕ × List ℕ
align_loop address crc [] = (crc, [])
align_loop address crc (x ∷ xs) =
    let rest = align_loop (address + 1) (byte_step crc x) xs in
    if address % 4 == 0 then (crc, x ∷ xs) else rest

pub word_loop : ℕ → List ℕ → ℕ × List ℕ
word_loop crc (x ∷ y ∷ z ∷ w ∷ rest) =
    word_loop (word_step (word_step (word_step (word_step (bit_xor crc (load32 x y z w)))))) rest
word_loop crc rest = (crc, rest)

pub byte_loop : ℕ → List ℕ → ℕ
byte_loop crc [] = crc
byte_loop crc (x ∷ xs) = byte_loop (byte_step crc x) xs

pub update : ℕ → ℕ → List ℕ → ℕ
update address crc bytes =
    let (aligned, rest) = align_loop address crc bytes in
    let (words, tail) = word_loop aligned rest in byte_loop words tail

unfoldable pub finalize : ℕ → ℕ
finalize crc = bit_xor crc crc32_negl
