-- ===== src/Crypto/Crc32/Tests.antt =====
-- The theorems on the CRC32 checksum at concrete inputs.
use innoextract_wasm.Base.{refl, ℕ, List, [], ◌∷◌, ◌++◌, ◌≡◌, arith}
use innoextract_wasm.Base.Words.{IsBytes}
use innoextract_wasm.Crypto.Crc32.{
  crc32_negl, table_at, init, update, finalize, align_loop, word_loop, byte_loop, byte_step,
  crc32_index, crc32_shifted, crc32_table,
}
use innoextract_wasm.Crypto.Crc32.Serial.{bit_steps, serial, table_at-bit_steps}
use innoextract_wasm.Crypto.Crc32.Update.{update-serial, update-append}

abbrev data_bytes : List ℕ
data_bytes = 1 ∷ 2 ∷ 254 ∷ 255 ∷ 0 ∷ 7 ∷ 9 ∷ []

IsBytes-data : IsBytes data_bytes
IsBytes-data = (
  omega arith,
  (omega arith, (omega arith, (omega arith, (omega arith, (omega arith, (omega arith, tt)))))),
)

update-serial_example : update 3 crc32_negl data_bytes ≡ serial crc32_negl data_bytes
update-serial_example = update-serial 3 crc32_negl data_bytes IsBytes-data

update-append_example :
    update 6 (update 1 crc32_negl data_bytes) data_bytes
    ≡ update 0 crc32_negl (data_bytes ++ data_bytes)
update-append_example =
    update-append 0 1 6 crc32_negl data_bytes data_bytes IsBytes-data IsBytes-data

table_at-bit_steps_example : table_at 200 ≡ bit_steps 8 200
table_at-bit_steps_example = table_at-bit_steps 200 (omega arith)

pub one-crc32 : finalize (update 0 init (1 ∷ [])) ≡ 0xa505df1b
unfolding init update finalize align_loop word_loop byte_loop byte_step table_at crc32_index
    crc32_shifted crc32_table
one-crc32 = refl
