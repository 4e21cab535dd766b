-- ===== src/Crypto/Crc32/Width.antt =====
-- CRC-32 checksums have 32 bits (src/crypto/crc32.cpp).
use innoextract_wasm.Base.Bits.{bit_xor-lt}
use innoextract_wasm.Base.Words.{IsBytes}
use innoextract_wasm.Base.{
  ℕ, zero, suc, ◌/◌, ◌%◌, ◌^◌, ◌<◌, List, [], ◌∷◌, sym, subst, bit_xor, Bool-cases, inl, inr, ◌==◌,
  arith,
}
use innoextract_wasm.Crypto.Crc32.Serial.{bit_step, bit_steps, serial_step, serial}
use innoextract_wasm.Crypto.Crc32.Update.{crc32_of, update-serial}
use innoextract_wasm.Crypto.Crc32.{init, update, finalize}

bit_step-lt : (crc : ℕ) → crc < 2 ^ 32 → bit_step crc < 2 ^ 32
unfolding bit_step
bit_step-lt crc h = elim (Bool-cases (crc % 2 == 1)) [
  | inl odd ↦ rw odd (bit_xor-lt 32 (crc / 2) 0xedb88320 (omega arith) (omega arith))
  | inr even ↦ rw even (omega arith)
]

bit_steps-lt : (n crc : ℕ) → crc < 2 ^ 32 → bit_steps n crc < 2 ^ 32
unfolding bit_steps
bit_steps-lt zero crc h = h
bit_steps-lt (suc n) crc h = bit_steps-lt n (bit_step crc) (bit_step-lt crc h)

serial-lt : (crc : ℕ) (xs : List ℕ) → crc < 2 ^ 32 → IsBytes xs → serial crc xs < 2 ^ 32
unfolding serial serial_step
serial-lt crc [] h b = h
serial-lt crc (x ∷ xs) h b =
    serial-lt (serial_step crc x) xs
      (bit_steps-lt 8 (bit_xor crc x) (bit_xor-lt 32 crc x h (omega (arith, b.0)))) b.1

pub crc32_of-lt : (address : ℕ) (xs : List ℕ) → IsBytes xs → crc32_of address xs < 2 ^ 32
unfolding init finalize
crc32_of-lt address xs b =
    bit_xor-lt 32 (update address init xs) 0xffffffff
      (subst (λ c. c < 2 ^ 32) (sym (update-serial address init xs b))
        (serial-lt init xs (omega arith) b))
      (omega arith)
