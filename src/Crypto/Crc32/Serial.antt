-- ===== src/Crypto/Crc32/Serial.antt =====
-- The checksum as polynomial division, one bit at a time, and the table against it.
use native.Mathlib.Nat.{pow-suc}
use innoextract_wasm.Base.Bits.{
  bit_xor_half, bit_xor_step, bit_xor_assoc, bit_xor_comm, bit_xor_both, bit_xor_fields,
}
use innoextract_wasm.Base.{
  ℕ, zero, suc, ◌*◌, ◌/◌, ◌%◌, ◌^◌, ◌<◌, ◌≡◌, refl, sym, ◌∙◌, ap, ap₂, Bool, true, ◌&&◌, List, [],
  ◌∷◌, bit_xor, arith, ◌==◌, if◌then◌else◌,
}
use innoextract_wasm.Crypto.Crc32.Table.{crc32_table}
use innoextract_wasm.Crypto.Crc32.{table_at}

-- The reversed CRC-32 polynomial.
abbrev pub polynomial : ℕ
polynomial = 0xedb88320

-- One step of the division in the reversed bit order.
unfoldable pub bit_step : ℕ → ℕ
bit_step c = if c % 2 == 1 then bit_xor (c / 2) polynomial else c / 2

unfoldable pub bit_steps : ℕ → ℕ → ℕ
bit_steps zero c = c
bit_steps (suc n) c = bit_steps n (bit_step c)

-- The checksum register after one more byte.
unfoldable pub serial_step : ℕ → ℕ → ℕ
serial_step crc byte = bit_steps 8 (bit_xor crc byte)

unfoldable pub serial : ℕ → List ℕ → ℕ
serial crc [] = crc
serial crc (x ∷ xs) = serial (serial_step crc x) xs

entries_below : ℕ → Bool
entries_below zero = true
entries_below (suc count) = entries_below count && table_at count == bit_steps 8 count

entries_below-entry :
    (count i : ℕ) → i < count → entries_below count ≡ true → table_at i ≡ bit_steps 8 i
unfolding entries_below
entries_below-entry zero i h e = absurd (omega arith)
entries_below-entry (suc count) i h e = ground (arith, entries_below-entry count i)

all_entries : entries_below 256 ≡ true
unfolding entries_below table_at crc32_table bit_steps bit_step
all_entries = refl

-- Every entry of the table is the remainder of its index after eight division steps.
pub table_at-bit_steps : (i : ℕ) → i < 256 → table_at i ≡ bit_steps 8 i
table_at-bit_steps i h = entries_below-entry 256 i h all_entries

-- A division step goes under `xor`.
pub bit_step-xor : (a b : ℕ) → bit_step (bit_xor a b) ≡ bit_xor (bit_step a) (bit_step b)
unfolding bit_step
bit_step-xor a b = ground (
  arith,
  bit_xor_step a b,
  bit_xor_half a b,
  bit_xor_both (a / 2) (b / 2) polynomial,
  bit_xor_assoc (a / 2) (b / 2) polynomial,
  bit_xor_assoc (a / 2) polynomial (b / 2),
  bit_xor_comm (b / 2) polynomial,
)

bit_steps-xor : (n a b : ℕ) → bit_steps n (bit_xor a b) ≡ bit_xor (bit_steps n a) (bit_steps n b)
unfolding bit_steps
bit_steps-xor zero a b = refl
bit_steps-xor (suc n) a b = rw bit_step-xor (bit_steps-xor n (bit_step a) (bit_step b))

bit_step_double : (c : ℕ) → bit_step (c * 2) ≡ c
unfolding bit_step
bit_step_double c = ground arith

bit_steps-shift : (n h : ℕ) → bit_steps n (h * 2 ^ n) ≡ h
unfolding bit_steps
bit_steps-shift zero h = omega arith
bit_steps-shift (suc n) h =
    let as_double : h * 2 ^ suc n ≡ h * 2 ^ n * 2 =
      omega (arith, ap (λ (t : ℕ). h * t) (pow-suc 2 n)) in
    rw (as_double, bit_step_double (h * 2 ^ n)) (bit_steps-shift n h)

-- Eight division steps are one look-up in the table and a shift.
pub bit_steps-table_at : (x : ℕ) → bit_steps 8 x ≡ bit_xor (table_at (x % 2 ^ 8)) (x / 2 ^ 8)
bit_steps-table_at x =
    ap (bit_steps 8) split
    ∙ bit_steps-xor 8 (x / 2 ^ 8 * 2 ^ 8) (x % 2 ^ 8)
    ∙ ap₂ bit_xor (bit_steps-shift 8 (x / 2 ^ 8))
        (sym (table_at-bit_steps (x % 2 ^ 8) (omega arith)))
    ∙ bit_xor_comm (x / 2 ^ 8) (table_at (x % 2 ^ 8))
  where
    split : x ≡ bit_xor (x / 2 ^ 8 * 2 ^ 8) (x % 2 ^ 8)
    split = omega (arith, bit_xor_fields 8 (x / 2 ^ 8) (x % 2 ^ 8) (omega arith))
