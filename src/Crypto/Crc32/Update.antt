-- ===== src/Crypto/Crc32/Update.antt =====
-- `update`, with its three loops, against the division one bit at a time.
use innoextract_wasm.Base.Bits.{bit_xor-zero, bit_xor_assoc, bit_xor-div, bit_xor-mod, bit_and-mask}
use innoextract_wasm.Base.Words.{IsByte, IsBytes, load32}
use innoextract_wasm.Base.{
  ℕ, ◌+◌, ◌*◌, ◌/◌, ◌%◌, ◌^◌, ◌≡◌, refl, sym, ◌∙◌, ap, ap₂, List, [], ◌∷◌, ◌++◌, bit_xor, arith,
  ◌==◌, inl, inr, Bool-cases, All-append,
}
use innoextract_wasm.Crypto.Crc32.Serial.{bit_steps, bit_steps-table_at, serial_step, serial}
use innoextract_wasm.Crypto.Crc32.{
  table_at, init, crc32_index, crc32_shifted, byte_step, word_step, align_loop, word_loop,
  byte_loop, update, finalize,
}

crc32_index-mod : (crc : ℕ) → crc32_index crc ≡ crc % 2 ^ 8
unfolding crc32_index
crc32_index-mod crc = omega (arith, bit_and-mask 8 crc)

word_step-bit_steps : (crc : ℕ) → word_step crc ≡ bit_steps 8 crc
unfolding word_step crc32_shifted
word_step-bit_steps crc = rw crc32_index-mod (sym (bit_steps-table_at crc))

byte_step-serial_step : (crc byte : ℕ) → IsByte byte → byte_step crc byte ≡ serial_step crc byte
unfolding byte_step serial_step crc32_shifted
byte_step-serial_step crc byte h =
    rw
      (
        crc32_index-mod,
        bit_steps-table_at (bit_xor crc byte),
        bit_xor-mod 8 crc byte,
        bit_xor-div 8 crc byte,
      )
      (ap₂ bit_xor (ap (λ (t : ℕ). table_at (bit_xor (crc % 2 ^ 8) t)) (omega arith))
        (sym (ap (bit_xor (crc / 2 ^ 8)) {y = 0} (omega arith) ∙ bit_xor-zero (crc / 2 ^ 8))))

-- One line of the word loop takes the lowest byte of what was combined with the register.
word_step-xor :
    (crc byte rest : ℕ)
    → IsByte byte
    → word_step (bit_xor crc (byte + rest * 2 ^ 8)) ≡ bit_xor (byte_step crc byte) rest
unfolding word_step byte_step crc32_shifted
word_step-xor crc byte rest h =
    rw
      (
        crc32_index-mod (bit_xor crc (byte + rest * 2 ^ 8)),
        crc32_index-mod crc,
        bit_xor-mod 8 crc (byte + rest * 2 ^ 8),
        bit_xor-div 8 crc (byte + rest * 2 ^ 8),
      )
      (ap₂ bit_xor (ap (λ (t : ℕ). table_at (bit_xor (crc % 2 ^ 8) t)) (omega arith))
          (ap (bit_xor (crc / 2 ^ 8)) (omega arith))
        ∙ sym (bit_xor_assoc (table_at (bit_xor (crc % 2 ^ 8) byte)) (crc / 2 ^ 8) rest))

word_steps :
    (crc x y z w : ℕ)
    → IsByte x
    → IsByte y
    → IsByte z
    → IsByte w
    → word_step (word_step (word_step (word_step (bit_xor crc (load32 x y z w)))))
      ≡ byte_step (byte_step (byte_step (byte_step crc x) y) z) w
word_steps crc x y z w hx hy hz hw =
    ap (λ t. word_step (word_step (word_step (word_step (bit_xor crc t)))))
      {y = x + (y + (z + (w + 0 * 2 ^ 8) * 2 ^ 8) * 2 ^ 8) * 2 ^ 8} (omega arith)
    ∙ ap (λ t. word_step (word_step (word_step t))) (word_step-xor crc x _ hx)
    ∙ ap (λ t. word_step (word_step t)) (word_step-xor (byte_step crc x) y _ hy)
    ∙ ap word_step (word_step-xor (byte_step (byte_step crc x) y) z _ hz)
    ∙ word_step-xor (byte_step (byte_step (byte_step crc x) y) z) w 0 hw
    ∙ bit_xor-zero _

word_loop-byte_loop :
    (crc : ℕ) (xs : List ℕ)
    → IsBytes xs
    → byte_loop (word_loop crc xs).0 (word_loop crc xs).1 ≡ byte_loop crc xs
unfolding word_loop byte_loop
word_loop-byte_loop crc (x ∷ y ∷ z ∷ w ∷ rest) h =
    word_loop-byte_loop
      (word_step (word_step (word_step (word_step (bit_xor crc (load32 x y z w)))))) rest h.1.1.1.1
    ∙ ap (λ t. byte_loop t rest) (word_steps crc x y z w h.0 h.1.0 h.1.1.0 h.1.1.1.0)
word_loop-byte_loop crc _ h = refl

align_loop-byte_loop :
    (address crc : ℕ) (xs : List ℕ)
    → IsBytes xs
    → IsBytes (align_loop address crc xs).1
      × (byte_loop (align_loop address crc xs).0 (align_loop address crc xs).1 ≡ byte_loop crc xs)
unfolding align_loop byte_loop
align_loop-byte_loop address crc [] h = (tt, refl)
align_loop-byte_loop address crc (x ∷ xs) h = elim (Bool-cases (address % 4 == 0)) [
  | inl aligned ↦ rw aligned (h, refl)
  | inr more ↦ rw more (align_loop-byte_loop (address + 1) (byte_step crc x) xs h.1)
]

byte_loop-serial : (crc : ℕ) (xs : List ℕ) → IsBytes xs → byte_loop crc xs ≡ serial crc xs
unfolding byte_loop serial
byte_loop-serial crc [] h = refl
byte_loop-serial crc (x ∷ xs) h =
    rw (byte_step-serial_step crc x h.0) (byte_loop-serial (serial_step crc x) xs h.1)

-- Wherever the data stands in memory, `update` takes its bytes into the register by the
-- division one bit at a time.
pub update-serial :
    (address crc : ℕ) (xs : List ℕ) → IsBytes xs → update address crc xs ≡ serial crc xs
unfolding update
update-serial address crc xs h =
    let start = align_loop-byte_loop address crc xs h in
    word_loop-byte_loop _ _ start.0 ∙ start.1 ∙ byte_loop-serial crc xs h

-- The checksum of a buffer in one `update`, from the first byte's address on.
abbrev pub crc32_of : ℕ → List ℕ → ℕ
crc32_of address xs = finalize (update address init xs)

pub serial-append : (crc : ℕ) (xs ys : List ℕ) → serial crc (xs ++ ys) ≡ serial (serial crc xs) ys
unfolding serial
serial-append crc [] ys = refl
serial-append crc (x ∷ xs) ys = serial-append (serial_step crc x) xs ys

-- Bytes that come in two pieces, at any two addresses, leave the register as it is after
-- the whole.
pub update-append :
    (address here there crc : ℕ) (xs ys : List ℕ)
    → IsBytes xs
    → IsBytes ys
    → update there (update here crc xs) ys ≡ update address crc (xs ++ ys)
update-append address here there crc xs ys hx hy =
    update-serial there _ ys hy
    ∙ ap (λ t. serial t ys) (update-serial here crc xs hx)
    ∙ sym (serial-append crc xs ys)
    ∙ sym (update-serial address crc (xs ++ ys) (All-append IsByte xs ys hx hy))
