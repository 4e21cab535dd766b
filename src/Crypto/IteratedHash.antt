-- ===== src/Crypto/IteratedHash.antt =====
-- The buffering and padding that MD5 and SHA-1 share (src/crypto/iteratedhash.hpp), over the
-- compression function as a parameter, and the helpers of src/util/math.hpp that they use.
-- Both hashes have words of 32 bits and blocks of 64 bytes.
pub mod Blocks
pub mod Pieces
pub mod Update
pub mod Pad
pub mod Finalize
pub mod Tests
use innoextract_wasm.Base.{
  ℕ, zero, suc, ◌+◌, ◌-◌, ◌*◌, ◌/◌, ◌%◌, ◌^◌, Bool, true, false, List, [], ◌∷◌, ◌++◌, length, take,
  drop, bit_and, bit_or, ltb, leb, ◌==◌, if◌then◌else◌,
}
use innoextract_wasm.Base.Words.{u8, u32}

-- `util::mod_power_of_2` with a block size below 2 ^ 32
pub mod_power_of_2 : ℕ → ℕ → ℕ
mod_power_of_2 a b = bit_and a (b - 1)

-- `util::safe_right_shift` of a value of the given number of bits
pub safe_right_shift : ℕ → ℕ → ℕ → ℕ
safe_right_shift width bits value = if leb width bits then 0 else value / 2 ^ bits

-- `util::rotl_fixed` of a word of 32 bits
unfoldable pub rotl_fixed : ℕ → ℕ → ℕ
rotl_fixed x y = bit_or (u32 (x * 2 ^ y)) (x / 2 ^ (32 - y))

abbrev pub block_size : ℕ
block_size = 64

-- What a class passed as the template argument `T` provides: `init`, `transform`, `byte_order` and
-- `offset`.
pub record Transform : Type 0 where
  pub init : List ℕ
  pub transform : List ℕ → List ℕ → List ℕ
  pub load_word : ℕ → ℕ → ℕ → ℕ → ℕ
  pub store_word : ℕ → List ℕ
  pub offset : ℕ

-- `byte_order::load` of an array of words
unfoldable pub load_words : (ℕ → ℕ → ℕ → ℕ → ℕ) → List ℕ → List ℕ
load_words load (x ∷ y ∷ z ∷ w ∷ rest) = load x y z w ∷ load_words load rest
load_words load rest = []

-- `byte_order::store` of an array of words
unfoldable pub store_words : (ℕ → List ℕ) → List ℕ → List ℕ
store_words store [] = []
store_words store (x ∷ xs) = store x ++ store_words store xs

-- `memcpy` of the data to a place in the buffer
pub write_at : List ℕ → ℕ → List ℕ → List ℕ
write_at buffer place bytes = take place buffer ++ (bytes ++ drop (place + length bytes) buffer)

-- `memset` with zeros
abbrev pub zeros : ℕ → List ℕ
zeros zero = []
zeros (suc n) = 0 ∷ zeros n

pub record IteratedHash : Type 0 where
  pub buffer : List ℕ
  pub state : List ℕ
  pub count_lo : ℕ
  pub count_hi : ℕ

-- The two counts after more bytes.
pub counted : ℕ → IteratedHash → ℕ → IteratedHash
counted size_bits h length =
    let count_lo' = u32 (h.count_lo + u32 length) in
    let carried = if ltb count_lo' h.count_lo then u32 (h.count_hi + 1) else h.count_hi in
    record h {
      count_lo = count_lo';
      count_hi = u32 (carried + u32 (safe_right_shift size_bits 32 length));
    }

pub bit_count_hi : IteratedHash → ℕ
bit_count_hi h = u32 (h.count_lo / 2 ^ (32 - 3) + u32 (h.count_hi * 2 ^ 3))

pub bit_count_lo : IteratedHash → ℕ
bit_count_lo h = u32 (h.count_lo * 2 ^ 3)

module _ (t : Transform) where
  -- A round of the loop of `hash`.
  unfoldable pub hash_block : List ℕ → List ℕ → List ℕ
  hash_block state block = t.transform state (load_words t.load_word block)

  -- The do-while loop of `hash`, with the fuel that the input's length gives: the state, and the
  -- bytes that are left over.
  pub hash_loop : ℕ → List ℕ → List ℕ → List ℕ × List ℕ
  hash_loop zero state input = (state, input)
  hash_loop (suc fuel) state input =
      let state' = hash_block state (take block_size input) in
      let rest = drop block_size input in
      elim (leb block_size (length rest)) [
        | true ↦ hash_loop fuel state' rest
        | false ↦ (state', rest)
      ]

  pub hash : List ℕ → List ℕ → List ℕ × List ℕ
  hash state input = hash_loop (length input) state input

  -- `init`; the buffer is not initialised.
  pub init : List ℕ → IteratedHash
  init buffer = record { buffer = buffer; state = t.init; count_lo = 0; count_hi = 0 }

  -- The end of `update`: whole blocks, and the leftovers into the buffer.
  pub whole_blocks : IteratedHash → List ℕ → IteratedHash
  whole_blocks h input = elim (leb block_size (length input)) [
    | true ↦
        (let (state', rest) = hash h.state input in
          record h { buffer = write_at h.buffer 0 rest; state = state' })
    | false ↦ record h { buffer = write_at h.buffer 0 input }
  ]

  -- Left over data, behind which `num` bytes of a block are in the buffer.
  pub left_over : ℕ → ℕ → IteratedHash → List ℕ → IteratedHash
  left_over size_bits num h input = elim (leb block_size ((num + length input) % 2 ^ size_bits)) [
    | true ↦
        (let buffer' = write_at h.buffer num (take (block_size - num) input) in
          whole_blocks (record h { buffer = buffer'; state = (hash h.state buffer').0 })
            (drop (block_size - num) input))
    | false ↦ record h { buffer = write_at h.buffer num input }
  ]

  -- `size_bits` is the width of `size_t`.
  pub update : ℕ → IteratedHash → List ℕ → IteratedHash
  update size_bits h input =
      let num = mod_power_of_2 h.count_lo block_size in
      let h' = counted size_bits h (length input) in
      elim (num == 0) [ true ↦ whole_blocks h' input | false ↦ left_over size_bits num h' input ]

  pub pad : IteratedHash → ℕ → IteratedHash
  pad h last_block_size =
      let place = mod_power_of_2 h.count_lo block_size in
      let buffer' = write_at h.buffer place (0x80 ∷ []) in
      let num = place + 1 in
      elim (leb num last_block_size) [
        | true ↦ record h { buffer = write_at buffer' num (zeros (last_block_size - num)) }
        | false ↦
            (let full = write_at buffer' num (zeros (block_size - num)) in
              record h {
                buffer = write_at full 0 (zeros last_block_size);
                state = (hash h.state full).0;
              })
      ]

  pub finalize : IteratedHash → List ℕ
  finalize h =
      let order = t.offset * 4 in
      let size = block_size - 2 * 4 in
      let p = pad h size in
      let low = write_at p.buffer (size + order) (t.store_word (bit_count_lo p)) in
      let full = write_at low (size + 4 - order) (t.store_word (bit_count_hi p)) in
      store_words t.store_word (hash p.state full).0
