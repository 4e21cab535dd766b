-- ===== src/Setup/Load/Flags.antt =====
-- Flag sets: `stored_flags` and `stored_flag_reader` (src/util/storedenum.hpp).
pub mod Agree
pub mod Picked
use innoextract_wasm.Base.{
  ℕ, zero, suc, ◌+◌, ◌-◌, ◌*◌, ◌/◌, ◌%◌, ◌^◌, min, Bool, true, false, not, ◌&&◌, ◌||◌, List, [],
  ◌∷◌, ◌++◌, Option, none, some, length, ◌==◌, if◌then◌else◌,
}
use innoextract_wasm.Setup.Load.{Reader, give, ◌>>=◌, load_u8, read}

-- Bit `i` of a number.
abbrev pub bit : ℕ → ℕ → Bool
bit n i = n / 2 ^ i % 2 == 1

-- `lower_bits`: the bytes put together, lowest first, eight at most.
unfoldable pub lower_bits : List ℕ → ℕ → ℕ
lower_bits [] left = 0
lower_bits (b ∷ bs) zero = 0
lower_bits (b ∷ bs) (suc left) = b + lower_bits bs left * 2 ^ 8

-- The values whose bits are set, from bit `i` on.
unfoldable pub select : {F : Type 0} → ℕ → ℕ → List F → List F
select set_bits i [] = []
select set_bits i (v ∷ vs) =
    let rest = select set_bits (i + 1) vs in if bit set_bits i then v ∷ rest else rest

-- `stored_bitfield` with 3 bytes is padded to 4, if the build is not a 16-bit one.
unfoldable pub padding : Bool → ℕ → ℕ
padding wide count = if count == 3 && wide then 1 else 0

-- `stored_flags<Mapping, PadBits>(is).get()`; the flag tells whether `PadBits` is 32. Bits without a flag
-- are dropped, which the code logs a warning about.
unfoldable pub stored_flags : {F : Type 0} → Bool → List F → Reader (List F)
unfolding lower_bits select padding read
stored_flags wide values = do
  let count = (length values + 7) / 8
  bits ← read count
  pad ← read (padding wide count)
  give (select (lower_bits bits 8) 0 values)

-- The places of the set bits of some bytes, of which the first holds place `i`.
unfoldable pub bitset : ℕ → List ℕ → List ℕ
unfolding select
bitset i [] = []
bitset i (b ∷ bs) =
    select b 0 (i ∷ (i + 1) ∷ (i + 2) ∷ (i + 3) ∷ (i + 4) ∷ (i + 5) ∷ (i + 6) ∷ (i + 7) ∷ [])
    ++ bitset (i + 8) bs

-- `stored_char_set`, as the list of its elements
unfoldable pub stored_char_set : Reader (List ℕ)
stored_char_set = do bits ← read 32; give (bitset 0 bits)

pub record FlagReader (F : Type 0) : Type 0 where
  pub pos : ℕ
  pub buffer : ℕ
  pub result : List F
  pub bytes : ℕ

-- `add` behind the load of a byte
pub add_bit : {F : Type 0} → F → FlagReader F → FlagReader F
add_bit flag r = record r {
  result = if bit r.buffer r.pos then r.result ++ flag ∷ [] else r.result;
  pos = (r.pos + 1) % 8;
}

pub add : {F : Type 0} → F → FlagReader F → Reader (FlagReader F)
unfolding add_bit
add flag r =
    if r.pos == 0
    then (do b ← load_u8; give (add_bit flag (record r { bytes = r.bytes + 1; buffer = b })))
    else give (add_bit flag r)

pub add_all : {F : Type 0} → List F → FlagReader F → Reader (FlagReader F)
unfolding add
add_all [] r = give r
add_all (f ∷ fs) r = do r' ← add f r; add_all fs r'

-- A `stored_flag_reader` to which these flags are added, in this order.
unfoldable pub flag_reader : {F : Type 0} → Bool → List F → Reader (List F)
unfolding add_all padding read
flag_reader wide flags = do
  r ← add_all flags (record { pos = 0; buffer = 0; result = []; bytes = 0 })
  pad ← read (padding wide r.bytes)
  give r.result

-- `if(condition) { flagreader.add(flag); }`, as the flags that it adds
abbrev pub flag_if : {F : Type 0} → Bool → F → List F
flag_if true flag = flag ∷ []
flag_if false flag = []

-- `flags & flag`, where `place` is the number of a flag in its enumeration
unfoldable pub contains : {F : Type 0} → (F → ℕ) → F → List F → Bool
contains place flag [] = false
contains place flag (f ∷ fs) = (place flag == place f) || contains place flag fs
