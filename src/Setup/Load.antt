-- ===== src/Setup/Load.antt =====
-- Reading from a stream (src/util/load.hpp, src/util/load.cpp, src/util/storedenum.hpp).
-- A stream is the list of the bytes to come. Its exceptions are switched on where setup data is
-- read, so that reading past the end throws; `none` is that exception.
-- A signed integer is its bit pattern.
pub mod Tests
pub mod Pieces
pub mod Flags
pub mod Codec
use innoextract_wasm.Base.{
  ℕ, zero, suc, ◌+◌, ◌-◌, ◌*◌, ◌/◌, ◌%◌, ◌^◌, min, Bool, true, false, not, ◌&&◌, List, [], ◌∷◌,
  ◌++◌, Option, none, some, length, get_or, ltb, ◌==◌, if◌then◌else◌,
}
use innoextract_wasm.Base.Words.{load32}

abbrev pub Reader : Type 0 → Type 0
Reader A = List ℕ → Option (A × List ℕ)

abbrev pub give : {A : Type 0} → A → Reader A
give a bytes = some (a, bytes)

infixl 5 ◌>>=◌ ◌>>◌
abbrev pub ◌>>=◌ : {A B : Type 0} → Reader A → (A → Reader B) → Reader B
◌>>=◌ m f bytes = elim (m bytes) [ none ↦ none | some (a, rest) ↦ f a rest ]

abbrev pub ◌>>◌ : {B : Type 0} → Reader (Unit {0}) → Reader B → Reader B
m >> k = m >>= λ _. k

-- `if(condition) is >> field; else field = default;`
abbrev pub field_if : {A : Type 0} → Bool → Reader A → A → Reader A
field_if true r otherwise = r
field_if false r otherwise = give otherwise

-- `is.read(buffer, n)`
unfoldable pub read : ℕ → Reader (List ℕ)
read zero bytes = some ([], bytes)
read (suc n) [] = none
read (suc n) (b ∷ bytes) = elim (read n bytes) [ none ↦ none | some (s, rest) ↦ some (b ∷ s, rest) ]

unfoldable pub load_u8 : Reader ℕ
load_u8 [] = none
load_u8 (b ∷ bytes) = some (b, bytes)

-- `util::load<uint16_t>`, and below of 32 and 64 bits: little endian
unfoldable pub load_u16 : Reader ℕ
unfolding load_u8
load_u16 = do x ← load_u8; y ← load_u8; give (x + y * 2 ^ 8)

unfoldable pub load_u32 : Reader ℕ
unfolding load_u8
load_u32 = do x ← load_u8; y ← load_u8; z ← load_u8; w ← load_u8; give (load32 x y z w)

unfoldable pub load_u64 : Reader ℕ
load_u64 = do low ← load_u32; high ← load_u32; give (low + high * 2 ^ 32)

unfoldable pub load_bool : Reader Bool
unfolding load_u8
load_bool = do x ← load_u8; give (not (x == 0))

-- `load<int32_t>(is, bits)` for 16 bits or 32, extended to 32
unfoldable pub load_i32 : Bool → Reader ℕ
unfolding load_u16 load_u32
load_i32 true = do x ← load_u16; give (if ltb x (2 ^ 15) then x else x + 2 ^ 32 - 2 ^ 16)
load_i32 false = load_u32

-- `load<uint32_t>(is, bits)` for 16 bits or 32
unfoldable pub load_bits : Bool → Reader ℕ
load_bits true = load_u16
load_bits false = load_u32

-- The loop of `binary_string::load`, which reads at most 10 KiB at a time, with fuel for its
-- rounds.
unfoldable pub binary_loop : ℕ → ℕ → Reader (List ℕ)
unfolding read
binary_loop zero n bytes = if n == 0 then some ([], bytes) else none
binary_loop (suc f) n bytes = elim (n == 0) [
  | true ↦ some ([], bytes)
  | false ↦ elim (read (min n 10240) bytes) [
    | none ↦ none
    | some (piece, rest) ↦ elim (binary_loop f (n - min n 10240) rest) [
      | none ↦ none
      | some (s, rest') ↦ some (piece ++ s, rest')
    ]
  ]
]

-- `binary_string::load`
unfoldable pub binary_string : Reader (List ℕ)
binary_string = do n ← load_u32; binary_loop n n

-- `to_utf8` of src/util/encoding.cpp, for a codepage and perhaps a set of lead bytes
abbrev pub Conversion : Type 0
Conversion = ℕ → Option (List ℕ) → List ℕ → List ℕ

-- `encoded_string::load`
unfoldable pub encoded_string : Conversion → ℕ → Option (List ℕ) → Reader (List ℕ)
encoded_string to_utf8 codepage lead_bytes = do
  s ← binary_string
  give (to_utf8 codepage lead_bytes s)

-- `stored_enum`: the value with this number, or the default, which the code logs a warning about.
unfoldable pub stored_enum : {E : Type 0} → List E → E → Reader E
unfolding load_u8
stored_enum values default = do n ← load_u8; give (get_or values n default)

-- `binary_string::skip`
unfoldable pub skip_string : Reader (Unit {0})
skip_string = do n ← load_u32; skipped ← read n; give tt
