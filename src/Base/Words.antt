-- ===== src/Base/Words.antt =====
-- Casts to machine widths, bytes, and little-endian words (src/util/endian.hpp).
use Prim.Native.Nat.{ℕ, ◌+◌, ◌*◌, ◌/◌, ◌%◌, ◌^◌, ◌<◌}
use mathlib.Core.List.{List, [], ◌∷◌}
use innoextract_wasm.Base.{All}

abbrev pub u8 : ℕ → ℕ
u8 n = n % 2 ^ 8

abbrev pub u16 : ℕ → ℕ
u16 n = n % 2 ^ 16

abbrev pub u32 : ℕ → ℕ
u32 n = n % 2 ^ 32

abbrev pub IsByte : ℕ → Type 0
IsByte x = x < 256

abbrev pub IsBytes : List ℕ → Type 0
IsBytes = All IsByte

-- `little_endian::load<uint32_t>` of four bytes
abbrev pub load32 : ℕ → ℕ → ℕ → ℕ → ℕ
load32 x y z w = x + y * 2 ^ 8 + z * 2 ^ 16 + w * 2 ^ 24

-- `little_endian::store` of a word: its bytes, lowest first
abbrev pub store32 : ℕ → List ℕ
store32 n = u8 n ∷ u8 (n / 2 ^ 8) ∷ u8 (n / 2 ^ 16) ∷ u8 (n / 2 ^ 24) ∷ []
