-- ===== src/Crypto/Adler32.antt =====
-- The Adler-32 checksum (src/crypto/adler32.hpp, src/crypto/adler32.cpp).
-- `uint_fast32_t` has at least 32 bits; `m` is the number of its values, at which sums wrap.
pub mod Growth
pub mod Update
pub mod Tests
use innoextract_wasm.Base.Words.{u16, u32}
use innoextract_wasm.Base.{
  ℕ, ◌+◌, ◌-◌, ◌*◌, ◌/◌, ◌%◌, ◌^◌, List, [], ◌∷◌, bit_or, length, leb, ◌==◌, if◌then◌else◌,
}

pub record Sums : Type 0 where
  pub s1 : ℕ
  pub s2 : ℕ

abbrev pub base : ℕ
base = 65521

unfoldable pub init : ℕ
init = 1

-- `s1 += byte, s2 += s1`
pub add : ℕ → Sums → ℕ → Sums
add m s x = let s1' = (s.s1 + x) % m in record { s1 = s1'; s2 = (s.s2 + s1') % m }

abbrev pub reduced : ℕ → ℕ
reduced s1 = if leb base s1 then s1 - base else s1

-- The `do ... while(length % 8 != 0)` loop: the sums and the bytes that are left.
pub head_loop : ℕ → Sums → List ℕ → Sums × List ℕ
head_loop m s [] = (s, [])
head_loop m s (x ∷ xs) =
    let s' = add m s x in
    let rest = head_loop m s' xs in if length xs % 8 == 0 then (s', xs) else rest

pub head : ℕ → Sums → List ℕ → Sums × List ℕ
head m s xs =
    if length xs % 8 == 0
    then (s, xs)
    else let (s', rest) = head_loop m s xs in
      (record { s1 = reduced s'.s1; s2 = s'.s2 % base }, rest)

-- The end of one round of the main loop, with `left` bytes left.
pub round_end : Sums → ℕ → Sums
round_end s left = record {
  s1 = reduced s.s1;
  s2 = if left % 0x8000 == 0 then s.s2 % base else s.s2;
}

pub block_loop : ℕ → Sums → List ℕ → Sums
block_loop m s (x0 ∷ x1 ∷ x2 ∷ x3 ∷ x4 ∷ x5 ∷ x6 ∷ x7 ∷ rest) =
    let s' =
      add m (add m (add m (add m (add m (add m (add m (add m s x0) x1) x2) x3) x4) x5) x6) x7 in
    block_loop m (round_end s' (length rest)) rest
block_loop m s _ = s

pub update : ℕ → ℕ → List ℕ → ℕ
update m state bytes =
    let (s, rest) = head m (record { s1 = u16 state; s2 = u16 (state / 2 ^ 16) }) bytes in
    let last = block_loop m s rest in bit_or (u32 (u32 last.s2 * 2 ^ 16)) (u16 last.s1)
