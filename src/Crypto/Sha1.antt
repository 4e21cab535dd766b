-- ===== src/Crypto/Sha1.antt =====
-- SHA-1 (src/crypto/sha1.hpp, src/crypto/sha1.cpp).
pub mod Words
pub mod Tests
use innoextract_wasm.Base.{
  ℕ, zero, suc, ◌+◌, ◌/◌, ◌^◌, List, [], ◌∷◌, bit_and, bit_or, bit_xor, get_or, set,
}
use innoextract_wasm.Base.Words.{u8, u32, load32}
use innoextract_wasm.Crypto.IteratedHash.{Transform, rotl_fixed}

pub f1 : ℕ → ℕ → ℕ → ℕ
f1 x y z = bit_xor z (bit_and x (bit_xor y z))

pub f2 : ℕ → ℕ → ℕ → ℕ
f2 x y z = bit_xor (bit_xor x y) z

pub f3 : ℕ → ℕ → ℕ → ℕ
f3 x y z = bit_or (bit_and x y) (bit_and z (bit_or x y))

pub f4 : ℕ → ℕ → ℕ → ℕ
f4 x y z = bit_xor (bit_xor x y) z

-- The working variables, in the order in which the next operation is given them, and the words `W`.
pub record Working : Type 0 where
  pub v : ℕ
  pub w : ℕ
  pub x : ℕ
  pub y : ℕ
  pub z : ℕ
  pub words : List ℕ

abbrev pub word_at : List ℕ → ℕ → ℕ
word_at words i = get_or words (bit_and i 15) 0

pub blk0 : List ℕ → List ℕ → ℕ → List ℕ
blk0 block words i = set words i (get_or block i 0)

pub blk1 : List ℕ → ℕ → List ℕ
blk1 words i = set words (bit_and i 15) (
    rotl_fixed
      (bit_xor
        (bit_xor (bit_xor (word_at words (i + 13)) (word_at words (i + 8))) (word_at words (i + 2)))
        (word_at words i))
      1)

-- One of `R0` to `R4`, behind which the variables change places: what was `z` is `v` next.
pub operation : (ℕ → ℕ → ℕ → ℕ) → ℕ → List ℕ → ℕ → Working → Working
operation f k words' i s = record {
  v = u32 (s.z + (f s.w s.x s.y + word_at words' i + k + rotl_fixed s.v 5));
  w = s.v;
  x = rotl_fixed s.w 30;
  y = s.x;
  z = s.y;
  words = words';
}

-- `R0` for the given number of indices from `i` on
pub first_loop : List ℕ → ℕ → ℕ → Working → Working
first_loop block zero i s = s
first_loop block (suc n) i s =
    first_loop block n (i + 1) (operation f1 0x5A827999 (blk0 block s.words i) i s)

-- `R1` to `R4` likewise
pub loop : (ℕ → ℕ → ℕ → ℕ) → ℕ → ℕ → ℕ → Working → Working
loop f k zero i s = s
loop f k (suc n) i s = loop f k n (i + 1) (operation f k (blk1 s.words i) i s)

pub init_state : List ℕ
init_state = 0x67452301 ∷ 0xefcdab89 ∷ 0x98badcfe ∷ 0x10325476 ∷ 0xc3d2e1f0 ∷ []

-- `W[16]` is not initialised.
abbrev pub unset : List ℕ
unset = 0 ∷ 0 ∷ 0 ∷ 0 ∷ 0 ∷ 0 ∷ 0 ∷ 0 ∷ 0 ∷ 0 ∷ 0 ∷ 0 ∷ 0 ∷ 0 ∷ 0 ∷ 0 ∷ []

-- The 80 operations; behind them the variables are in their own places again.
pub operations : List ℕ → Working → Working
operations block s = loop f4 0xCA62C1D6 20 60 (
    loop f3 0x8F1BBCDC 20 40
      (loop f2 0x6ED9EBA1 20 20 (loop f1 0x5A827999 4 16 (first_loop block 16 0 s))))

-- `state` has five words.
pub transform : List ℕ → List ℕ → List ℕ
transform state block =
    let at : ℕ → ℕ = λ i. get_or state i 0 in
    let s =
      operations block
        (record { v = at 0; w = at 1; x = at 2; y = at 3; z = at 4; words = unset }) in
    u32 (at 0 + s.v)
    ∷ u32 (at 1 + s.w)
    ∷ u32 (at 2 + s.x)
    ∷ u32 (at 3 + s.y)
    ∷ u32 (at 4 + s.z)
    ∷ []

-- `util::big_endian`
abbrev pub load32_be : ℕ → ℕ → ℕ → ℕ → ℕ
load32_be x y z w = load32 w z y x

abbrev pub store32_be : ℕ → List ℕ
store32_be n = u8 (n / 2 ^ 24) ∷ u8 (n / 2 ^ 16) ∷ u8 (n / 2 ^ 8) ∷ u8 n ∷ []

pub sha1_transform : Transform
sha1_transform = record {
  init = init_state;
  transform = transform;
  load_word = λ x y z w. load32_be x y z w;
  store_word = λ n. store32_be n;
  offset = 1;
}
