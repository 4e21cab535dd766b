-- ===== src/Crypto/Md5.antt =====
-- MD5 (src/crypto/md5.hpp, src/crypto/md5.cpp).
pub mod Words
pub mod Tests
use innoextract_wasm.Base.{ℕ, ◌+◌, ◌-◌, ◌^◌, List, [], ◌∷◌, bit_and, bit_or, bit_xor, get_or}
use innoextract_wasm.Base.Words.{u32, load32, store32}
use innoextract_wasm.Crypto.IteratedHash.{Transform, rotl_fixed}

pub f1 : ℕ → ℕ → ℕ → ℕ
f1 x y z = bit_xor z (bit_and x (bit_xor y z))

pub f2 : ℕ → ℕ → ℕ → ℕ
f2 x y z = f1 z x y

pub f3 : ℕ → ℕ → ℕ → ℕ
f3 x y z = bit_xor (bit_xor x y) z

-- `~z` of a word is what is missing to the largest word.
pub f4 : ℕ → ℕ → ℕ → ℕ
f4 x y z = bit_xor y (bit_or x (2 ^ 32 - 1 - z))

-- `MD5STEP`: the new value of `w`
pub md5_step : (ℕ → ℕ → ℕ → ℕ) → ℕ → ℕ → ℕ → ℕ → ℕ → ℕ → ℕ
md5_step f w x y z word s = u32 (rotl_fixed (u32 (w + f x y z + word)) s + x)

abbrev pub word : List ℕ → ℕ → ℕ → ℕ
word block i k = u32 (get_or block i 0 + k)

pub record Variables : Type 0 where
  pub a : ℕ
  pub b : ℕ
  pub c : ℕ
  pub d : ℕ

pub round_1 : List ℕ → Variables → Variables
round_1 block v =
    let a = v.a in
    let b = v.b in
    let c = v.c in
    let d = v.d in
    let a = md5_step f1 a b c d (word block 0 0xd76aa478) 7 in
    let d = md5_step f1 d a b c (word block 1 0xe8c7b756) 12 in
    let c = md5_step f1 c d a b (word block 2 0x242070db) 17 in
    let b = md5_step f1 b c d a (word block 3 0xc1bdceee) 22 in
    let a = md5_step f1 a b c d (word block 4 0xf57c0faf) 7 in
    let d = md5_step f1 d a b c (word block 5 0x4787c62a) 12 in
    let c = md5_step f1 c d a b (word block 6 0xa8304613) 17 in
    let b = md5_step f1 b c d a (word block 7 0xfd469501) 22 in
    let a = md5_step f1 a b c d (word block 8 0x698098d8) 7 in
    let d = md5_step f1 d a b c (word block 9 0x8b44f7af) 12 in
    let c = md5_step f1 c d a b (word block 10 0xffff5bb1) 17 in
    let b = md5_step f1 b c d a (word block 11 0x895cd7be) 22 in
    let a = md5_step f1 a b c d (word block 12 0x6b901122) 7 in
    let d = md5_step f1 d a b c (word block 13 0xfd987193) 12 in
    let c = md5_step f1 c d a b (word block 14 0xa679438e) 17 in
    let b = md5_step f1 b c d a (word block 15 0x49b40821) 22 in
    record { a = a; b = b; c = c; d = d }

pub round_2 : List ℕ → Variables → Variables
round_2 block v =
    let a = v.a in
    let b = v.b in
    let c = v.c in
    let d = v.d in
    let a = md5_step f2 a b c d (word block 1 0xf61e2562) 5 in
    let d = md5_step f2 d a b c (word block 6 0xc040b340) 9 in
    let c = md5_step f2 c d a b (word block 11 0x265e5a51) 14 in
    let b = md5_step f2 b c d a (word block 0 0xe9b6c7aa) 20 in
    let a = md5_step f2 a b c d (word block 5 0xd62f105d) 5 in
    let d = md5_step f2 d a b c (word block 10 0x02441453) 9 in
    let c = md5_step f2 c d a b (word block 15 0xd8a1e681) 14 in
    let b = md5_step f2 b c d a (word block 4 0xe7d3fbc8) 20 in
    let a = md5_step f2 a b c d (word block 9 0x21e1cde6) 5 in
    let d = md5_step f2 d a b c (word block 14 0xc33707d6) 9 in
    let c = md5_step f2 c d a b (word block 3 0xf4d50d87) 14 in
    let b = md5_step f2 b c d a (word block 8 0x455a14ed) 20 in
    let a = md5_step f2 a b c d (word block 13 0xa9e3e905) 5 in
    let d = md5_step f2 d a b c (word block 2 0xfcefa3f8) 9 in
    let c = md5_step f2 c d a b (word block 7 0x676f02d9) 14 in
    let b = md5_step f2 b c d a (word block 12 0x8d2a4c8a) 20 in
    record { a = a; b = b; c = c; d = d }

pub round_3 : List ℕ → Variables → Variables
round_3 block v =
    let a = v.a in
    let b = v.b in
    let c = v.c in
    let d = v.d in
    let a = md5_step f3 a b c d (word block 5 0xfffa3942) 4 in
    let d = md5_step f3 d a b c (word block 8 0x8771f681) 11 in
    let c = md5_step f3 c d a b (word block 11 0x6d9d6122) 16 in
    let b = md5_step f3 b c d a (word block 14 0xfde5380c) 23 in
    let a = md5_step f3 a b c d (word block 1 0xa4beea44) 4 in
    let d = md5_step f3 d a b c (word block 4 0x4bdecfa9) 11 in
    let c = md5_step f3 c d a b (word block 7 0xf6bb4b60) 16 in
    let b = md5_step f3 b c d a (word block 10 0xbebfbc70) 23 in
    let a = md5_step f3 a b c d (word block 13 0x289b7ec6) 4 in
    let d = md5_step f3 d a b c (word block 0 0xeaa127fa) 11 in
    let c = md5_step f3 c d a b (word block 3 0xd4ef3085) 16 in
    let b = md5_step f3 b c d a (word block 6 0x04881d05) 23 in
    let a = md5_step f3 a b c d (word block 9 0xd9d4d039) 4 in
    let d = md5_step f3 d a b c (word block 12 0xe6db99e5) 11 in
    let c = md5_step f3 c d a b (word block 15 0x1fa27cf8) 16 in
    let b = md5_step f3 b c d a (word block 2 0xc4ac5665) 23 in
    record { a = a; b = b; c = c; d = d }

pub round_4 : List ℕ → Variables → Variables
round_4 block v =
    let a = v.a in
    let b = v.b in
    let c = v.c in
    let d = v.d in
    let a = md5_step f4 a b c d (word block 0 0xf4292244) 6 in
    let d = md5_step f4 d a b c (word block 7 0x432aff97) 10 in
    let c = md5_step f4 c d a b (word block 14 0xab9423a7) 15 in
    let b = md5_step f4 b c d a (word block 5 0xfc93a039) 21 in
    let a = md5_step f4 a b c d (word block 12 0x655b59c3) 6 in
    let d = md5_step f4 d a b c (word block 3 0x8f0ccc92) 10 in
    let c = md5_step f4 c d a b (word block 10 0xffeff47d) 15 in
    let b = md5_step f4 b c d a (word block 1 0x85845dd1) 21 in
    let a = md5_step f4 a b c d (word block 8 0x6fa87e4f) 6 in
    let d = md5_step f4 d a b c (word block 15 0xfe2ce6e0) 10 in
    let c = md5_step f4 c d a b (word block 6 0xa3014314) 15 in
    let b = md5_step f4 b c d a (word block 13 0x4e0811a1) 21 in
    let a = md5_step f4 a b c d (word block 4 0xf7537e82) 6 in
    let d = md5_step f4 d a b c (word block 11 0xbd3af235) 10 in
    let c = md5_step f4 c d a b (word block 2 0x2ad7d2bb) 15 in
    let b = md5_step f4 b c d a (word block 9 0xeb86d391) 21 in
    record { a = a; b = b; c = c; d = d }

pub init_state : List ℕ
init_state = 0x67452301 ∷ 0xefcdab89 ∷ 0x98badcfe ∷ 0x10325476 ∷ []

-- `state` has four words.
pub transform : List ℕ → List ℕ → List ℕ
transform state block =
    let at : ℕ → ℕ = λ i. get_or state i 0 in
    let v = round_4 block (
      round_3 block
        (round_2 block (round_1 block (record { a = at 0; b = at 1; c = at 2; d = at 3 })))) in
    u32 (at 0 + v.a) ∷ u32 (at 1 + v.b) ∷ u32 (at 2 + v.c) ∷ u32 (at 3 + v.d) ∷ []

pub md5_transform : Transform
md5_transform = record {
  init = init_state;
  transform = transform;
  load_word = λ x y z w. load32 x y z w;
  store_word = λ n. store32 n;
  offset = 0;
}
