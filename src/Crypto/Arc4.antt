-- ===== src/Crypto/Arc4.antt =====
-- The ARC4 key stream (src/crypto/arc4.hpp, src/crypto/arc4.cpp).
-- `uint8_t state[256]` is a list of 256 numbers below 256; the indices `a` and `b` are `size_t`.
pub mod Schedule
pub mod Crypt
pub mod Textbook
pub mod Tests
use innoextract_wasm.Base.{
  ℕ, zero, suc, ◌+◌, ◌%◌, ◌^◌, List, [], ◌∷◌, Option, none, some, bit_xor, get_or, set, length,
  ◌==◌, if◌then◌else◌,
}

pub record Arc4 : Type 0 where
  pub state : List ℕ
  pub a : ℕ
  pub b : ℕ

abbrev pub at : List ℕ → ℕ → ℕ
at s i = get_or s i 0

-- `std::swap(state[i], state[j])`
pub swap : List ℕ → ℕ → ℕ → List ℕ
swap s i j = set (set s i (at s j)) j (at s i)

-- `for(i ...) state[i] = uint8_t(i)`, with `n` rounds left
pub identity : ℕ → ℕ → List ℕ
identity zero i = []
identity (suc n) i = (i % 2 ^ 8) ∷ identity n (i + 1)

-- The second loop of `init` at index `i`, with `n` rounds left.
pub schedule : List ℕ → ℕ → ℕ → ℕ → List ℕ → List ℕ
schedule key zero i j s = s
schedule key (suc n) i j s =
    let j' = (j + at s i + at key (i % length key)) % 256 in schedule key n (i + 1) j' (swap s i j')

-- `none` is the division by zero at an empty key, which C++ leaves undefined.
pub init : List ℕ → Option Arc4
init key =
    if length key == 0
    then none
    else some (record { state = schedule key 256 0 0 (identity 256 0); a = 0; b = 0 })

pub update : Arc4 → Arc4
update r =
    let a' = (r.a + 1) % 256 in
    let b' = (r.b + at r.state a') % 256 in record { state = swap r.state a' b'; a = a'; b = b' }

pub discard : Arc4 → ℕ → Arc4
discard r zero = r
discard r (suc n) = discard (update r) n

-- The byte that `crypt` combines with the next input byte, after `update`.
pub key_byte : Arc4 → ℕ
key_byte r = at r.state ((at r.state r.a + at r.state r.b) % 256)

-- The output, and the state behind it.
pub crypt : Arc4 → List ℕ → List ℕ × Arc4
unfolding key_byte
crypt r [] = ([], r)
crypt r (x ∷ xs) =
    let r' = update r in let (out, last) = crypt r' xs in (bit_xor (key_byte r') x ∷ out, last)
