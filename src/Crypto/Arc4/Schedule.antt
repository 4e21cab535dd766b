-- ===== src/Crypto/Arc4/Schedule.antt =====
-- The state of the cipher stays a permutation of the 256 byte values.
use innoextract_wasm.Base.{
  ℕ, zero, suc, ◌+◌, ◌%◌, ◌^◌, ◌<◌, ◌≡◌, refl, ◌∙◌, ap, List, some, arith, set, length, length-set,
  get_or-set_self, get_or-set_ne, ◌==◌, if◌then◌else◌,
}
use innoextract_wasm.Crypto.Arc4.{Arc4, at, swap, identity, schedule, init, update, discard}

-- All 256 byte values, each once.
pub record IsPermutation (s : List ℕ) : Type 0 where
  pub size : length s ≡ 256
  pub bytes : (i : ℕ) → i < 256 → at s i < 256
  pub distinct : (i j : ℕ) → i < 256 → j < 256 → at s i ≡ at s j → i ≡ j

pub record IsArc4 (r : Arc4) : Type 0 where
  pub table : IsPermutation r.state
  pub a_lt : r.a < 256
  pub b_lt : r.b < 256

pub at-swap :
    (s : List ℕ) (i j k : ℕ)
    → i < length s
    → j < length s
    → at (swap s i j) k ≡ (if k == j then at s i else if k == i then at s j else at s k)
unfolding swap
at-swap s i j k p q = ground (
  arith,
  length-set s i (at s j),
  get_or-set_self (set s i (at s j)) j (at s i) 0,
  get_or-set_ne (set s i (at s j)) j k (at s i) 0,
  get_or-set_self s i (at s j) 0,
  get_or-set_ne s i k (at s j) 0,
)

pub length-swap : (s : List ℕ) (i j : ℕ) → length (swap s i j) ≡ length s
unfolding swap
length-swap s i j = length-set (set s i (at s j)) j (at s i) ∙ length-set s i (at s j)

pub swap-IsPermutation :
    (s : List ℕ) (i j : ℕ) → i < 256 → j < 256 → IsPermutation s → IsPermutation (swap s i j)
swap-IsPermutation s i j p q v = record {
  size = length-swap s i j ∙ v.size;
  bytes = λ k h. ground (arith, v.size, v.bytes i, v.bytes j, v.bytes k, at-swap s i j k);
  distinct = λ k l h h' e. ground (
    arith,
    v.size,
    at-swap s i j k,
    at-swap s i j l,
    v.distinct i j,
    v.distinct i l,
    v.distinct j l,
    v.distinct k i,
    v.distinct k j,
    v.distinct k l,
    v.distinct j i,
  );
}

pub length-identity : (n i : ℕ) → length (identity n i) ≡ n
unfolding identity
length-identity zero i = refl
length-identity (suc n) i = ap suc (length-identity n (i + 1))

pub at-identity : (n i k : ℕ) → k < n → at (identity n i) k ≡ (i + k) % 2 ^ 8
unfolding identity
at-identity zero i k h = absurd (omega arith)
at-identity (suc n) i zero h = omega arith
at-identity (suc n) i (suc k) h = omega (arith, at-identity n (i + 1) k)

identity-IsPermutation : IsPermutation (identity 256 0)
identity-IsPermutation = record {
  size = length-identity 256 0;
  bytes = λ i h. omega (arith, at-identity 256 0 i);
  distinct = λ i j h h' e. omega (arith, at-identity 256 0 i, at-identity 256 0 j);
}

schedule-IsPermutation :
    (key : List ℕ) (n i j : ℕ) (s : List ℕ)
    → i + n ≡ 256
    → IsPermutation s
    → IsPermutation (schedule key n i j s)
unfolding schedule
schedule-IsPermutation key zero i j s e v = v
schedule-IsPermutation key (suc n) i j s e v =
    schedule-IsPermutation key n (i + 1) _ _ (omega arith)
      (swap-IsPermutation s i _ (omega arith) (omega arith) v)

-- With a key that is not empty, `init` sets up a permutation of the byte values and both
-- indices in range.
pub init-IsArc4 : (key : List ℕ) → 0 < length key → (r : Arc4) × (init key ≡ some r) × IsArc4 r
unfolding init
init-IsArc4 key h = (
  record { state = schedule key 256 0 0 (identity 256 0); a = 0; b = 0 },
  ground arith,
  record {
    table = schedule-IsPermutation key 256 0 0 _ (omega arith) identity-IsPermutation;
    a_lt = omega arith;
    b_lt = omega arith;
  },
)

pub update-IsArc4 : (r : Arc4) → IsArc4 r → IsArc4 (update r)
unfolding update
update-IsArc4 r v = record {
  table = swap-IsPermutation r.state _ _ (omega arith) (omega arith) v.table;
  a_lt = omega arith;
  b_lt = omega arith;
}

-- Discarding key bytes keeps a permutation of the byte values and both indices in range.
pub discard-IsArc4 : (n : ℕ) (r : Arc4) → IsArc4 r → IsArc4 (discard r n)
unfolding discard
discard-IsArc4 zero r v = v
discard-IsArc4 (suc n) r v = discard-IsArc4 n (update r) (update-IsArc4 r v)

pub identity-IsArc4 : IsArc4 (record { state = identity 256 0; a = 0; b = 0 })
identity-IsArc4 = record { table = identity-IsPermutation; a_lt = omega arith; b_lt = omega arith }
