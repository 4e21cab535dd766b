-- ===== src/Base/Bits.antt =====
-- Laws of the bitwise operations at every width, from the lowest binary digit upwards.
use Prim.Native.Nat.{ℕ, zero, suc, ◌+◌, ◌-◌, ◌*◌, ◌/◌, ◌%◌, ◌^◌, ◌≤◌, ◌<◌, min, max}
use Prim.Native.Nat.{bit_and, bit_or, bit_xor, digits, bitwise, differ}
use Prim.Native.Nat.{bit_and-bitwise, bit_or-bitwise, bit_xor-bitwise}
use mathlib.Core.Path.{◌≡◌, refl, ap, ap₂, ◌∙◌, sym}
use mathlib.Core.WellFounded.{Acc, WellFounded}
use mathlib.Core.WellFounded.{induction}
use native.Mathlib.Nat.{le_refl, pow-suc, one-le-pow, div-one, div-div-eq-div-mul}
use native.Mathlib.Nat.{div-add-mod, mod-one, pow-succ'}
use native.Mathlib.Omega.{arith}

Acc-below : (k n : ℕ) → n < k → Acc ◌<◌ n
Acc-below zero n h = absurd (omega arith)
Acc-below (suc k) n h = Acc.intro n (λ m hm. Acc-below k m (omega arith))

pub lt_wf : WellFounded ◌<◌
lt_wf = record { apply = λ n. Acc-below (suc n) n (le_refl _) }

-- `zeroed` is the result where the first number has no digits left, `digit` that of two digits.
module _ (zeroed : ℕ → ℕ) (digit : ℕ → ℕ → ℕ) where
  -- One more unit of fuel changes nothing where there is enough.
  digits-grow :
      (a b fuel : ℕ) → a ≤ fuel → digits zeroed digit (suc fuel) a b ≡ digits zeroed digit fuel a b
  digits-grow zero b zero h = refl
  digits-grow zero b (suc fuel) h = refl
  digits-grow (suc a) b zero h = absurd (omega arith)
  digits-grow (suc a) b (suc fuel) h =
      ap (λ rest. rest * 2 + digit (suc a % 2) (b % 2))
        (digits-grow (suc a / 2) (b / 2) fuel (omega arith))

  digits-enough :
      (extra fuel all a b : ℕ)
      → a ≤ fuel
      → all ≡ extra + fuel
      → digits zeroed digit all a b ≡ digits zeroed digit fuel a b
  digits-enough zero fuel all a b h e = ap (λ k. digits zeroed digit k a b) (omega arith)
  digits-enough (suc extra) fuel zero a b h e = absurd (omega arith)
  digits-enough (suc extra) fuel (suc all) a b h e =
      digits-grow a b all (omega arith) ∙ digits-enough extra fuel all a b h (omega arith)

  lowest_digit :
      (a b : ℕ)
      → bitwise zeroed digit (suc a) b
        ≡ bitwise zeroed digit (suc a / 2) (b / 2) * 2 + digit (suc a % 2) (b % 2)
  lowest_digit a b =
      ap (λ rest. rest * 2 + digit (suc a % 2) (b % 2))
        (digits-enough (a - suc a / 2) (suc a / 2) a (suc a / 2) (b / 2) (omega arith)
          (omega arith))

pub bit_or_step : (x y : ℕ) → bit_or x y ≡ bit_or (x / 2) (y / 2) * 2 + max (x % 2) (y % 2)
bit_or_step zero y = simp bit_or-bitwise (omega arith)
bit_or_step (suc x) y = simp bit_or-bitwise (lowest_digit (λ d. d) max x y)

pub bit_and_step : (x y : ℕ) → bit_and x y ≡ bit_and (x / 2) (y / 2) * 2 + min (x % 2) (y % 2)
bit_and_step zero y = simp bit_and-bitwise (omega arith)
bit_and_step (suc x) y = simp bit_and-bitwise (lowest_digit (λ d. 0) min x y)

differ_bits : (x y : ℕ) → x < 2 → y < 2 → differ x y ≡ (x + y) % 2
differ_bits zero y p q = omega arith
differ_bits (suc x) zero p q = omega arith
differ_bits (suc zero) (suc zero) p q = refl
differ_bits (suc zero) (suc (suc y)) p q = absurd (omega arith)
differ_bits (suc (suc x)) (suc y) p q = absurd (omega arith)

pub bit_xor_step : (a b : ℕ) → bit_xor a b ≡ bit_xor (a / 2) (b / 2) * 2 + (a + b) % 2
bit_xor_step zero b = simp bit_xor-bitwise (omega arith)
bit_xor_step (suc a) b = simp bit_xor-bitwise (
    omega (
      arith,
      lowest_digit (λ d. d) differ a b,
      differ_bits (suc a % 2) (b % 2) (omega arith) (omega arith),
    ))

-- Induction from `a / 2` to `a`.
pub halving_induction {ℓ} :
    (P : ℕ → Type ℓ) → P 0 → ((a : ℕ) → P (suc a / 2) → P (suc a)) → (a : ℕ) → P a
halving_induction P base next a = induction lt_wf {C = P} a λ k.
    elim k as (λ m. ((j : ℕ) → j < m → P j) → P m) [
      | zero ↦ λ ih. base
      | suc m ↦ λ ih. next m (ih (suc m / 2) (omega arith))
    ]

pub bit_xor-zero : (a : ℕ) → bit_xor a 0 ≡ a
bit_xor-zero =
    halving_induction (λ a. bit_xor a 0 ≡ a) refl λ a ih. omega (arith, bit_xor_step (suc a) 0, ih)

pub zero-bit_xor : (b : ℕ) → bit_xor 0 b ≡ b
zero-bit_xor b = bit_xor-bitwise 0 b

pub bit_xor_comm : (a b : ℕ) → bit_xor a b ≡ bit_xor b a
bit_xor_comm =
    halving_induction (λ a. (b : ℕ) → bit_xor a b ≡ bit_xor b a)
      (λ b. zero-bit_xor b ∙ sym (bit_xor-zero b))
      λ a ih b. omega (arith, bit_xor_step (suc a) b, bit_xor_step b (suc a), ih (b / 2))

-- `xor` with the same number twice gives the other number back.
pub bit_xor_cancel : (a b : ℕ) → bit_xor a (bit_xor a b) ≡ b
bit_xor_cancel =
    halving_induction (λ a. (b : ℕ) → bit_xor a (bit_xor a b) ≡ b) (λ b. simp zero-bit_xor)
      λ a ih b.
        let half : bit_xor (suc a) b / 2 ≡ bit_xor (suc a / 2) (b / 2) =
          omega (arith, bit_xor_step (suc a) b) in
        omega (
          arith,
          bit_xor_step (suc a) (bit_xor (suc a) b),
          ap (bit_xor (suc a / 2)) half,
          bit_xor_step (suc a) b,
          ih (b / 2),
        )

pub bit_xor_half : (a b : ℕ) → bit_xor a b / 2 ≡ bit_xor (a / 2) (b / 2)
bit_xor_half a b = omega (arith, bit_xor_step a b)

pub bit_xor_assoc : (a b c : ℕ) → bit_xor (bit_xor a b) c ≡ bit_xor a (bit_xor b c)
bit_xor_assoc =
    halving_induction (λ a. (b c : ℕ) → bit_xor (bit_xor a b) c ≡ bit_xor a (bit_xor b c))
      (λ b c. simp zero-bit_xor)
      λ a ih b c. omega (
        arith,
        bit_xor_step (bit_xor (suc a) b) c,
        bit_xor_step (suc a) (bit_xor b c),
        bit_xor_step (suc a) b,
        bit_xor_step b c,
        ap (λ (t : ℕ). bit_xor t (c / 2)) (bit_xor_half (suc a) b),
        ap (bit_xor (suc a / 2)) (bit_xor_half b c),
        ih (b / 2) (c / 2),
      )

div-pow-suc : (k a : ℕ) → a / 2 ^ suc k ≡ a / 2 ^ k / 2
div-pow-suc k a = rw (pow-suc 2 k) (sym (div-div-eq-div-mul a (2 ^ k) 2))

-- `xor` goes under a right shift.
pub bit_xor-div : (k a b : ℕ) → bit_xor a b / 2 ^ k ≡ bit_xor (a / 2 ^ k) (b / 2 ^ k)
bit_xor-div zero a b = rw (div-one (bit_xor a b), div-one a, div-one b)
bit_xor-div (suc k) a b =
    rw (div-pow-suc k (bit_xor a b), div-pow-suc k a, div-pow-suc k b, bit_xor-div k a b)
      (bit_xor_half (a / 2 ^ k) (b / 2 ^ k))

-- The result fits where both arguments fit.
pub bit_xor-lt : (k a b : ℕ) → a < 2 ^ k → b < 2 ^ k → bit_xor a b < 2 ^ k
bit_xor-lt zero a b p q =
    omega (arith, bit_xor_step a b, bit_xor-zero a, ap (bit_xor a) {x = b} {y = 0} (omega arith))
bit_xor-lt (suc k) a b p q = omega (
  arith,
  pow-suc 2 k,
  bit_xor_step a b,
  bit_xor-lt k (a / 2) (b / 2) (omega (arith, pow-suc 2 k)) (omega (arith, pow-suc 2 k)),
)

mod-double : (m a : ℕ) → a % (2 * m) ≡ a / 2 % m * 2 + a % 2
mod-double m a = omega (
  arith,
  div-add-mod a (2 * m),
  div-add-mod (a / 2) m,
  ap (λ (t : ℕ). m * t) (sym (div-div-eq-div-mul a 2 m)),
)

-- `xor` goes under a remainder by a power of two.
pub bit_xor-mod : (k a b : ℕ) → bit_xor a b % 2 ^ k ≡ bit_xor (a % 2 ^ k) (b % 2 ^ k)
bit_xor-mod zero a b =
    omega (arith, bit_xor-zero 0, ap₂ bit_xor {x = a % 1} {y = 0} (omega arith) (mod-one b))
bit_xor-mod (suc k) a b = rw (pow-succ' 2 k) (
    omega (
      arith,
      mod-double (2 ^ k) (bit_xor a b),
      bit_xor-mod k (a / 2) (b / 2),
      bit_xor_half a b,
      ap (λ (t : ℕ). t % 2 ^ k) (bit_xor_half a b),
      bit_xor_step a b,
      bit_xor_step (a % (2 * 2 ^ k)) (b % (2 * 2 ^ k)),
      mod-double (2 ^ k) a,
      mod-double (2 ^ k) b,
      ap₂ bit_xor {x = a % (2 * 2 ^ k) / 2} {y = a / 2 % 2 ^ k} {u = b % (2 * 2 ^ k) / 2}
          {v = b / 2 % 2 ^ k} (omega (arith, mod-double (2 ^ k) a))
          (omega (arith, mod-double (2 ^ k) b)),
    ))

bit_and-zero : (a : ℕ) → bit_and a 0 ≡ 0
bit_and-zero =
    halving_induction (λ a. bit_and a 0 ≡ 0) refl λ a ih. omega (arith, bit_and_step (suc a) 0, ih)

-- A mask of `k` ones keeps the `k` low digits.
pub bit_and-mask : (k a : ℕ) → bit_and a (2 ^ k - 1) ≡ a % 2 ^ k
bit_and-mask zero a = omega (arith, bit_and-zero a)
bit_and-mask (suc k) a = rw (pow-succ' 2 k) (
    omega (
      arith,
      bit_and_step a (2 * 2 ^ k - 1),
      ap (bit_and (a / 2)) {x = (2 * 2 ^ k - 1) / 2} {y = 2 ^ k - 1} (omega arith),
      bit_and-mask k (a / 2),
      mod-double (2 ^ k) a,
      one-le-pow k 2,
    ))

-- Digits above place `k` and digits below it meet by addition.
pub bit_xor_fields : (k q r : ℕ) → r < 2 ^ k → bit_xor (q * 2 ^ k) r ≡ q * 2 ^ k + r
bit_xor_fields zero q r h =
    omega (arith, bit_xor-zero (q * 1), ap (bit_xor (q * 1)) {x = r} {y = 0} (omega arith))
bit_xor_fields (suc k) q r h = rw (pow-succ' 2 k) (
    omega (
      arith,
      bit_xor_step (q * (2 * 2 ^ k)) r,
      ap (λ (t : ℕ). bit_xor t (r / 2)) {x = q * (2 * 2 ^ k) / 2} {y = q * 2 ^ k} (omega arith),
      bit_xor_fields k q (r / 2) (omega (arith, pow-succ' 2 k)),
    ))

-- The same number on both sides of an `xor` cancels.
pub bit_xor_both : (a b p : ℕ) → bit_xor (bit_xor a p) (bit_xor b p) ≡ bit_xor a b
bit_xor_both a b p =
    bit_xor_assoc a p (bit_xor b p)
    ∙ ap (bit_xor a) (ap (bit_xor p) (bit_xor_comm b p) ∙ bit_xor_cancel p b)

bit_or-zero : (a : ℕ) → bit_or a 0 ≡ a
bit_or-zero =
    halving_induction (λ a. bit_or a 0 ≡ a) refl λ a ih. omega (arith, bit_or_step (suc a) 0, ih)

pub bit_or_fields : (k q r : ℕ) → r < 2 ^ k → bit_or (q * 2 ^ k) r ≡ q * 2 ^ k + r
bit_or_fields zero q r h =
    omega (arith, bit_or-zero (q * 1), ap (bit_or (q * 1)) {x = r} {y = 0} (omega arith))
bit_or_fields (suc k) q r h = rw (pow-succ' 2 k) (
    omega (
      arith,
      bit_or_step (q * (2 * 2 ^ k)) r,
      ap (λ (t : ℕ). bit_or t (r / 2)) {x = q * (2 * 2 ^ k) / 2} {y = q * 2 ^ k} (omega arith),
      bit_or_fields k q (r / 2) (omega (arith, pow-succ' 2 k)),
    ))
