-- ===== src/Setup/Load/Flags/Picked.antt =====
-- The flags that both readers of src/util/storedenum.hpp pick, bit by bit.
use innoextract_wasm.Base.{
  ℕ, zero, suc, ◌+◌, ◌-◌, ◌*◌, ◌/◌, ◌%◌, ◌^◌, ◌≤◌, ◌<◌, Bool, true, false, List, [], ◌∷◌, length,
  ◌==◌, if◌then◌else◌, ◌≡◌, refl, sym, ap, ap₂, ◌∙◌, arith, Bool-cases, inl, inr,
}
use native.Mathlib.Nat.{div-div-eq-div-mul, pow-suc}
use innoextract_wasm.Base.Words.{IsByte, IsBytes}
use innoextract_wasm.Setup.Load.Flags.{bit, lower_bits, select}

abbrev pub chosen : {F : Type 0} → Bool → F → List F → List F
chosen true f fs = f ∷ fs
chosen false f fs = fs

-- How many bytes are still read for so many flags, where this bit of the present byte is next.
unfoldable pub need : (pos count : ℕ) → ℕ
need zero count = (count + 7) / 8
need (suc pos) count = (suc pos + count + 7) / 8 - 1

-- The flags that are picked from the present byte and from those that follow it.
unfoldable pub picked : {F : Type 0} → (pos buffer : ℕ) → List ℕ → List F → List F
picked pos buffer bytes [] = []
picked zero buffer [] (f ∷ fs) = []
picked zero buffer (b ∷ bytes) (f ∷ fs) = chosen (bit b 0) f (picked 1 b bytes fs)
picked (suc pos) buffer bytes (f ∷ fs) =
    chosen (bit buffer (suc pos)) f (picked ((suc pos + 1) % 8) buffer bytes fs)

-- All bytes put together.
abbrev pub all_bits : List ℕ → ℕ
all_bits [] = 0
all_bits (b ∷ bs) = b + all_bits bs * 2 ^ 8

pub lower_bits-all : (bs : List ℕ) (n : ℕ) → length bs ≤ n → lower_bits bs n ≡ all_bits bs
unfolding lower_bits
lower_bits-all [] n h = refl
lower_bits-all (b ∷ bs) zero h = ground arith
lower_bits-all (b ∷ bs) (suc n) h = ap (λ m. b + m * 2 ^ 8) (lower_bits-all bs n (omega arith))

bit-low : (b m p : ℕ) → IsByte b → p < 8 → bit (b + m * 2 ^ 8) p ≡ bit b p
bit-low b m zero h q = ap (λ n. n == 1) (omega arith)
bit-low b m (suc zero) h q = ap (λ n. n == 1) (omega arith)
bit-low b m (suc (suc zero)) h q = ap (λ n. n == 1) (omega arith)
bit-low b m (suc (suc (suc zero))) h q = ap (λ n. n == 1) (omega arith)
bit-low b m (suc (suc (suc (suc zero)))) h q = ap (λ n. n == 1) (omega arith)
bit-low b m (suc (suc (suc (suc (suc zero))))) h q = ap (λ n. n == 1) (omega arith)
bit-low b m (suc (suc (suc (suc (suc (suc zero)))))) h q = ap (λ n. n == 1) (omega arith)
bit-low b m (suc (suc (suc (suc (suc (suc (suc zero))))))) h q = ap (λ n. n == 1) (omega arith)
bit-low b m (suc (suc (suc (suc (suc (suc (suc (suc p)))))))) h q = ground arith

pow_8 : (i : ℕ) → 2 ^ (i + 8) ≡ 2 ^ 8 * 2 ^ i
pow_8 zero = refl
pow_8 (suc i) =
    ap (λ j. 2 ^ j) {x = suc i + 8} {y = suc (i + 8)} (omega arith)
    ∙ (let more = pow-suc 2 (i + 8) in let less = pow-suc 2 i in let ih = pow_8 i in omega arith)

bit-high : (b m i : ℕ) → IsByte b → bit (b + m * 2 ^ 8) (i + 8) ≡ bit m i
bit-high b m i h =
    ap (λ n. n % 2 == 1)
      (ap (λ d. (b + m * 2 ^ 8) / d) {x = 2 ^ (i + 8)} {y = 2 ^ 8 * 2 ^ i} (pow_8 i)
        ∙ sym (div-div-eq-div-mul (b + m * 2 ^ 8) (2 ^ 8) (2 ^ i))
        ∙ ap (λ n. n / 2 ^ i) {x = (b + m * 2 ^ 8) / 2 ^ 8} {y = m} (omega arith))

select-high :
    {F : Type 0} (b m i : ℕ) (fs : List F)
    → IsByte b
    → select (b + m * 2 ^ 8) (i + 8) fs ≡ select m i fs
unfolding select
select-high b m i [] h = refl
select-high b m i (f ∷ fs) h =
    ap₂ (λ c rest. if c then f ∷ rest else rest) (bit-high b m i h)
      (ap (λ j. select (b + m * 2 ^ 8) j fs) {x = i + 8 + 1} {y = i + 1 + 8} (omega arith)
        ∙ select-high b m (i + 1) fs h)

chosen_if :
    {F : Type 0} (c d : Bool) (f : F) (fs gs : List F)
    → c ≡ d
    → fs ≡ gs
    → chosen c f fs ≡ (if d then f ∷ gs else gs)
chosen_if true d f fs gs p q = rw (sym p) (ap (λ l. f ∷ l) q)
chosen_if false d f fs gs p q = rw (sym p) q

-- With the bytes that are needed at hand, picking is selecting from all bits.
mutual
  unfolding picked select need

  pub picked-start :
      {F : Type 0} (fs : List F) (buffer : ℕ) (bytes : List ℕ)
      → IsBytes bytes
      → length bytes ≡ need 0 (length fs)
      → picked 0 buffer bytes fs ≡ select (all_bits bytes) 0 fs
  picked-start [] buffer bytes hs e = refl
  picked-start (f ∷ fs) buffer [] hs e = ground arith
  picked-start (f ∷ fs) buffer (b ∷ bytes) (hb, hs) e =
      chosen_if (bit b 0) (bit (b + all_bits bytes * 2 ^ 8) 0) f (picked 1 b bytes fs)
        (select (b + all_bits bytes * 2 ^ 8) 1 fs)
        (sym (bit-low b (all_bits bytes) 0 hb (omega arith)))
        (picked-select fs 0 b bytes (omega arith) hb hs (omega arith))

  pub picked-select :
      {F : Type 0} (fs : List F) (pos buffer : ℕ) (bytes : List ℕ)
      → suc pos < 8
      → IsByte buffer
      → IsBytes bytes
      → length bytes ≡ need (suc pos) (length fs)
      → picked (suc pos) buffer bytes fs ≡ select (buffer + all_bits bytes * 2 ^ 8) (suc pos) fs
  picked-select [] pos buffer bytes p h hs e = refl
  picked-select (f ∷ fs) pos buffer bytes p h hs e =
      chosen_if (bit buffer (suc pos)) (bit (buffer + all_bits bytes * 2 ^ 8) (suc pos)) f
        (picked ((suc pos + 1) % 8) buffer bytes fs)
        (select (buffer + all_bits bytes * 2 ^ 8) (suc pos + 1) fs)
        (sym (bit-low buffer (all_bits bytes) (suc pos) h p))
        (elim (Bool-cases (suc pos == 7)) [
          | inl last ↦
              (ap (λ j. picked j buffer bytes fs) {x = (suc pos + 1) % 8} {y = 0} (ground arith)
                ∙ picked-start fs buffer bytes hs (ground arith)
                ∙ sym (select-high buffer (all_bits bytes) 0 fs h)
                ∙ ap (λ j. select (buffer + all_bits bytes * 2 ^ 8) j fs) {x = 0 + 8}
                    {y = suc pos + 1} (ground arith))
          | inr inner ↦
              (ap (λ j. picked j buffer bytes fs) {x = (suc pos + 1) % 8} {y = suc (suc pos)}
                  (ground arith)
                ∙ picked-select fs (suc pos) buffer bytes (ground arith) h hs (ground arith)
                ∙ ap (λ j. select (buffer + all_bits bytes * 2 ^ 8) j fs) {x = suc (suc pos)}
                    {y = suc pos + 1} (omega arith))
        ])
