-- ===== src/Crypto/Adler32/Growth.antt =====
-- The two running sums against sums reduced after each byte.
use native.Mathlib.Nat.{mod-eq_of_lt}
use innoextract_wasm.Base.Words.{IsBytes}
use innoextract_wasm.Base.{
  ℕ, ◌+◌, ◌*◌, ◌%◌, ◌≤◌, ◌<◌, ◌≡◌, refl, List, [], ◌∷◌, arith, length, ap, ◌∙◌,
}
use innoextract_wasm.Crypto.Adler32.{Sums, add, base}

-- The checksum's definition (RFC 1950): both sums modulo 65521 after each byte.
unfoldable pub reference : Sums → List ℕ → Sums
reference s [] = s
reference s (x ∷ xs) =
    let s1' = (s.s1 + x) % base in reference (record { s1 = s1'; s2 = (s.s2 + s1') % base }) xs

unfoldable pub add_all : ℕ → Sums → List ℕ → Sums
add_all m s [] = s
add_all m s (x ∷ xs) = add_all m (add m s x) xs

abbrev pub mod_base : Sums → Sums
mod_base s = record { s1 = s.s1 % base; s2 = s.s2 % base }

-- What the sums stay below while at most eight bytes are added to a reduced first sum.
abbrev pub bound : ℕ
bound = 67560

pub record Grows (m : ℕ) (s : Sums) (xs : List ℕ) : Type 0 where
  pub s1_le : (add_all m s xs).s1 ≤ s.s1 + 255 * length xs
  pub s2_le : (add_all m s xs).s2 ≤ s.s2 + length xs * bound
  pub same : mod_base (add_all m s xs) ≡ reference (mod_base s) xs

add_mod :
    (m : ℕ) (s : Sums) (x : ℕ)
    → s.s1 + x < m
    → s.s2 + (s.s1 + x) < m
    → (add m s x).s1 ≡ s.s1 + x × ((add m s x).s2 ≡ s.s2 + (s.s1 + x))
unfolding add
add_mod m s x h k = grind (arith, mod-eq_of_lt)

-- Below `m` nothing wraps, and reducing late gives what reducing after each byte gives.
pub add_all-Grows :
    (m : ℕ) (s : Sums) (xs : List ℕ)
    → IsBytes xs
    → s.s1 + 255 * length xs ≤ bound
    → s.s2 + length xs * bound < m
    → Grows m s xs
unfolding add_all reference
add_all-Grows m s [] b h k = record { s1_le = omega arith; s2_le = omega arith; same = refl }
add_all-Grows m s (x ∷ xs) b h k =
    let here = add_mod m s x (omega arith) (omega arith) in
    let rest = add_all-Grows m (add m s x) xs b.1 (omega (arith, here.0)) (omega (arith, here.1)) in
    record {
      s1_le = omega (arith, rest.s1_le, here.0);
      s2_le = omega (arith, rest.s2_le, here.1);
      same = rest.same ∙ ap (λ t. reference t xs) (reduce here.0 here.1);
    }
  where
    reduce :
        (add m s x).s1 ≡ s.s1 + x
        → (add m s x).s2 ≡ s.s2 + (s.s1 + x)
        → mod_base (add m s x) ≡ record {
          s1 = (s.s1 % base + x) % base;
          s2 = (s.s2 % base + (s.s1 % base + x) % base) % base;
        }
    reduce p q = ground arith
