-- ===== src/Crypto/Checksum.antt =====
-- Checksums of one of several kinds (src/crypto/checksum.hpp, src/crypto/checksum.cpp).
use innoextract_wasm.Base.{
  ℕ, Bool, true, false, ◌&&◌, List, [], ◌∷◌, ◌==◌, ==_iff, ◌≡◌, refl, sym, ap, ap₂, subst, ◌↔◌, ◌∙◌,
  Bool-cases, inl, inr, arith,
}

pub data ChecksumType : Type 0 where
  no_checksum : ChecksumType
  adler32 : ChecksumType
  crc32 : ChecksumType
  md5 : ChecksumType
  sha1 : ChecksumType

-- The union, with the type that says which of its members is set.
pub data Checksum : Type 0 where
  no_sum : Checksum
  adler32_sum : ℕ → Checksum
  crc32_sum : ℕ → Checksum
  md5_sum : List ℕ → Checksum
  sha1_sum : List ℕ → Checksum

-- `!memcmp` of two arrays of the same size
unfoldable pub bytes_eq : List ℕ → List ℕ → Bool
bytes_eq [] [] = true
bytes_eq (x ∷ xs) (y ∷ ys) = (x == y) && bytes_eq xs ys
bytes_eq xs ys = false

-- `checksum::operator==`
pub checksum_eq : Checksum → Checksum → Bool
unfolding bytes_eq
checksum_eq no_sum no_sum = true
checksum_eq (adler32_sum x) (adler32_sum y) = x == y
checksum_eq (crc32_sum x) (crc32_sum y) = x == y
checksum_eq (md5_sum x) (md5_sum y) = bytes_eq x y
checksum_eq (sha1_sum x) (sha1_sum y) = bytes_eq x y
checksum_eq x y = false

same_bytes : (xs ys : List ℕ) → bytes_eq xs ys ≡ true → xs ≡ ys
unfolding bytes_eq
same_bytes [] [] h = refl
same_bytes [] (y ∷ ys) h = ground arith
same_bytes (x ∷ xs) [] h = ground arith
same_bytes (x ∷ xs) (y ∷ ys) h = elim (Bool-cases (x == y)) [
  | inl same ↦
      ap₂ ◌∷◌ ((==_iff x y).0 same)
        (same_bytes xs ys (sym (ap (λ b. b && bytes_eq xs ys) same) ∙ h))
  | inr other ↦ ground (arith, other, h)
]

equal_bytes : (xs : List ℕ) → bytes_eq xs xs ≡ true
unfolding bytes_eq
equal_bytes [] = refl
equal_bytes (x ∷ xs) = rw ((==_iff x x).1 refl) (equal_bytes xs)

equal_checksums : (a b : Checksum) → checksum_eq a b ≡ true → a ≡ b
unfolding checksum_eq
equal_checksums no_sum no_sum h = refl
equal_checksums (adler32_sum x) (adler32_sum y) h = ap adler32_sum ((==_iff x y).0 h)
equal_checksums (crc32_sum x) (crc32_sum y) h = ap crc32_sum ((==_iff x y).0 h)
equal_checksums (md5_sum x) (md5_sum y) h = ap md5_sum (same_bytes x y h)
equal_checksums (sha1_sum x) (sha1_sum y) h = ap sha1_sum (same_bytes x y h)
equal_checksums a b h = ground arith

equal_self : (a : Checksum) → checksum_eq a a ≡ true
unfolding checksum_eq
equal_self no_sum = refl
equal_self (adler32_sum x) = (==_iff x x).1 refl
equal_self (crc32_sum x) = (==_iff x x).1 refl
equal_self (md5_sum x) = equal_bytes x
equal_self (sha1_sum x) = equal_bytes x

-- Two checksums compare as equal exactly when they are: of one type, with the same value.
pub checksum_eq_iff : (a b : Checksum) → (checksum_eq a b ≡ true) ↔ (a ≡ b)
checksum_eq_iff a b =
    (equal_checksums a b, λ e. subst (λ c. checksum_eq a c ≡ true) e (equal_self a))
