-- ===== src/Crypto/Arc4/Crypt.antt =====
-- What `crypt` does to a buffer.
use innoextract_wasm.Base.Bits.{bit_xor_cancel}
use innoextract_wasm.Base.{ℕ, ◌≡◌, refl, ap₂, List, [], ◌∷◌, length}
use innoextract_wasm.Crypto.Arc4.{Arc4, update, discard, key_byte, crypt}

-- Encrypting with the same key state twice gives the input back, and both runs end in the
-- state that discarding as many key bytes gives.
pub crypt-crypt :
    (r : Arc4) (xs : List ℕ)
    → ((crypt r (crypt r xs).0).0 ≡ xs)
      × ((crypt r xs).1 ≡ discard r (length xs))
      × ((crypt r (crypt r xs).0).1 ≡ discard r (length xs))
unfolding crypt discard
crypt-crypt r [] = (refl, refl, refl)
crypt-crypt r (x ∷ xs) =
    let rest = crypt-crypt (update r) xs in
    (ap₂ ◌∷◌ (bit_xor_cancel (key_byte (update r)) x) rest.0, rest.1, rest.2)
