-- ===== src/Crypto/IteratedHash/Tests.antt =====
-- A hash of data in pieces (src/crypto/iteratedhash.hpp).
use innoextract_wasm.Base.{List, ℕ, [], ◌∷◌, ◌++◌, ◌≡◌, refl, arith}
use innoextract_wasm.Crypto.IteratedHash.{init, finalize, zeros}
use innoextract_wasm.Crypto.IteratedHash.Finalize.{digest, fed, finalize-fed}
use innoextract_wasm.Crypto.Sha1.{sha1_transform}
use innoextract_wasm.Crypto.Sha1.Words.{sha1_transform-IsTransform}

abbrev abc : List ℕ
abc = 97 ∷ 98 ∷ 99 ∷ []

abbrev pieces : List (List ℕ)
pieces = abc ∷ zeros 61 ∷ [] ∷ zeros 130 ∷ []

finalize-fed_example :
    finalize sha1_transform (fed sha1_transform 32 pieces (init sha1_transform (zeros 64)))
    ≡ digest sha1_transform (abc ++ (zeros 61 ++ ([] ++ (zeros 130 ++ []))))
finalize-fed_example =
    finalize-fed sha1_transform 32 (zeros 64) pieces sha1_transform-IsTransform refl
      (omega arith, (omega arith, (omega arith, (omega arith, tt))))
