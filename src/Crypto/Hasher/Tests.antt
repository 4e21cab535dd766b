-- ===== src/Crypto/Hasher/Tests.antt =====
-- A hasher that is given two pieces (src/crypto/hasher.cpp).
use innoextract_wasm.Base.{◌^◌, List, [], ◌∷◌, ◌≡◌, refl, arith}
use innoextract_wasm.Crypto.Checksum.{crc32}
use innoextract_wasm.Crypto.Hasher.{hasher, finalize}
use innoextract_wasm.Crypto.Hasher.Kinds.{Piece, fed, checksum_of, finalize-checksum_of}
use innoextract_wasm.Crypto.IteratedHash.{zeros}

abbrev two_pieces : List Piece
two_pieces = (3, 1 ∷ 2 ∷ 3 ∷ 4 ∷ 5 ∷ 6 ∷ []) ∷ (8, 255 ∷ []) ∷ []

finalize-checksum_of_example :
    finalize (fed (2 ^ 32) 32 (omega arith) two_pieces (hasher crc32 (zeros 64)))
    ≡ checksum_of crc32 (1 ∷ 2 ∷ 3 ∷ 4 ∷ 5 ∷ 6 ∷ 255 ∷ [])
finalize-checksum_of_example =
    finalize-checksum_of (2 ^ 32) 32 (omega arith) crc32 (zeros 64) two_pieces refl (
      (
        (
          omega arith,
          (omega arith, (omega arith, (omega arith, (omega arith, (omega arith, tt))))),
        ),
        omega arith,
      ),
      (((omega arith, tt), omega arith), tt),
    )
