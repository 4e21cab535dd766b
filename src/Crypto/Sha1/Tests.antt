-- ===== src/Crypto/Sha1/Tests.antt =====
-- The hash of "abc" in FIPS 180, which defines SHA-1 (src/crypto/sha1.cpp).
use innoextract_wasm.Base.{[], ◌∷◌, ◌≡◌, refl}
use innoextract_wasm.Crypto.IteratedHash.{store_words, load_words, hash_block, rotl_fixed}
use innoextract_wasm.Crypto.IteratedHash.Finalize.{digest}
use innoextract_wasm.Crypto.Sha1.{
  sha1_transform, init_state, transform, operations, first_loop, loop, operation, blk0, blk1, f1,
  f2, f3, f4,
}

sha1_abc :
    digest sha1_transform (97 ∷ 98 ∷ 99 ∷ [])
    ≡ 169 ∷ 153 ∷ 62 ∷ 54 ∷ 71 ∷ 6 ∷ 129 ∷ 106 ∷ 186 ∷ 62 ∷ 37 ∷ 113 ∷ 120 ∷ 80 ∷ 194 ∷ 108 ∷ 156
      ∷ 208 ∷ 216 ∷ 157 ∷ []
unfolding store_words load_words hash_block rotl_fixed sha1_transform init_state transform
    operations first_loop loop operation blk0 blk1 f1 f2 f3 f4
sha1_abc = refl
