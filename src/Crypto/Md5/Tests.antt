-- ===== src/Crypto/Md5/Tests.antt =====
-- The hash of "abc" in RFC 1321, which defines MD5 (src/crypto/md5.cpp).
use innoextract_wasm.Base.{[], ◌∷◌, ◌≡◌, refl}
use innoextract_wasm.Crypto.IteratedHash.{store_words, load_words, hash_block, rotl_fixed}
use innoextract_wasm.Crypto.IteratedHash.Finalize.{digest}
use innoextract_wasm.Crypto.Md5.{
  md5_transform, init_state, transform, round_1, round_2, round_3, round_4, md5_step, f1, f2, f3,
  f4,
}

md5_abc :
    digest md5_transform (97 ∷ 98 ∷ 99 ∷ [])
    ≡ 144 ∷ 1 ∷ 80 ∷ 152 ∷ 60 ∷ 210 ∷ 79 ∷ 176 ∷ 214 ∷ 150 ∷ 63 ∷ 125 ∷ 40 ∷ 225 ∷ 127 ∷ 114 ∷ []
unfolding store_words load_words hash_block rotl_fixed md5_transform init_state transform round_1
    round_2 round_3 round_4 md5_step f1 f2 f3 f4
md5_abc = refl
