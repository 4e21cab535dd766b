-- ===== src/Crypto/Sha1/Words.antt =====
-- SHA-1 as a transform of src/crypto/iteratedhash.hpp.
use innoextract_wasm.Base.{refl}
use innoextract_wasm.Base.{arith}
use innoextract_wasm.Crypto.IteratedHash.Finalize.{IsTransform}
use innoextract_wasm.Crypto.Sha1.{sha1_transform}

pub sha1_transform-IsTransform : IsTransform sha1_transform
unfolding sha1_transform
sha1_transform-IsTransform = record { offset_small = omega arith; word_size = λ n. refl }
