-- ===== src/Crypto/Md5/Words.antt =====
-- MD5 as a transform of src/crypto/iteratedhash.hpp.
use innoextract_wasm.Base.{refl}
use innoextract_wasm.Base.{arith}
use innoextract_wasm.Crypto.IteratedHash.Finalize.{IsTransform}
use innoextract_wasm.Crypto.Md5.{md5_transform}

pub md5_transform-IsTransform : IsTransform md5_transform
unfolding md5_transform
md5_transform-IsTransform = record { offset_small = omega arith; word_size = λ n. refl }
