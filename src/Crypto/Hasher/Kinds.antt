-- ===== src/Crypto/Hasher/Kinds.antt =====
-- The checksum of data that comes in pieces, against the definition of each kind
-- (src/crypto/hasher.cpp).
use innoextract_wasm.Base.Words.{IsByte, IsBytes}
use innoextract_wasm.Base.{
  ℕ, ◌+◌, ◌^◌, ◌≤◌, List, [], ◌∷◌, ◌++◌, append_assoc, append-nil, length, All, All-append, bit_xor,
  ◌≡◌, refl, sym, ap, ◌∙◌, subst,
}
use innoextract_wasm.Crypto.Adler32.Growth.{reference}
use innoextract_wasm.Crypto.Adler32.Update.{
  halves, pack, init-IsReduced, update-reference, update-update,
}
use innoextract_wasm.Crypto.Adler32
use innoextract_wasm.Crypto.Crc32.Serial.{serial}
use innoextract_wasm.Crypto.Crc32.Update.{update-serial, serial-append}
use innoextract_wasm.Crypto.Crc32
use innoextract_wasm.Crypto.IteratedHash.Finalize.{digest, finalize-digest}
use innoextract_wasm.Crypto.IteratedHash.Update.{Holds, init-Holds, update-Holds}
use innoextract_wasm.Crypto.IteratedHash
use innoextract_wasm.Crypto.Md5.{md5_transform}
use innoextract_wasm.Crypto.Md5.Words.{md5_transform-IsTransform}
use innoextract_wasm.Crypto.Sha1.{sha1_transform}
use innoextract_wasm.Crypto.Sha1.Words.{sha1_transform-IsTransform}
use innoextract_wasm.Crypto.Checksum.{
  ChecksumType, no_checksum, adler32, crc32, md5, sha1, Checksum, no_sum, adler32_sum, crc32_sum,
  md5_sum, sha1_sum,
}
use innoextract_wasm.Crypto.Hasher.{
  Hasher, no_hasher, adler32_hasher, crc32_hasher, md5_hasher, sha1_hasher, hasher, update,
  finalize,
}

-- A checksum by the definition of its kind.
abbrev pub checksum_of : ChecksumType → List ℕ → Checksum
checksum_of no_checksum bytes = no_sum
checksum_of adler32 bytes = adler32_sum (pack (reference (halves 1) bytes))
checksum_of crc32 bytes = crc32_sum (bit_xor (serial 0xffffffff bytes) 0xffffffff)
checksum_of md5 bytes = md5_sum (digest md5_transform bytes)
checksum_of sha1 bytes = sha1_sum (digest sha1_transform bytes)

-- The state of a hasher after these bytes.
data Hashed (bytes : List ℕ) : ChecksumType → Hasher → Type 0 where
  no_state : Hashed bytes no_checksum no_hasher
  adler32_state :
      (state : ℕ)
      → state ≡ pack (reference (halves Adler32.init) bytes)
      → Hashed bytes adler32 (adler32_hasher state)
  crc32_state : (crc : ℕ) → crc ≡ serial Crc32.init bytes → Hashed bytes crc32 (crc32_hasher crc)
  md5_state :
      (h : IteratedHash.IteratedHash)
      → Holds md5_transform bytes h
      → Hashed bytes md5 (md5_hasher h)
  sha1_state :
      (h : IteratedHash.IteratedHash)
      → Holds sha1_transform bytes h
      → Hashed bytes sha1 (sha1_hasher h)

hasher-Hashed :
    (kind : ChecksumType) (buffer : List ℕ)
    → length buffer ≡ 64
    → Hashed [] kind (hasher kind buffer)
unfolding hasher Adler32.init Crc32.init reference serial
hasher-Hashed no_checksum buffer p = no_state
hasher-Hashed adler32 buffer p = adler32_state Adler32.init refl
hasher-Hashed crc32 buffer p = crc32_state Crc32.init refl
hasher-Hashed md5 buffer p = md5_state _ (init-Holds md5_transform buffer p)
hasher-Hashed sha1 buffer p = sha1_state _ (init-Holds sha1_transform buffer p)

-- A piece of the data, with the address of its first byte.
abbrev pub Piece : Type 0
Piece = ℕ × List ℕ

module _ (m bits : ℕ) (wide : 2 ^ 32 ≤ m) where
  -- Bytes, at least a block fewer than `size_t` can count.
  abbrev pub IsPiece : Piece → Type 0
  IsPiece piece = IsBytes piece.1 × (length piece.1 + 64 ≤ 2 ^ bits)

  update-Hashed :
      (piece : Piece) {bytes : List ℕ} {kind : ChecksumType} {h : Hasher}
      → IsBytes bytes
      → IsPiece piece
      → Hashed bytes kind h
      → Hashed (bytes ++ piece.1) kind (update m bits piece.0 h piece.1)
  unfolding update
  update-Hashed piece b p no_state = no_state
  update-Hashed (address, xs) {bytes = bytes} b p (adler32_state state e) =
      adler32_state (Adler32.update m state xs) (
        ap (λ s. Adler32.update m s xs)
          (e ∙ sym (update-reference m Adler32.init bytes wide init-IsReduced b))
        ∙ update-update m Adler32.init bytes xs wide init-IsReduced b p.0
        ∙ update-reference m Adler32.init (bytes ++ xs) wide init-IsReduced
            (All-append IsByte bytes xs b p.0))
  update-Hashed (address, xs) {bytes = bytes} b p (crc32_state crc e) =
      crc32_state (Crc32.update address crc xs) (
        update-serial address crc xs p.0
        ∙ ap (λ c. serial c xs) e
        ∙ sym (serial-append Crc32.init bytes xs))
  update-Hashed (address, xs) {bytes = bytes} b p (md5_state h q) =
      md5_state (IteratedHash.update md5_transform bits h xs)
        (update-Holds md5_transform bits h bytes xs p.1 q)
  update-Hashed (address, xs) {bytes = bytes} b p (sha1_state h q) =
      sha1_state (IteratedHash.update sha1_transform bits h xs)
        (update-Holds sha1_transform bits h bytes xs p.1 q)

  finalize-Hashed :
      {bytes : List ℕ} {kind : ChecksumType} {h : Hasher}
      → Hashed bytes kind h
      → finalize h ≡ checksum_of kind bytes
  unfolding finalize Adler32.init Crc32.init Crc32.finalize
  finalize-Hashed no_state = refl
  finalize-Hashed (adler32_state state e) = ap adler32_sum e
  finalize-Hashed (crc32_state crc e) = ap (λ c. crc32_sum (bit_xor c 0xffffffff)) e
  finalize-Hashed {bytes = bytes} (md5_state h q) =
      ap md5_sum (finalize-digest md5_transform h bytes md5_transform-IsTransform q)
  finalize-Hashed {bytes = bytes} (sha1_state h q) =
      ap sha1_sum (finalize-digest sha1_transform h bytes sha1_transform-IsTransform q)

  -- `update` with one piece after the other
  abbrev pub fed : List Piece → Hasher → Hasher
  fed [] h = h
  fed (piece ∷ pieces) h = fed pieces (update m bits piece.0 h piece.1)

  abbrev pub joined : List Piece → List ℕ
  joined [] = []
  joined (piece ∷ pieces) = piece.1 ++ joined pieces

  fed-Hashed :
      (pieces : List Piece) {bytes : List ℕ} {kind : ChecksumType} (h : Hasher)
      → IsBytes bytes
      → All IsPiece pieces
      → Hashed bytes kind h
      → Hashed (bytes ++ joined pieces) kind (fed pieces h)
  fed-Hashed [] {bytes = bytes} {kind = kind} h b p q =
      subst (λ l. Hashed l kind h) (sym (append-nil bytes)) q
  fed-Hashed (piece ∷ pieces) {bytes = bytes} {kind = kind} h b p q =
      let h' = update m bits piece.0 h piece.1 in
      subst (λ l. Hashed l kind (fed pieces h')) (append_assoc bytes piece.1 (joined pieces))
        (fed-Hashed pieces h' (All-append IsByte bytes piece.1 b p.0.0) p.1
          (update-Hashed piece b p.0 q))

  -- For every kind, and however the bytes are cut into pieces, at whatever addresses these stand:
  -- the hasher yields the checksum by the definition of its kind. Pieces are at least a block
  -- shorter than `size_t` can count, `uint_fast32_t` has at least 32 bits, and the buffer is that of
  -- a block.
  pub finalize-checksum_of :
      (kind : ChecksumType) (buffer : List ℕ) (pieces : List Piece)
      → length buffer ≡ 64
      → All IsPiece pieces
      → finalize (fed pieces (hasher kind buffer)) ≡ checksum_of kind (joined pieces)
  finalize-checksum_of kind buffer pieces p q =
      finalize-Hashed (fed-Hashed pieces (hasher kind buffer) tt q (hasher-Hashed kind buffer p))
