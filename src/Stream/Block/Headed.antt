-- ===== src/Stream/Block/Headed.antt =====
-- Headers of blocks as they are stored, and read again (src/stream/block.cpp).
use innoextract_wasm.Base.{
  ℕ, ◌/◌, ◌^◌, ◌<◌, Bool, true, false, List, [], ◌∷◌, ◌++◌, append_assoc, ◌==◌, ==_iff,
  if◌then◌else◌, ◌≡◌, sym, ap, ap₂, ◌∙◌, arith,
}
use innoextract_wasm.Base.Words.{IsBytes, u8, load32, store32}
use innoextract_wasm.Crypto.Crc32
use innoextract_wasm.Crypto.Crc32.Update.{crc32_of, update-append}
use innoextract_wasm.Crypto.Crc32.Width.{crc32_of-lt}
use innoextract_wasm.Setup.Version.{Version, at_least}
use innoextract_wasm.Stream.Block.Header.{
  HeaderReading, header, new_compression, old_size, old_compression, header_crc32, checked,
  new_header, old_header, block_header,
}

load32-store32 :
    (n : ℕ) → n < 2 ^ 32 → load32 (u8 n) (u8 (n / 2 ^ 8)) (u8 (n / 2 ^ 16)) (u8 (n / 2 ^ 24)) ≡ n
load32-store32 n h = omega arith

-- The fields of a header: a size and a byte, or two sizes.
abbrev pub header_fields : Version → ℕ → ℕ → List ℕ
header_fields v first second =
    if at_least v 4 0 9 then store32 first ++ second ∷ [] else store32 first ++ store32 second

-- A header with its checksum in front.
abbrev pub store_header : Version → ℕ → ℕ → List ℕ
store_header v first second =
    store32 (crc32_of 0 (header_fields v first second)) ++ header_fields v first second

-- The size and the compression that the fields of a header stand for.
abbrev pub header_meaning : Version → ℕ → ℕ → List ℕ → HeaderReading
header_meaning v first second rest =
    if at_least v 4 0 9
    then header first (new_compression v second) rest
    else header (old_size first second) (old_compression first) rest

module _ (here there : ℕ) where
  -- The checksum of the two fields is that of all the bytes.
  header_crc32-whole :
      (xs ys : List ℕ)
      → IsBytes xs
      → IsBytes ys
      → header_crc32 here there xs ys ≡ crc32_of 0 (xs ++ ys)
  header_crc32-whole xs ys p q = ap Crc32.finalize (update-append 0 here there Crc32.init xs ys p q)

  accepted :
      (xs ys : List ℕ) (word : ℕ) (reading : HeaderReading)
      → IsBytes xs
      → IsBytes ys
      → word ≡ crc32_of 0 (xs ++ ys)
      → checked here there (header_crc32 here there xs ys == word) reading ≡ reading
  accepted xs ys word reading p q e =
      ap (λ b. checked here there b reading)
        ((==_iff (header_crc32 here there xs ys) word).1 (header_crc32-whole xs ys p q ∙ sym e))

  new_header-store :
      (v : Version) (size compressed : ℕ) (rest : List ℕ)
      → size < 2 ^ 32
      → compressed < 256
      → let fields = store32 size ++ compressed ∷ [] in
        new_header here there v (store32 (crc32_of 0 fields) ++ (fields ++ rest))
        ≡ header size (new_compression v compressed) rest
  unfolding new_header
  new_header-store v size compressed rest h b =
      let fields = store32 size ++ compressed ∷ [] in
      let word = crc32_of 0 fields in
      let bytes : IsBytes (store32 size) = (omega arith) in
      let one : IsBytes (compressed ∷ []) = (b, tt) in
      let small : word < 2 ^ 32 = crc32_of-lt 0 fields (omega arith) in
      accepted (store32 size) (compressed ∷ [])
        (load32 (u8 word) (u8 (word / 2 ^ 8)) (u8 (word / 2 ^ 16)) (u8 (word / 2 ^ 24))) _ bytes one
        (load32-store32 word small)
      ∙ ap (λ n. header n (new_compression v compressed) rest) (load32-store32 size h)

  old_header-store :
      (first second : ℕ) (rest : List ℕ)
      → first < 2 ^ 32
      → second < 2 ^ 32
      → let fields = store32 first ++ store32 second in
        old_header here there (store32 (crc32_of 0 fields) ++ (fields ++ rest))
        ≡ header (old_size first second) (old_compression first) rest
  unfolding old_header
  old_header-store first second rest h k =
      let fields = store32 first ++ store32 second in
      let word = crc32_of 0 fields in
      let small : word < 2 ^ 32 = crc32_of-lt 0 fields (omega arith) in
      accepted (store32 first) (store32 second)
        (load32 (u8 word) (u8 (word / 2 ^ 8)) (u8 (word / 2 ^ 16)) (u8 (word / 2 ^ 24))) _
        (omega arith) (omega arith) (load32-store32 word small)
      ∙ ap₂ (λ m n. header (old_size m n) (old_compression m) rest) (load32-store32 first h)
          (load32-store32 second k)

  -- The second field is a byte from version 4.0.9 on, and a number of 32 bits before.
  abbrev pub FitsHeader : Bool → ℕ → ℕ → Type 0
  FitsHeader true first second = (first < 2 ^ 32) × (second < 256)
  FitsHeader false first second = (first < 2 ^ 32) × (second < 2 ^ 32)

  by_version :
      (new : Bool) (v : Version) (first second : ℕ) (rest : List ℕ)
      → FitsHeader new first second
      → let fields =
          if new then store32 first ++ second ∷ [] else store32 first ++ store32 second in
        (if new
          then new_header here there v (store32 (crc32_of 0 fields) ++ (fields ++ rest))
          else old_header here there (store32 (crc32_of 0 fields) ++ (fields ++ rest)))
        ≡ (if new
            then header first (new_compression v second) rest
            else header (old_size first second) (old_compression first) rest)
  by_version true v first second rest h = new_header-store v first second rest h.0 h.1
  by_version false v first second rest h = old_header-store first second rest h.0 h.1

  -- A header with the checksum of its fields in front is read, wherever the buffers stand: a size and a
  -- compression from version 4.0.9 on; and before, of two sizes, the compressed one, or the other where
  -- this is -1, with the room for the checksums. What follows is left. The fields fit their widths.
  pub block_header-store :
      (v : Version) (first second : ℕ) (rest : List ℕ)
      → FitsHeader (at_least v 4 0 9) first second
      → block_header here there v (store_header v first second ++ rest)
        ≡ header_meaning v first second rest
  unfolding block_header
  block_header-store v first second rest h =
      ap (block_header here there v) (
        append_assoc (store32 (crc32_of 0 (header_fields v first second)))
          (header_fields v first second) rest)
      ∙ by_version (at_least v 4 0 9) v first second rest h
