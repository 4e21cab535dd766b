-- ===== src/Stream/Block/Chunks.antt =====
-- When `read_chunk` hands out the data of a chunk (src/stream/block.cpp).
use innoextract_wasm.Base.{
  ℕ, Bool, true, false, List, [], ◌∷◌, Option, none, some, ◌==◌, ==_iff, if◌then◌else◌, ◌≡◌, refl,
  sym, ap, subst, ◌∙◌,
}
use innoextract_wasm.Base.Words.{load32}
use innoextract_wasm.Stream.Block.{
  Chunk, no_chunk, chunk_error, chunk, block_crc32_mismatch, actual_crc32, check_chunk, chunk_body,
  read_chunk,
}

module _ {S : Type 0} (fetch : ℕ → S → Option (List ℕ) × S) (address : ℕ) where
  -- The source has a word, and behind it this data, and then is the other source.
  abbrev pub HasWord : ℕ → S → List ℕ → S → Type 0
  HasWord word src data_bytes left =
      (x : ℕ) × (y : ℕ) × (z : ℕ) × (w : ℕ) × (next : S) × (fetch 4 src
        ≡ (some (x ∷ y ∷ z ∷ w ∷ []), next))
      × (load32 x y z w ≡ word)
      × (fetch 4096 next ≡ (some data_bytes, left))

  -- What is handed out depends on the checksum alone: a chunk whose word is the checksum of its data
  -- is handed out, and of one whose word is another nothing but the error is.
  pub read_chunk-word :
      (word : ℕ) (src left : S) (data_bytes : List ℕ)
      → HasWord word src data_bytes left
      → read_chunk fetch address src ≡ (
          if actual_crc32 fetch address data_bytes == word
          then chunk data_bytes left
          else chunk_error block_crc32_mismatch)
  unfolding read_chunk
  read_chunk-word word src left data_bytes (x, y, z, w, next, p, q, r) =
      ap (λ a. chunk_body fetch address a.0 a.1) p
      ∙ ap (λ a. check_chunk fetch address (load32 x y z w) a.0 a.1) r
      ∙ ap (λ k. check_chunk fetch address k (some data_bytes) left) q

  Checked : Chunk S → (Option (List ℕ)) → S → Type 0
  Checked (no_chunk s) head src = Unit
  Checked (chunk_error e) head src = Unit
  Checked (chunk c s) head src =
      (x : ℕ) × (y : ℕ) × (z : ℕ) × (w : ℕ) × (head ≡ some (x ∷ y ∷ z ∷ w ∷ []))
      × (fetch 4096 src ≡ (some c, s))
      × (actual_crc32 fetch address c ≡ load32 x y z w)

  Checked-if :
      (ok : Bool) (x y z w : ℕ) (src s : S) (c : List ℕ)
      → fetch 4096 src ≡ (some c, s)
      → (ok ≡ true → actual_crc32 fetch address c ≡ load32 x y z w)
      → Checked
          (if ok then chunk c s else chunk_error block_crc32_mismatch)
          (some (x ∷ y ∷ z ∷ w ∷ []))
          src
  unfolding Checked
  Checked-if true x y z w src s c p q = (x, y, z, w, refl, p, q refl)
  Checked-if false x y z w src s c p q = tt

  check_chunk-Checked :
      (x y z w : ℕ) (src : S) (d : Option (List ℕ)) (s : S)
      → fetch 4096 src ≡ (d, s)
      → Checked (check_chunk fetch address (load32 x y z w) d s) (some (x ∷ y ∷ z ∷ w ∷ [])) src
  unfolding Checked
  check_chunk-Checked x y z w src none s p = tt
  check_chunk-Checked x y z w src (some c) s p =
      Checked-if (actual_crc32 fetch address c == load32 x y z w) x y z w src s c p
        ((==_iff (actual_crc32 fetch address c) (load32 x y z w)).0)

  chunk_body-Checked :
      (head : Option (List ℕ)) (src : S) → Checked (chunk_body fetch address head src) head src
  unfolding Checked
  chunk_body-Checked none src = tt
  chunk_body-Checked (some []) src = tt
  chunk_body-Checked (some (x ∷ [])) src = tt
  chunk_body-Checked (some (x ∷ y ∷ [])) src = tt
  chunk_body-Checked (some (x ∷ y ∷ z ∷ [])) src = tt
  chunk_body-Checked (some (x ∷ y ∷ z ∷ w ∷ [])) src =
      check_chunk-Checked x y z w src (fetch 4096 src).0 (fetch 4096 src).1 refl
  chunk_body-Checked (some (x ∷ y ∷ z ∷ w ∷ v ∷ bytes)) src = tt

  -- Data is handed out only if the source had, before it, the word that is its checksum.
  pub read_chunk-HasWord :
      (src left : S) (data_bytes : List ℕ)
      → read_chunk fetch address src ≡ chunk data_bytes left
      → HasWord (actual_crc32 fetch address data_bytes) src data_bytes left
  unfolding read_chunk Checked
  read_chunk-HasWord src left data_bytes h =
      let (x, y, z, w, p, q, r) : Checked (chunk data_bytes left) (fetch 4 src).0 (fetch 4 src).1 =
        subst (λ c. Checked c (fetch 4 src).0 (fetch 4 src).1) h
          (chunk_body-Checked (fetch 4 src).0 (fetch 4 src).1) in
      (x, y, z, w, (fetch 4 src).1, ap (λ o. (o, (fetch 4 src).1)) p, sym r, q)
