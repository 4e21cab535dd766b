-- ===== src/Stream/Block/Stored.antt =====
-- Blocks as they are stored, and read again (src/stream/block.cpp).
use innoextract_wasm.Base.{
  take-prefix, drop-prefix, take-all, drop-all, lt_of_leb, ℕ, zero, suc, ◌+◌, ◌*◌, ◌/◌, ◌^◌, ◌≤◌,
  ◌<◌, List, [], ◌∷◌, ◌++◌, append-nil, Option, none, some, length, take, drop, length-append,
  length-take, length-drop, take-append-drop, nil, All-split, leb, leb→le, ==_iff, if◌then◌else◌,
  Bool-cases, inl, inr, ◌≡◌, refl, sym, ap, ap₂, ◌∙◌, subst, arith,
}
use innoextract_wasm.Base.Words.{IsByte, IsBytes, u8, store32}
use innoextract_wasm.Crypto.Crc32.Update.{crc32_of}
use innoextract_wasm.Crypto.Crc32.Width.{crc32_of-lt}
use innoextract_wasm.Stream.Block.{chunk, chunk_error, block_crc32_mismatch, read_chunk, read}
use innoextract_wasm.Stream.Block.Chunks.{HasWord, read_chunk-word}
use innoextract_wasm.Stream.Block.Header.{with_checksums, ceildiv}
use innoextract_wasm.Stream.Block.Supply.{
  at_end, outcome, concat, expected, Supplies, read-Supplies,
}

-- A source that is a list of bytes: all that are left where fewer are left, `EOF` where none is.
abbrev pub list_fetch : ℕ → List ℕ → Option (List ℕ) × List ℕ
list_fetch n [] = (none, [])
list_fetch n (b ∷ bytes) = (some (take n (b ∷ bytes)), drop n (b ∷ bytes))

-- Data in up to `n` pieces of 4096 bytes.
abbrev pub pieces : ℕ → List ℕ → List (List ℕ)
pieces zero content = []
pieces (suc n) [] = []
pieces (suc n) (b ∷ content) = take 4096 (b ∷ content) ∷ pieces n (drop 4096 (b ∷ content))

-- Every piece with its checksum in front; the chunks are in a buffer at this address.
abbrev pub store_chunks : ℕ → List (List ℕ) → List ℕ
store_chunks address [] = []
store_chunks address (p ∷ ps) = store32 (crc32_of address p) ++ (p ++ store_chunks address ps)

-- The number of chunks that data takes.
abbrev pub chunk_count : List ℕ → ℕ
chunk_count content = (length content + 4095) / 4096

abbrev pub store_block : ℕ → List ℕ → List ℕ
store_block address content = store_chunks address (pieces (chunk_count content) content)

concat-pieces :
    (n : ℕ) (content : List ℕ) → length content ≤ n * 4096 → concat (pieces n content) ≡ content
concat-pieces zero content h = sym (nil content (omega arith))
concat-pieces (suc n) [] h = refl
concat-pieces (suc n) (b ∷ content) h =
    ap (λ l. take 4096 (b ∷ content) ++ l)
      (concat-pieces n (drop 4096 (b ∷ content)) (omega (arith, length-drop 4096 (b ∷ content))))
    ∙ take-append-drop 4096 (b ∷ content)

fetch_whole :
    (b : ℕ) (bytes rest : List ℕ)
    → length (b ∷ bytes) ≡ 4096
    → list_fetch 4096 ((b ∷ bytes) ++ rest) ≡ (some (b ∷ bytes), rest)
fetch_whole b bytes rest h =
    ap₂ (λ l r. (some l, r)) (take-prefix 4096 (b ∷ bytes) rest (sym h))
      (drop-prefix 4096 (b ∷ bytes) rest (sym h))

fetch_last :
    (b : ℕ) (bytes : List ℕ)
    → length (b ∷ bytes) ≤ 4096
    → list_fetch 4096 ((b ∷ bytes) ++ []) ≡ (some (b ∷ bytes), [])
fetch_last b bytes h =
    ap (list_fetch 4096) (append-nil (b ∷ bytes))
    ∙ ap₂ (λ l r. (some l, r)) (take-all 4096 (b ∷ bytes) h) (drop-all 4096 (b ∷ bytes) h)

pieces-nil : (n : ℕ) → pieces n [] ≡ []
pieces-nil zero = refl
pieces-nil (suc n) = refl

module _ (address : ℕ) where
  -- What stands behind the first piece.
  abbrev behind : ℕ → List ℕ → List ℕ
  behind n content = store_chunks address (pieces n (drop 4096 content))

  nothing_behind : (n : ℕ) (content : List ℕ) → length content ≤ 4096 → behind n content ≡ []
  nothing_behind n content h =
      ap (λ l. store_chunks address (pieces n l)) (drop-all 4096 content h)
      ∙ ap (store_chunks address) (pieces-nil n)

  fetch_piece :
      (n b : ℕ) (content : List ℕ)
      → list_fetch 4096 (take 4096 (b ∷ content) ++ behind n (b ∷ content))
        ≡ (some (take 4096 (b ∷ content)), behind n (b ∷ content))
  fetch_piece n b content = elim (Bool-cases (leb (length (b ∷ content)) 4096)) [
    | inl last ↦
        (let short = leb→le (length (b ∷ content)) 4096 last in
          let none_left = nothing_behind n (b ∷ content) short in
          ap (λ l. list_fetch 4096 (take 4096 (b ∷ content) ++ l)) none_left
          ∙ fetch_last b (take 4095 content) (omega (arith, length-take 4096 (b ∷ content)))
          ∙ ap (λ l. (some (take 4096 (b ∷ content)), l)) (sym none_left))
    | inr more ↦
        fetch_whole b (take 4095 content) (behind n (b ∷ content)) (
          omega (arith, length-take 4096 (b ∷ content), lt_of_leb (length (b ∷ content)) 4096 more))
  ]

  stored-HasWord :
      (n b : ℕ) (content : List ℕ)
      → IsBytes (take 4096 (b ∷ content))
      → let p = take 4096 (b ∷ content) in
        HasWord list_fetch address
          (crc32_of address p)
          (store_chunks address (pieces (suc n) (b ∷ content)))
          p
          (behind n (b ∷ content))
  stored-HasWord n b content h =
      let p = take 4096 (b ∷ content) in
      let word = crc32_of address p in
      let small = crc32_of-lt address p h in
      (
        u8 word,
        u8 (word / 2 ^ 8),
        u8 (word / 2 ^ 16),
        u8 (word / 2 ^ 24),
        p ++ behind n (b ∷ content),
        refl,
        omega arith,
        fetch_piece n b content,
      )

  stored-chunk :
      (n b : ℕ) (content : List ℕ)
      → IsBytes (take 4096 (b ∷ content))
      → read_chunk list_fetch address (store_chunks address (pieces (suc n) (b ∷ content)))
        ≡ chunk (take 4096 (b ∷ content)) (behind n (b ∷ content))
  stored-chunk n b content h =
      let p = take 4096 (b ∷ content) in
      let word = crc32_of address p in
      read_chunk-word list_fetch address word (store_chunks address (pieces (suc n) (b ∷ content)))
        (behind n (b ∷ content)) p (stored-HasWord n b content h)
      ∙ ap (λ c. if c then chunk p (behind n (b ∷ content)) else chunk_error block_crc32_mismatch)
          ((==_iff word word).1 refl)

  stored-Supplies :
      (n : ℕ) (content : List ℕ)
      → IsBytes content
      → Supplies list_fetch address
          (store_chunks address (pieces n content))
          (pieces n content)
          at_end
  unfolding Supplies read_chunk
  stored-Supplies zero content h = ([], refl)
  stored-Supplies (suc n) [] h = ([], refl)
  stored-Supplies (suc n) (b ∷ content) h =
      let split =
        All-split IsByte (take 4096 (b ∷ content)) (drop 4096 (b ∷ content))
          (subst IsBytes (sym (take-append-drop 4096 (b ∷ content))) h) in
      (
        behind n (b ∷ content),
        omega arith,
        stored-chunk n b content split.0,
        stored-Supplies n (drop 4096 (b ∷ content)) split.1,
      )

  -- Data that is stored as a block is read back: of `n` bytes that are asked for, as many as there are,
  -- and `EOF` where there are none.
  pub read-store_block :
      (n : ℕ) (content : List ℕ)
      → IsBytes content
      → outcome (
          read list_fetch address n (record { pos = 0; buffer = [] }) (store_block address content))
        ≡ expected 0 n content at_end
  read-store_block n content h =
      read-Supplies list_fetch address n (record { pos = 0; buffer = [] })
        (store_block address content) (pieces (chunk_count content) content) at_end (omega arith)
        (stored-Supplies (chunk_count content) content h)
      ∙ ap (λ l. expected 0 n l at_end) (concat-pieces (chunk_count content) content (omega arith))

  length-store_chunks :
      (n : ℕ) (content : List ℕ)
      → length content ≤ n * 4096
      → length (store_chunks address (pieces n content))
        ≡ length content + (length content + 4095) / 4096 * 4
  length-store_chunks zero content h = omega arith
  length-store_chunks (suc n) [] h = refl
  length-store_chunks (suc n) (b ∷ content) h =
      let p = take 4096 (b ∷ content) in
      let r = drop 4096 (b ∷ content) in
      let len = length-drop 4096 (b ∷ content) in
      omega (
        arith,
        length-append p (behind n (b ∷ content)),
        length-take 4096 (b ∷ content),
        len,
        length-store_chunks n r (omega (arith, len)),
      )

  -- The size that headers before 4.0.9 leave to be added up, of content without the checksums, is that
  -- of the stored block, where it has 32 bits.
  pub length-store_block :
      (content : List ℕ)
      → length (store_block address content) < 2 ^ 32
      → with_checksums (length content) ≡ length (store_block address content)
  unfolding with_checksums ceildiv
  length-store_block content h =
      omega (arith, length-store_chunks (chunk_count content) content (omega arith))
