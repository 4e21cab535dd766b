-- ===== src/Stream/Block/Tests.antt =====
-- The theorems on blocks at concrete inputs.
use innoextract_wasm.Base.{
  ℕ, ◌++◌, List, [], ◌∷◌, drop, ◌≡◌, refl, ap, ◌∙◌, arith, ◌==◌, if◌then◌else◌, true,
}
use innoextract_wasm.Stream.Block.{
  BlockFilter, chunk, chunk_error, block_crc32_mismatch, actual_crc32, read_chunk, read,
}
use innoextract_wasm.Stream.Block.Header.{block_header}
use innoextract_wasm.Stream.Block.Headed.{store_header, header_meaning, block_header-store}
use innoextract_wasm.Stream.Block.Stored.{list_fetch, store_block, read-store_block}
use innoextract_wasm.Stream.Block.Supply.{
  at_end, outcome, concat, expected, Supplies, read-Supplies,
}
use innoextract_wasm.Stream.Block.Chunks.{HasWord, read_chunk-word, read_chunk-HasWord}
use innoextract_wasm.Setup.Version.{Version, plain, inno_version}
use innoextract_wasm.Crypto.Crc32.Tests.{one-crc32}

-- The byte 1 and its checksum.
abbrev one_chunk : List ℕ
one_chunk = 0x1b ∷ 0xdf ∷ 0x05 ∷ 0xa5 ∷ 1 ∷ []

abbrev empty_filter : BlockFilter
empty_filter = record { pos = 0; buffer = [] }

one_word : HasWord list_fetch 0 0xa505df1b one_chunk (1 ∷ []) []
one_word = (0x1b, 0xdf, 0x05, 0xa5, 1 ∷ [], refl, refl, refl)

one_chunk-read : read_chunk list_fetch 0 one_chunk ≡ chunk (1 ∷ []) []
one_chunk-read =
    read_chunk-word list_fetch 0 0xa505df1b one_chunk [] (1 ∷ []) one_word
    ∙ ap (λ k. if k == 0xa505df1b then chunk (1 ∷ []) [] else chunk_error block_crc32_mismatch)
        one-crc32

read-Supplies_example :
    outcome (read list_fetch 0 5 empty_filter one_chunk)
    ≡ expected 0 5 (drop empty_filter.pos empty_filter.buffer ++ concat ((1 ∷ []) ∷ [])) at_end
unfolding Supplies read_chunk
read-Supplies_example =
    read-Supplies list_fetch 0 5 empty_filter one_chunk ((1 ∷ []) ∷ []) at_end (omega arith)
      ([], omega arith, one_chunk-read, ([], refl))

read_chunk-HasWord_example :
    HasWord list_fetch 0 (actual_crc32 list_fetch 0 (1 ∷ [])) one_chunk (1 ∷ []) []
read_chunk-HasWord_example = read_chunk-HasWord list_fetch 0 one_chunk [] (1 ∷ []) one_chunk-read

abbrev version_5_2_3 : Version
version_5_2_3 = record { value = inno_version 5 2 3; variant = plain; known = true }

block_header-store_example :
    block_header 0 4096 version_5_2_3 (store_header version_5_2_3 300 1 ++ 9 ∷ [])
    ≡ header_meaning version_5_2_3 300 1 (9 ∷ [])
block_header-store_example =
    block_header-store 0 4096 version_5_2_3 300 1 (9 ∷ []) (omega arith, omega arith)

read-store_block_example :
    outcome (read list_fetch 0 5 empty_filter (store_block 0 (3 ∷ 1 ∷ 4 ∷ [])))
    ≡ expected 0 5 (3 ∷ 1 ∷ 4 ∷ []) at_end
read-store_block_example =
    read-store_block 0 5 (3 ∷ 1 ∷ 4 ∷ []) (omega arith, (omega arith, (omega arith, tt)))
