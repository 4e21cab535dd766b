-- ===== src/Crypto/IteratedHash/Finalize.antt =====
-- The result of src/crypto/iteratedhash.hpp, against the definition of MD5 and SHA-1:
-- the compression function over the blocks of the padded message.
use innoextract_wasm.Base.{
  ℕ, zero, suc, ◌+◌, ◌-◌, ◌*◌, ◌/◌, ◌%◌, ◌^◌, ◌≤◌, ◌<◌, List, [], ◌∷◌, ◌++◌, append_assoc,
  append-nil, length, take, drop, All, length-append, length-take, take-append, ◌≡◌, refl, sym, ap,
  ap₂, subst, ◌∙◌, arith,
}
use innoextract_wasm.Base.Words.{u32}
use innoextract_wasm.Crypto.IteratedHash.{
  Transform, IteratedHash, hash_block, hash, write_at, init, store_words, bit_count_lo,
  bit_count_hi, pad, update, finalize,
}
use innoextract_wasm.Crypto.IteratedHash.Blocks.{
  Absorbed, length-Absorbed, concat, IsBlock, fold_blocks, write_at-write_at, write_at-end,
  drop-prefix,
}
use innoextract_wasm.Crypto.IteratedHash.Pieces.{Counts, filled-Absorbed}
use innoextract_wasm.Crypto.IteratedHash.Update.{Holds, init-Holds, update-Holds}
use innoextract_wasm.Crypto.IteratedHash.Pad.{length-zeros, pad_zeros, pad-Buffered, pad-Counts}

-- What the template argument has to satisfy.
pub record IsTransform (t : Transform) : Type 0 where
  pub offset_small : t.offset < 2
  pub word_size : (n : ℕ) → length (t.store_word n) ≡ 4

take-take-append :
    (m n : ℕ) (l more : List ℕ) → m ≤ n → n ≤ length l → take m (take n l ++ more) ≡ take m l
take-take-append zero n l more p q = refl
take-take-append (suc m) zero l more p q = absurd (omega arith)
take-take-append (suc m) (suc n) [] more p q = absurd (omega arith)
take-take-append (suc m) (suc n) (x ∷ l) more p q =
    ap (λ r. x ∷ r) (take-take-append m n l more (omega arith) (omega arith))

-- Bytes at the end of the buffer, and then others before them.
write_at_before :
    (buffer xs ys : List ℕ) (place : ℕ)
    → place + length xs + length ys ≡ length buffer
    → write_at (write_at buffer (place + length xs) ys) place xs ≡ write_at buffer place (xs ++ ys)
unfolding write_at
write_at_before buffer xs ys place h =
    let n = place + length xs in
    ap (λ low. write_at low place xs) (write_at-end buffer n ys h)
    ∙ ap₂ (λ l r. l ++ (xs ++ r)) (take-take-append place n buffer ys (omega arith) (omega arith))
        (drop-prefix n (take n buffer) ys (omega (arith, length-take n buffer)))
    ∙ sym (write_at-end buffer place (xs ++ ys) (omega (arith, length-append xs ys)))

module _ (t : Transform) where
  -- The number of bits of a message of `n` bytes, in two words of the byte order.
  abbrev pub length_field : ℕ → List ℕ
  length_field n =
      let low = t.store_word (u32 (8 * n)) in
      let high = t.store_word (u32 (8 * n / 2 ^ 32)) in
      elim t.offset [ zero ↦ low ++ high | suc k ↦ high ++ low ]

  abbrev pub padding : ℕ → List ℕ
  padding n = pad_zeros n ++ length_field n

  -- The compression function over the first blocks of a message.
  abbrev pub compressed : ℕ → List ℕ → List ℕ → List ℕ
  compressed zero s message = s
  compressed (suc n) s message = compressed n (hash_block t s (take 64 message)) (drop 64 message)

  -- The hash by its definition.
  abbrev pub digest : List ℕ → List ℕ
  digest message =
      let padded = message ++ padding (length message) in
      store_words t.store_word (compressed (length padded / 64) t.init padded)

  compressed-concat :
      (blocks : List (List ℕ)) (s : List ℕ) (n : ℕ)
      → All IsBlock blocks
      → n * 64 ≡ length (concat blocks)
      → compressed n s (concat blocks) ≡ fold_blocks t s blocks
  compressed-concat [] s zero h e = refl
  compressed-concat [] s (suc n) h e = absurd (omega arith)
  compressed-concat (b ∷ bs) s zero h e = absurd (omega (arith, h.0, length-append b (concat bs)))
  compressed-concat (b ∷ bs) s (suc n) h e =
      ap₂ (λ first rest. compressed n (hash_block t s first) rest)
        (ap (λ k. take k (b ++ concat bs)) (sym h.0) ∙ take-append b (concat bs))
        (drop-prefix 64 b (concat bs) (sym h.0))
      ∙ compressed-concat bs (hash_block t s b) n h.1
          (omega (arith, h.0, length-append b (concat bs)))

  Absorbed-compressed :
      {message s' : List ℕ}
      → Absorbed t t.init message s' []
      → s' ≡ compressed (length message / 64) t.init message
  Absorbed-compressed {message} {s'} p =
      let whole : message ≡ concat p.blocks = p.whole ∙ append-nil (concat p.blocks) in
      let (k, e) = length-Absorbed t p in
      p.folded
      ∙ sym (
          compressed-concat p.blocks t.init (length message / 64) p.sized
            (omega (arith, e, ap length whole)))
      ∙ ap (compressed (length message / 64) t.init) (sym whole)

  bit_count-lo : (h : IteratedHash) (n : ℕ) → Counts h n → bit_count_lo h ≡ u32 (8 * n)
  unfolding bit_count_lo
  bit_count-lo h n c = omega (arith, c.lo)

  bit_count-hi : (h : IteratedHash) (n : ℕ) → Counts h n → bit_count_hi h ≡ u32 (8 * n / 2 ^ 32)
  unfolding bit_count_hi
  bit_count-hi h n c = omega (arith, c.lo, c.hi)

  -- The last two writes of `finalize` as one.
  lengths :
      (buffer low high : List ℕ)
      → IsTransform t
      → length buffer ≡ 64
      → length low ≡ 4
      → length high ≡ 4
      → write_at (write_at buffer (56 + t.offset * 4) low) (60 - t.offset * 4) high
        ≡ write_at buffer 56 (elim t.offset [ zero ↦ low ++ high | suc k ↦ high ++ low ])
  lengths buffer low high law p q r = written t.offset law.offset_small
    where
      written :
          (offset : ℕ)
          → offset < 2
          → write_at (write_at buffer (56 + offset * 4) low) (60 - offset * 4) high
            ≡ write_at buffer 56 (elim offset [ zero ↦ low ++ high | suc k ↦ high ++ low ])
      written zero h =
          ap (λ k. write_at (write_at buffer 56 low) k high) {x = 60} {y = 56 + length low}
            (omega (arith, q))
          ∙ write_at-write_at buffer 56 low high (omega (arith, p))
      written (suc zero) h =
          ap (λ k. write_at (write_at buffer k low) 56 high) {x = 60} {y = 56 + length high}
            (omega (arith, r))
          ∙ write_at_before buffer high low 56 (omega (arith, p, q, r))
      written (suc (suc k)) h = absurd (omega arith)

  length-length_field : (n : ℕ) → IsTransform t → length (length_field n) ≡ 8
  length-length_field n law = size t.offset
    where
      low : List ℕ
      low = t.store_word (u32 (8 * n))

      high : List ℕ
      high = t.store_word (u32 (8 * n / 2 ^ 32))

      size : (offset : ℕ) → length (elim offset [ zero ↦ low ++ high | suc k ↦ high ++ low ]) ≡ 8
      size zero = omega (
        arith,
        length-append low high,
        law.word_size (u32 (8 * n)),
        law.word_size (u32 (8 * n / 2 ^ 32)),
      )
      size (suc k) = omega (
        arith,
        length-append high low,
        law.word_size (u32 (8 * n)),
        law.word_size (u32 (8 * n / 2 ^ 32)),
      )

  -- The state after these bytes is finalized to their hash.
  pub finalize-digest :
      (h : IteratedHash) (bytes : List ℕ)
      → IsTransform t
      → Holds t bytes h
      → finalize t h ≡ digest bytes
  unfolding finalize
  finalize-digest h bytes law p =
      let n = length bytes in
      let q = pad t h 56 in
      let b = pad-Buffered t h bytes p in
      let c = pad-Counts t h bytes p in
      let (k, e) = length-Absorbed t b.absorbed in
      let (j, f) = length-Absorbed t p.buffered.absorbed in
      let at_end : length b.tail ≡ 56 = omega (
        arith,
        e,
        b.short,
        length-append bytes (pad_zeros n),
        length-zeros ((119 - n % 64) % 64),
      ) in
      let (len, absorbed) =
        filled-Absorbed t q b (length_field n) (omega (arith, at_end, length-length_field n law)) in
      let both : write_at (write_at q.buffer (56 + t.offset * 4) (t.store_word (bit_count_lo q)))
            (60 - t.offset * 4) (t.store_word (bit_count_hi q))
          ≡ write_at q.buffer (length b.tail) (length_field n) =
        ap₂
          (λ l r.
            write_at (write_at q.buffer (56 + t.offset * 4) (t.store_word l)) (60 - t.offset * 4)
              (t.store_word r))
          (bit_count-lo q n c) (bit_count-hi q n c)
        ∙ lengths q.buffer (t.store_word (u32 (8 * n))) (t.store_word (u32 (8 * n / 2 ^ 32))) law
            b.size (law.word_size (u32 (8 * n))) (law.word_size (u32 (8 * n / 2 ^ 32)))
        ∙ ap (λ m. write_at q.buffer m (length_field n)) (sym at_end) in
      ap (λ l. store_words t.store_word (hash t q.state l).0) both
      ∙ ap (store_words t.store_word) (
          Absorbed-compressed (
            subst
              (λ l.
                Absorbed t t.init l
                  (hash t q.state (write_at q.buffer (length b.tail) (length_field n))).0 [])
              (append_assoc bytes (pad_zeros n) (length_field n)) absorbed))

  -- `update` with one piece of the data after the other
  abbrev pub fed : ℕ → List (List ℕ) → IteratedHash → IteratedHash
  fed bits [] h = h
  fed bits (piece ∷ pieces) h = fed bits pieces (update t bits h piece)

  abbrev pub Fits : ℕ → List ℕ → Type 0
  Fits bits piece = length piece + 64 ≤ 2 ^ bits

  fed-Holds :
      (bits : ℕ) (pieces : List (List ℕ)) (bytes : List ℕ) (h : IteratedHash)
      → All (Fits bits) pieces
      → Holds t bytes h
      → Holds t (bytes ++ concat pieces) (fed bits pieces h)
  fed-Holds bits [] bytes h f p = subst (λ l. Holds t l h) (sym (append-nil bytes)) p
  fed-Holds bits (piece ∷ pieces) bytes h f p =
      subst (λ l. Holds t l (fed bits pieces (update t bits h piece)))
        (append_assoc bytes piece (concat pieces))
        (fed-Holds bits pieces (bytes ++ piece) (update t bits h piece) f.1
          (update-Holds t bits h bytes piece f.0 p))

  -- However the message is cut into pieces, `finalize` gives the compression function over all
  -- blocks of the message with its padding. Each piece is at least a block shorter than `size_t` can
  -- count, the buffer is that of a block, and stored words have four bytes.
  pub finalize-fed :
      (bits : ℕ) (buffer : List ℕ) (pieces : List (List ℕ))
      → IsTransform t
      → length buffer ≡ 64
      → All (Fits bits) pieces
      → finalize t (fed bits pieces (init t buffer)) ≡ digest (concat pieces)
  finalize-fed bits buffer pieces law p f =
      finalize-digest (fed bits pieces (init t buffer)) (concat pieces) law
        (fed-Holds bits pieces [] (init t buffer) f (init-Holds t buffer p))
