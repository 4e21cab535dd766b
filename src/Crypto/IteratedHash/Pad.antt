-- ===== src/Crypto/IteratedHash/Pad.antt =====
-- The padding of src/crypto/iteratedhash.hpp, up to the length of the message.
use innoextract_wasm.Base.{
  lt_of_leb, ℕ, zero, suc, ◌+◌, ◌-◌, ◌%◌, ◌≤◌, true, false, List, [], ◌∷◌, ◌++◌, append_assoc,
  length, leb, leb→le, ◌≡◌, refl, sym, ap, ap₂, subst, ◌∙◌, Bool-cases, inl, inr, arith,
}
use innoextract_wasm.Crypto.IteratedHash.{
  Transform, IteratedHash, block_size, mod_power_of_2, hash, write_at, zeros, pad,
}
use innoextract_wasm.Crypto.IteratedHash.Blocks.{
  Absorbed, Absorbed-trans, length-Absorbed, write_at-write_at, take-write_at, length-write_at,
  kept,
}
use innoextract_wasm.Crypto.IteratedHash.Pieces.{
  Counts, Buffered, extended-Buffered, filled-Absorbed,
}
use innoextract_wasm.Crypto.IteratedHash.Update.{Holds, place-tail}

pub length-zeros : (n : ℕ) → length (zeros n) ≡ n
length-zeros zero = refl
length-zeros (suc n) = ap suc (length-zeros n)

zeros-append : (m n : ℕ) → zeros m ++ zeros n ≡ zeros (m + n)
zeros-append zero n = ap zeros {x = n} {y = 0 + n} (omega arith)
zeros-append (suc m) n =
    ap (λ l. 0 ∷ l) (zeros-append m n) ∙ ap zeros {x = suc (m + n)} {y = suc m + n} (omega arith)

-- The padding of a message of `n` bytes, up to its length: a one bit, then zeros up to eight bytes
-- before the end of a block.
abbrev pub pad_zeros : ℕ → List ℕ
pad_zeros n = 0x80 ∷ zeros ((119 - n % 64) % 64)

module _ (t : Transform) where
  pad_same :
      (h : IteratedHash)
      → let place = mod_power_of_2 h.count_lo block_size in
        leb (place + 1) 56 ≡ true
        → pad t h 56 ≡ record h {
          buffer =
              write_at (write_at h.buffer place (0x80 ∷ [])) (place + 1) (zeros (56 - (place + 1)));
        }
  unfolding pad
  pad_same h p = rw (pad, p) refl

  pad_next :
      (h : IteratedHash)
      → let place = mod_power_of_2 h.count_lo block_size in
        let full =
          write_at (write_at h.buffer place (0x80 ∷ [])) (place + 1) (zeros (64 - (place + 1))) in
        leb (place + 1) 56 ≡ false
        → pad t h 56
          ≡ record h { buffer = write_at full 0 (zeros 56); state = (hash t h.state full).0 }
  unfolding pad
  pad_next h p = rw (pad, p) refl

  -- The two writes of `pad` as one.
  marked :
      (buffer : List ℕ) (place k : ℕ)
      → place ≤ length buffer
      → write_at (write_at buffer place (0x80 ∷ [])) (place + 1) (zeros k)
        ≡ write_at buffer place (0x80 ∷ zeros k)
  marked buffer place k p = write_at-write_at buffer place (0x80 ∷ []) (zeros k) p

  module _ (h : IteratedHash) (bytes : List ℕ) (p : Holds t bytes h) where
    same_block :
        leb (mod_power_of_2 h.count_lo block_size + 1) 56 ≡ true
        → (length p.buffered.tail + length (pad_zeros (length bytes)) ≡ 56)
          × (pad t h 56 ≡ record h {
            buffer = write_at h.buffer (length p.buffered.tail) (pad_zeros (length bytes));
          })
    same_block same =
        let place = mod_power_of_2 h.count_lo block_size in
        let at_tail = place-tail t h p in
        let small = leb→le (place + 1) 56 same in
        let (k, e) = length-Absorbed t p.buffered.absorbed in
        let gap : 56 - (place + 1) ≡ (119 - length bytes % 64) % 64 = omega (arith, at_tail, e) in
        (
          omega (arith, length-zeros ((119 - length bytes % 64) % 64), at_tail, e),
          pad_same h same
              ∙ ap (λ l. record h { buffer = l })
                  (marked h.buffer place (56 - (place + 1)) (omega (arith, p.buffered.size))
                    ∙ ap₂ (λ m k. write_at h.buffer m (0x80 ∷ zeros k)) at_tail gap),
        )

    abbrev full_buffer : List ℕ
    full_buffer =
        write_at h.buffer (length p.buffered.tail) (0x80 ∷ zeros (63 - length p.buffered.tail))

    next_block :
        leb (mod_power_of_2 h.count_lo block_size + 1) 56 ≡ false
        → pad t h 56 ≡ record h {
          buffer = write_at full_buffer 0 (zeros 56);
          state = (hash t h.state full_buffer).0;
        }
    next_block next =
        let place = mod_power_of_2 h.count_lo block_size in
        let at_tail = place-tail t h p in
        pad_next h next
        ∙ ap (λ l. record h { buffer = write_at l 0 (zeros 56); state = (hash t h.state l).0 })
            (marked h.buffer place (64 - (place + 1))
                (omega (arith, at_tail, p.buffered.size, p.buffered.short))
              ∙ ap₂ (λ m k. write_at h.buffer m (0x80 ∷ zeros k)) at_tail (omega (arith, at_tail)))

    next_message :
        leb (mod_power_of_2 h.count_lo block_size + 1) 56 ≡ false
        → (bytes ++ 0x80 ∷ zeros (63 - length p.buffered.tail)) ++ zeros 56
          ≡ bytes ++ pad_zeros (length bytes)
    next_message next =
        let place = mod_power_of_2 h.count_lo block_size in
        let n = length p.buffered.tail in
        let large = lt_of_leb (place + 1) 56 next in
        let (k, e) = length-Absorbed t p.buffered.absorbed in
        append_assoc bytes (0x80 ∷ zeros (63 - n)) (zeros 56)
        ∙ ap (λ l. bytes ++ 0x80 ∷ l)
            (zeros-append (63 - n) 56
              ∙ ap zeros {x = 63 - n + 56} {y = (119 - length bytes % 64) % 64}
                  (omega (arith, place-tail t h p, e, p.buffered.short)))

    -- The padding completes all but the last eight bytes of a block.
    pub pad-Buffered : Buffered t t.init (bytes ++ pad_zeros (length bytes)) (pad t h 56)
    pad-Buffered =
        let place = mod_power_of_2 h.count_lo block_size in
        elim (Bool-cases (leb (place + 1) 56)) [
          | inl same ↦
              (let (len, e) = same_block same in
                subst (Buffered t t.init (bytes ++ pad_zeros (length bytes))) (sym e) (
                  extended-Buffered t h p.buffered (pad_zeros (length bytes)) (omega (arith, len))))
          | inr next ↦
              (let n = length p.buffered.tail in
                let (len, block) =
                  filled-Absorbed t h p.buffered (0x80 ∷ zeros (63 - n))
                    (omega (arith, length-zeros (63 - n), p.buffered.short)) in
                let state' = (hash t h.state full_buffer).0 in
                subst (Buffered t t.init (bytes ++ pad_zeros (length bytes)))
                  (sym (next_block next))
                  (record {
                    tail = zeros 56;
                    absorbed =
                        subst (λ l. Absorbed t t.init l state' (zeros 56)) (next_message next)
                          (Absorbed-trans t (zeros 56) block (kept t state' (zeros 56)));
                    short = omega arith;
                    held = take-write_at full_buffer 0 (zeros 56) (omega arith);
                    size = length-write_at full_buffer 0 (zeros 56) (omega (arith, len)) ∙ len;
                  }))
        ]

    pub pad-Counts : Counts (pad t h 56) (length bytes)
    pad-Counts = elim (Bool-cases (leb (mod_power_of_2 h.count_lo block_size + 1) 56)) [
      | inl same ↦
          subst (λ k. Counts k (length bytes)) (sym ((same_block same).1))
            (record { lo = p.counts.lo; hi = p.counts.hi })
      | inr next ↦
          subst (λ k. Counts k (length bytes)) (sym (next_block next))
            (record { lo = p.counts.lo; hi = p.counts.hi })
    ]
