-- ===== src/Stream/Exe5200/Pending.antt =====
-- What the flushes of the decoder of src/stream/exefilter.hpp write of what is still to come.
use innoextract_wasm.Base.{
  take-take-drop, length-take_le, take-prefix, lt_of_leb, ℕ, zero, suc, ◌+◌, ◌-◌, ◌≤◌, ◌<◌, Bool,
  true, false, ◌||◌, List, [], ◌∷◌, ◌++◌, append_assoc, length, take, drop, length-append,
  length-take, length-drop, leb, leb→le, ◌==◌, ◌≡◌, refl, sym, ap, ◌∙◌, subst, Bool-cases, inl, inr,
  ◌⊎◌, arith,
}
use innoextract_wasm.Base.Words.{u32}
use innoextract_wasm.Stream.Block.Stored.{list_fetch}
use innoextract_wasm.Stream.Exe5200.{
  Phase, initial, address, flush, Decoder, transform, Returned, count_of, Outcome, some_or_eof,
  stopped, preceded, flushed, read_loop,
}
use innoextract_wasm.Stream.Exe5200.Whole.{decode_file}
use innoextract_wasm.Stream.Exe5200.State.{
  Delivered, list_get, pending_address, pending, IsDecoder, IsCount,
}

module _ (flip : Bool) where
  pub stopped-Delivered :
      (total room : ℕ) (r : Returned) (d : Decoder) (src : List ℕ)
      → IsCount total r
      → (0 ≡ room) ⊎ (length src ≡ 0)
      → IsDecoder d
      → Delivered flip total room (pending flip d.phase d src) (stopped r d src)
  stopped-Delivered total room r d src c e v = record {
    conserved = refl;
    fits = omega arith;
    counted = subst (λ n. IsCount n r) {x = total} {y = total + 0} (omega arith) c;
    complete = e;
    valid = v;
  }

  pub preceded-Delivered :
      (total room : ℕ) (bytes to_come : List ℕ) (o : Outcome (List ℕ))
      → length bytes ≤ room
      → Delivered flip (total + length bytes) (room - length bytes) to_come o
      → Delivered flip total room (bytes ++ to_come) (preceded bytes o)
  preceded-Delivered total room bytes to_come o h p =
      let len = length-append bytes o.written in
      record {
        conserved =
            append_assoc bytes o.written (pending flip o.decoder.phase o.decoder o.source)
            ∙ ap (λ l. bytes ++ l) p.conserved;
        fits = omega (arith, len, p.fits);
        counted = subst (λ n. IsCount n o.returned) (omega (arith, len)) p.counted;
        complete = elim p.complete [
          | inl full ↦ inl (omega (arith, len, full, h))
          | inr ended ↦ inr ended
        ];
        valid = p.valid;
      }

  module _ (total room count : ℕ) (d : Decoder) (src : List ℕ)
      (later : ℕ → ℕ → Decoder → List ℕ → Outcome (List ℕ)) where
    flushed_whole :
        leb count room ≡ true
        → flushed total room count d src later
          ≡ preceded
              (take count d.buffer)
              (later (total + count) (room - count) (record d { phase = initial }) src)
    unfolding flushed
    flushed_whole h = rw (flushed, h) refl

    flushed_part :
        leb count room ≡ false
        → flushed total room count d src later
          ≡ preceded (take room d.buffer) (
              stopped
                (count_of (total + room))
                (record d {
                  phase = flush (count - room);
                  buffer = take (count - room) (drop room d.buffer) ++ drop (count - room) d.buffer;
                })
                src)
    unfolding flushed
    flushed_part h = rw (flushed, h) refl

  part-Delivered :
      (total room count : ℕ) (d : Decoder) (src : List ℕ)
      → count ≤ 4
      → room < count
      → length d.buffer ≡ 4
      → Delivered flip total room (take count d.buffer ++ decode_file flip d.offset src) (
          preceded (take room d.buffer) (
            stopped
              (count_of (total + room))
              (record d {
                phase = flush (count - room);
                buffer = take (count - room) (drop room d.buffer) ++ drop (count - room) d.buffer;
              })
              src))
  unfolding pending
  part-Delivered total room count d src k r p =
      let first = take room d.buffer in
      let moved = take (count - room) (drop room d.buffer) in
      let buffer' = moved ++ drop (count - room) d.buffer in
      let d' : Decoder = record d { phase = flush (count - room); buffer = buffer' } in
      let moved_length : length moved ≡ count - room =
        length-take_le (count - room) (drop room d.buffer)
          (omega (arith, length-drop room d.buffer)) in
      let len : length first ≡ room = length-take_le room d.buffer (omega arith) in
      let whole : length buffer' ≡ 4 = omega (
        arith,
        length-append moved (drop (count - room) d.buffer),
        moved_length,
        length-drop (count - room) d.buffer,
      ) in
      let joined : first ++ take (count - room) buffer' ≡ take count d.buffer =
        ap (λ l. first ++ l)
          (take-prefix (count - room) moved (drop (count - room) d.buffer) (sym moved_length))
        ∙ take-take-drop room (count - room) d.buffer
        ∙ ap (λ n. take n d.buffer) {x = room + (count - room)} {y = count} (omega arith) in
      let stop = stopped (count_of (total + room)) d' src in
      subst (λ l. Delivered flip total room l (preceded first stop))
        (sym (append_assoc first (take (count - room) buffer') (decode_file flip d.offset src))
          ∙ ap (λ l. l ++ decode_file flip d.offset src) joined)
        (preceded-Delivered total room first
          (take (count - room) buffer' ++ decode_file flip d.offset src) stop (omega (arith, len))
          (stopped-Delivered (total + length first) (room - length first) (count_of (total + room))
            d' src (omega (arith, len)) (inl (omega (arith, len)))
            ((omega arith, omega arith), whole)))

  pub flushed-Delivered :
      (total room count : ℕ) (d : Decoder) (src : List ℕ)
      (later : ℕ → ℕ → Decoder → List ℕ → Outcome (List ℕ))
      → count ≤ 4
      → length d.buffer ≡ 4
      → (count ≤ room
          → Delivered flip
              (total + count)
              (room - count)
              (decode_file flip d.offset src)
              (later (total + count) (room - count) (record d { phase = initial }) src))
      → Delivered flip total room
          (take count d.buffer ++ decode_file flip d.offset src)
          (flushed total room count d src later)
  flushed-Delivered total room count d src later k p go =
      let len = length-take_le count d.buffer (omega arith) in
      let to_come = take count d.buffer ++ decode_file flip d.offset src in
      elim (Bool-cases (leb count room)) [
        | inl whole ↦
            (let enough = leb→le count room whole in
              let o = later (total + count) (room - count) (record d { phase = initial }) src in
              subst (Delivered flip total room to_come)
                (sym (flushed_whole total room count d src later whole))
                (preceded-Delivered total room (take count d.buffer) (decode_file flip d.offset src)
                  o (omega (arith, len))
                  (subst
                    (λ n. Delivered flip (total + n) (room - n) (decode_file flip d.offset src) o)
                    (sym len) (go enough))))
        | inr part ↦
            subst (Delivered flip total room to_come)
              (sym (flushed_part total room count d src later part))
              (part-Delivered total room count d src k (lt_of_leb count room part) p)
      ]

  pub some_or_eof-IsCount : (n : ℕ) → IsCount n (some_or_eof n)
  some_or_eof-IsCount zero = refl
  some_or_eof-IsCount (suc n) = refl

  -- The phases in which the loop is.
  abbrev pub Loops : Phase → Type 0
  Loops initial = Unit {0}
  Loops (address missing) = Unit {0}
  Loops (flush count) = ⊥

  unfoldable pub Loop : ℕ → Type 0
  Loop fuel =
      (total room : ℕ) (d : Decoder) (src : List ℕ)
      → room ≤ fuel
      → Loops d.phase
      → IsDecoder d
      → Delivered flip total room (pending flip d.phase d src)
          (read_loop list_get list_fetch flip fuel total room d src)

  pub pending_known :
      (missing : ℕ) (d : Decoder) (src : List ℕ)
      → leb missing (length src) ≡ true
      → pending_address flip missing d src
        ≡ transform flip
            (u32 (d.offset + missing))
            (take (4 - missing) d.buffer ++ take missing src)
          ++ decode_file flip (u32 (d.offset + missing)) (drop missing src)
  unfolding pending_address
  pending_known missing d src h = rw (pending_address, h) refl

  pub pending_part :
      (missing : ℕ) (d : Decoder) (src : List ℕ)
      → leb missing (length src) ≡ false
      → pending_address flip missing d src ≡ take (4 - missing) d.buffer ++ src
  unfolding pending_address
  pending_part missing d src h = rw (pending_address, h) refl

  pub length-transform : (offset : ℕ) (l : List ℕ) → length (transform flip offset l) ≡ length l
  unfolding transform
  length-transform offset [] = refl
  length-transform offset (x ∷ []) = refl
  length-transform offset (x ∷ y ∷ []) = refl
  length-transform offset (x ∷ y ∷ z ∷ []) = refl
  length-transform offset (x ∷ y ∷ z ∷ w ∷ []) = elim (Bool-cases (w == 0x00 || w == 0xff)) [
    | inl h ↦ rw (transform, h) refl
    | inr h ↦ rw (transform, h) refl
  ]
  length-transform offset (x ∷ y ∷ z ∷ w ∷ v ∷ l) = refl

  pub decode_file-nil : (offset : ℕ) → decode_file flip offset [] ≡ []
  unfolding decode_file
  decode_file-nil offset = refl

  -- The buffer behind a read of some bytes of an address.
  abbrev pub filled : ℕ → Decoder → List ℕ → List ℕ
  filled missing d bytes =
      take (4 - missing) d.buffer ++ (bytes ++ drop (4 - missing + length bytes) d.buffer)

  pub length-filled :
      (missing : ℕ) (d : Decoder) (bytes : List ℕ)
      → missing ≤ 4
      → length bytes ≤ missing
      → length d.buffer ≡ 4
      → length (filled missing d bytes) ≡ 4
  length-filled missing d bytes h k p = omega (
    arith,
    length-append (take (4 - missing) d.buffer)
        (bytes ++ drop (4 - missing + length bytes) d.buffer),
    length-append bytes (drop (4 - missing + length bytes) d.buffer),
    length-take (4 - missing) d.buffer,
    length-drop (4 - missing + length bytes) d.buffer,
  )

  pub take-filled :
      (missing : ℕ) (d : Decoder) (bytes : List ℕ)
      → missing ≤ 4
      → length d.buffer ≡ 4
      → take (4 - missing + length bytes) (filled missing d bytes)
        ≡ take (4 - missing) d.buffer ++ bytes
  take-filled missing d bytes h p =
      let known = take (4 - missing) d.buffer in
      let more = drop (4 - missing + length bytes) d.buffer in
      ap (take (4 - missing + length bytes)) (sym (append_assoc known bytes more))
      ∙ take-prefix (4 - missing + length bytes) (known ++ bytes) more
          (omega (arith, length-append known bytes, length-take (4 - missing) d.buffer))
