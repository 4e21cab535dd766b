-- ===== src/Stream/Exe5200/Delivers.antt =====
-- Reads of any sizes from the decoder of src/stream/exefilter.hpp, against the decoder on the whole
-- file.
use innoextract_wasm.Base.{
  length-take_le, take-all, drop-all, lt_of_leb, le→leb, lt→leb, ℕ, ◌+◌, ◌-◌, ◌≤◌, ◌<◌, Bool, true,
  false, List, [], ◌∷◌, ◌++◌, append-nil, Option, none, some, length, take, drop, leb, leb→le, ◌==◌,
  ==_iff, ◌≡◌, refl, sym, ap, ap₂, ◌∙◌, subst, Bool-cases, inl, inr, arith,
}
use innoextract_wasm.Base.Words.{u32}
use innoextract_wasm.Stream.Block.Stored.{list_fetch}
use innoextract_wasm.Stream.Exe5200.{
  initial, address, Decoder, transform, count_of, Outcome, some_or_eof, stopped, flushed,
  address_read, address_phase,
}
use innoextract_wasm.Stream.Exe5200.Whole.{decode_file}
use innoextract_wasm.Stream.Exe5200.State.{Delivered, list_get, pending_address, pending}
use innoextract_wasm.Stream.Exe5200.Pending.{
  stopped-Delivered, flushed-Delivered, some_or_eof-IsCount, pending_known, pending_part,
  length-transform, decode_file-nil, filled, length-filled, take-filled,
}

ne→== : (m n : ℕ) → m < n → (m == n) ≡ false
ne→== m n h = ground arith

module _ (flip : Bool) where
  abbrev address_of :
      (ℕ → ℕ → Decoder → List ℕ → Outcome (List ℕ))
      → ℕ
      → ℕ
      → ℕ
      → Decoder
      → Option (List ℕ)
      → List ℕ
      → Outcome (List ℕ)
  address_of = address_read list_get list_fetch flip

  stopped_initial :
      (d : Decoder) (total room : ℕ)
      → length d.buffer ≡ 4
      → Delivered flip total room
          (decode_file flip d.offset [])
          (stopped (some_or_eof total) (record d { phase = initial }) [])
  unfolding pending
  stopped_initial d total room four =
      stopped-Delivered flip total room (some_or_eof total) (record d { phase = initial }) []
        (some_or_eof-IsCount flip total) (inr refl) (tt, four)

  module _ (total room missing : ℕ) (d : Decoder)
      (later : ℕ → ℕ → Decoder → List ℕ → Outcome (List ℕ)) (some_missing : 0 < missing)
      (few : missing ≤ 4) (four : length d.buffer ≡ 4) where
    read_eof_all :
        (missing == 4) ≡ true
        → address_of later total room missing d none []
          ≡ stopped (some_or_eof total) (record d { phase = address missing }) []
    unfolding address_read
    read_eof_all h = rw (address_read, h) refl

    read_eof_part :
        (missing == 4) ≡ false
        → address_of later total room missing d none []
          ≡ flushed total room
              (4 - missing)
              d
              []
              (λ total' room' d' src'. stopped (some_or_eof total') d' src')
    unfolding address_read
    read_eof_part h = rw (address_read, h) refl

    stays :
        (count : ℕ) (buffer src : List ℕ) (offset : ℕ)
        → pending flip
            (address count)
            (record { offset = offset; phase = address count; buffer = buffer })
            src
          ≡ pending_address flip count
              (record { offset = offset; phase = d.phase; buffer = buffer })
              src
    unfolding pending pending_address
    stays count buffer src offset = refl

    none_read :
        Delivered flip total room
          (pending_address flip missing d [])
          (address_of later total room missing d none [])
    none_read =
        let to_come = pending_address flip missing d [] in
        let short : leb missing (length {A = ℕ} []) ≡ false = ground arith in
        let part = pending_part flip missing d [] short in
        elim (Bool-cases (missing == 4)) [
          | inl all ↦
              (let stop = stopped (some_or_eof total) (record d { phase = address missing }) [] in
                subst (Delivered flip total room to_come) (sym (read_eof_all all)) (
                  subst (λ l. Delivered flip total room l stop) (stays missing d.buffer [] d.offset)
                    (stopped-Delivered flip total room (some_or_eof total)
                      (record d { phase = address missing }) [] (some_or_eof-IsCount flip total)
                      (inr refl) ((some_missing, few), four))))
          | inr others ↦ subst (Delivered flip total room to_come) (sym (read_eof_part others)) (
              subst
                (λ l. Delivered flip total room l (
                  flushed total room (4 - missing) d []
                    (λ total' room' d' src'. stopped (some_or_eof total') d' src')))
                (ap (λ l. take (4 - missing) d.buffer ++ l) (decode_file-nil flip d.offset)
                  ∙ sym part)
                (flushed-Delivered flip total room (4 - missing) d []
                  (λ total' room' d' src'. stopped (some_or_eof total') d' src') (omega arith) four
                  (λ enough.
                    stopped_initial d (total + (4 - missing)) (room - (4 - missing)) four)))
        ]

    read_whole :
        (bytes src : List ℕ)
        → (length bytes == missing) ≡ true
        → let offset' = u32 (d.offset + length bytes) in
          address_of later total room missing d (some bytes) src
          ≡ flushed total room 4
              (record d {
                offset = offset';
                buffer = transform flip offset' (filled flip missing d bytes);
              })
              src
              later
    unfolding address_read
    read_whole bytes src h = rw (address_read, h) refl

    read_part :
        (bytes src : List ℕ)
        → (length bytes == missing) ≡ false
        → address_of later total room missing d (some bytes) src
          ≡ stopped
              (count_of total)
              (record {
                offset = u32 (d.offset + length bytes);
                phase = address (missing - length bytes);
                buffer = filled flip missing d bytes;
              })
              src
    unfolding address_read
    read_part bytes src h = rw (address_read, h) refl

    -- All the missing bytes are read.
    whole_read :
        (src : List ℕ)
        → missing ≤ length src
        → ((offset : ℕ) (buffer rest : List ℕ)
            → length buffer ≡ 4
            → 4 ≤ room
            → Delivered flip (total + 4) (room - 4) (decode_file flip offset rest) (
                later
                  (total + 4)
                  (room - 4)
                  (record { offset = offset; phase = initial; buffer = buffer })
                  rest))
        → Delivered flip total room
            (pending_address flip missing d src)
            (address_of later total room missing d (some (take missing src)) (drop missing src))
    whole_read src enough go =
        let bytes = take missing src in
        let rest = drop missing src in
        let len : length bytes ≡ missing = length-take_le missing src enough in
        let known : leb missing (length src) ≡ true = le→leb missing (length src) enough in
        let offset' = u32 (d.offset + length bytes) in
        let buffer = filled flip missing d bytes in
        let buffer' = transform flip offset' buffer in
        let full : length buffer ≡ 4 =
          length-filled flip missing d bytes few (omega (arith, len)) four in
        let full' : length buffer' ≡ 4 = length-transform flip offset' buffer ∙ full in
        let all_of : take 4 buffer' ≡ buffer' = take-all 4 buffer' (omega (arith, full')) in
        let exact : buffer ≡ take (4 - missing) d.buffer ++ bytes =
          sym (take-all (4 - missing + length bytes) buffer (omega (arith, full, len)))
          ∙ take-filled flip missing d bytes few four in
        let d' : Decoder = record d { offset = offset'; buffer = buffer' } in
        subst (Delivered flip total room (pending_address flip missing d src))
          (sym (read_whole bytes rest ((==_iff (length bytes) missing).1 len)))
          (subst (λ l. Delivered flip total room l (flushed total room 4 d' rest later))
            (ap (λ l. l ++ decode_file flip offset' rest)
                (all_of ∙ ap (transform flip offset') exact)
              ∙ ap
                  (λ n.
                    transform flip (u32 (d.offset + n)) (take (4 - missing) d.buffer ++ bytes)
                    ++ decode_file flip (u32 (d.offset + n)) rest)
                  len
              ∙ sym (pending_known flip missing d src known))
            (flushed-Delivered flip total room 4 d' rest later (omega arith) full'
              (λ room_left. go offset' buffer' rest full' room_left)))

    -- The source ends within the address.
    short_read :
        (src : List ℕ)
        → length src < missing
        → Delivered flip total room
            (pending_address flip missing d src)
            (address_of later total room missing d (some src) [])
    short_read src short =
        let m = missing - length src in
        let buffer = filled flip missing d src in
        let offset' = u32 (d.offset + length src) in
        let d' : Decoder = record { offset = offset'; phase = address m; buffer = buffer } in
        let d'' : Decoder = record { offset = offset'; phase = d.phase; buffer = buffer } in
        let none_left : leb m (length {A = ℕ} []) ≡ false = lt→leb m 0 (omega arith) in
        let part : leb missing (length src) ≡ false = lt→leb missing (length src) short in
        let stop : Outcome (List ℕ) = stopped (count_of total) d' [] in
        let known : take (4 - m) buffer ≡ take (4 - missing) d.buffer ++ src =
          ap (λ n. take n buffer) {x = 4 - m} {y = 4 - missing + length src} (omega arith)
          ∙ take-filled flip missing d src few four in
        subst (Delivered flip total room (pending_address flip missing d src))
          (sym (read_part src [] (ne→== (length src) missing (omega arith))))
          (subst (λ l. Delivered flip total room l stop)
            (stays m buffer [] offset'
              ∙ pending_part flip m d'' [] none_left
              ∙ append-nil (take (4 - m) buffer)
              ∙ known
              ∙ sym (pending_part flip missing d src part))
            (stopped-Delivered flip total room (count_of total) d' [] refl (inr refl) (
              (omega arith, omega arith),
              length-filled flip missing d src few (omega arith) four,
            )))

    pub address-Delivered :
        (src : List ℕ)
        → ((offset : ℕ) (buffer rest : List ℕ)
            → length buffer ≡ 4
            → 4 ≤ room
            → Delivered flip (total + 4) (room - 4) (decode_file flip offset rest) (
                later
                  (total + 4)
                  (room - 4)
                  (record { offset = offset; phase = initial; buffer = buffer })
                  rest))
        → Delivered flip total room
            (pending_address flip missing d src)
            (address_phase list_get list_fetch flip later total room missing d src)
    unfolding address_phase
    address-Delivered [] go = none_read
    address-Delivered (b ∷ bytes) go = elim (Bool-cases (leb missing (length (b ∷ bytes)))) [
      | inl whole ↦ whole_read (b ∷ bytes) (leb→le missing (length (b ∷ bytes)) whole) go
      | inr part ↦
          (let short = lt_of_leb missing (length (b ∷ bytes)) part in
            subst
              (λ (a : List ℕ × List ℕ).
                Delivered flip total room (pending_address flip missing d (b ∷ bytes))
                  (address_of later total room missing d (some a.0) a.1))
              (sym (
                ap₂ (λ l r. (l, r)) (take-all missing (b ∷ bytes) (omega arith))
                  (drop-all missing (b ∷ bytes) (omega arith))))
              (short_read (b ∷ bytes) short))
    ]
