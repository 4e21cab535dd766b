-- ===== src/Stream/Exe5200/Reads.antt =====
-- A call of `read` (src/stream/exefilter.hpp) on a source with all bytes at hand.
use innoextract_wasm.Base.{
  ℕ, zero, suc, ◌+◌, ◌-◌, ◌≤◌, Bool, true, false, List, [], ◌∷◌, ◌++◌, length, ◌≡◌, refl, sym, ap,
  ◌∙◌, subst, Bool-cases, inl, inr, arith,
}
use innoextract_wasm.Base.Words.{u32}
use innoextract_wasm.Stream.Block.Stored.{list_fetch}
use innoextract_wasm.Stream.Exe4108.{byte}
use innoextract_wasm.Stream.Exe5200.{
  Phase, initial, address, flush, Decoder, transform, count_of, Outcome, some_or_eof, preceded,
  address_phase, initial_read, round, read_loop, begun, read,
}
use innoextract_wasm.Stream.Exe5200.Whole.{decode_file, decode_plain, decode_call, has_address}
use innoextract_wasm.Stream.Exe5200.State.{
  Delivered, list_get, pending_address, pending, IsPhase, IsDecoder,
}
use innoextract_wasm.Stream.Exe5200.Pending.{
  stopped-Delivered, preceded-Delivered, flushed-Delivered, some_or_eof-IsCount, Loops, Loop,
  pending_known,
}
use innoextract_wasm.Stream.Exe5200.Delivers.{address-Delivered}

module _ (flip : Bool) where
  -- A call and the address to read, in one.
  call_pending :
      (d : Decoder) (phase : Phase) (b : ℕ) (src : List ℕ)
      → has_address d.offset b ≡ true
      → b
          ∷ pending_address flip 4
              (record { offset = u32 (d.offset + 1); phase = phase; buffer = d.buffer })
              src
        ≡ decode_file flip d.offset (b ∷ src)
  unfolding decode_file pending_address
  call_pending d phase b [] h = refl
  call_pending d phase b (x ∷ []) h = refl
  call_pending d phase b (x ∷ y ∷ []) h = refl
  call_pending d phase b (x ∷ y ∷ z ∷ []) h = refl
  call_pending d phase b (x ∷ y ∷ z ∷ w ∷ rest) h =
      ap (λ l. b ∷ l)
        (pending_known flip 4
          (record { offset = u32 (d.offset + 1); phase = phase; buffer = d.buffer })
          (x ∷ y ∷ z ∷ w ∷ rest) (ground arith))
      ∙ ap (λ n. b ∷ (transform flip n (x ∷ y ∷ z ∷ w ∷ []) ++ decode_file flip n rest))
          {x = u32 (u32 (d.offset + 1) + 4)} {y = u32 (d.offset + 5)} (omega arith)
      ∙ sym (decode_call flip d.offset b x y z w rest h)

  module _ (total room b : ℕ) (d : Decoder) (src : List ℕ)
      (later : ℕ → ℕ → Decoder → List ℕ → Outcome (List ℕ)) where
    read_call :
        has_address d.offset b ≡ true
        → initial_read list_get list_fetch flip later total room d (byte b) src
          ≡ preceded (b ∷ []) (
              address_phase list_get list_fetch flip later
                (total + 1)
                room
                4
                (record d { offset = u32 (d.offset + 1); phase = address 4 })
                src)
    unfolding initial_read
    read_call h = rw (initial_read, h) refl

    read_plain :
        has_address d.offset b ≡ false
        → initial_read list_get list_fetch flip later total room d (byte b) src
          ≡ preceded
              (b ∷ [])
              (later (total + 1) room (record d { offset = u32 (d.offset + 1) }) src)
    unfolding initial_read
    read_plain h = rw (initial_read, h) refl

  one_more :
      (total room b : ℕ) (to_come : List ℕ) (o : Outcome (List ℕ))
      → Delivered flip (total + 1) room to_come o
      → Delivered flip total (suc room) (b ∷ to_come) (preceded (b ∷ []) o)
  one_more total room b to_come o h =
      preceded-Delivered flip total (suc room) (b ∷ []) to_come o (omega arith) (
        subst (λ n. Delivered flip (total + 1) n to_come o) {x = room}
          {y = suc room - length (b ∷ [])} (omega arith) h)

  -- A round behind the last byte of an instruction.
  initial-Delivered :
      (fuel total room : ℕ) (d : Decoder) (src : List ℕ)
      → room ≤ fuel
      → length d.buffer ≡ 4
      → Loop flip fuel
      → Delivered flip total (suc room) (decode_file flip d.offset src) (
          round list_get list_fetch flip
            (read_loop list_get list_fetch flip fuel)
            initial
            total
            room
            (record d { phase = initial })
            src)
  unfolding round initial_read Loop pending
  initial-Delivered fuel total room d [] h four go =
      stopped-Delivered flip total (suc room) (some_or_eof total) (record d { phase = initial }) []
        (some_or_eof-IsCount flip total) (inr refl) (tt, four)
  initial-Delivered fuel total room d (b ∷ src) h four go =
      let later : ℕ → ℕ → Decoder → List ℕ → Outcome (List ℕ) =
        read_loop list_get list_fetch flip fuel in
      let d' : Decoder = record d { phase = initial } in
      elim (Bool-cases (has_address d.offset b)) [
        | inl call ↦
            (let d'' : Decoder = record {
              offset = u32 (d.offset + 1);
              phase = address 4;
              buffer = d.buffer;
            } in
              let o = address_phase list_get list_fetch flip later (total + 1) room 4 d'' src in
              subst (Delivered flip total (suc room) (decode_file flip d.offset (b ∷ src)))
                (sym (read_call total room b d' src later call))
                (subst (λ l. Delivered flip total (suc room) l (preceded (b ∷ []) o))
                  (call_pending d (address 4) b src call)
                  (one_more total room b (pending_address flip 4 d'' src) o (
                    address-Delivered flip (total + 1) room 4 d'' later (omega arith) (omega arith)
                      four src
                      (λ offset buffer rest full enough.
                        go (total + 1 + 4) (room - 4)
                          (record { offset = offset; phase = initial; buffer = buffer }) rest
                          (omega arith) tt (tt, full))))))
        | inr plain ↦
            (let d'' : Decoder = record {
              offset = u32 (d.offset + 1);
              phase = initial;
              buffer = d.buffer;
            } in
              let o = later (total + 1) room d'' src in
              subst (Delivered flip total (suc room) (decode_file flip d.offset (b ∷ src)))
                (sym (read_plain total room b d' src later plain))
                (subst (λ l. Delivered flip total (suc room) l (preceded (b ∷ []) o))
                  (sym (decode_plain flip d.offset b src plain))
                  (one_more total room b (decode_file flip (u32 (d.offset + 1)) src) o
                    (go (total + 1) room d'' src h tt (tt, four)))))
      ]

  round-Delivered :
      (fuel total room offset : ℕ) (phase : Phase) (buffer src : List ℕ)
      → room ≤ fuel
      → Loops flip phase
      → IsPhase phase
      → length buffer ≡ 4
      → Loop flip fuel
      → let d : Decoder = record { offset = offset; phase = phase; buffer = buffer } in
        Delivered flip total (suc room) (pending flip phase d src) (
          round list_get list_fetch flip
            (read_loop list_get list_fetch flip fuel)
            phase
            total
            room
            d
            src)
  unfolding round Loop pending
  round-Delivered fuel total room offset initial buffer src h ok v four go =
      initial-Delivered fuel total room
        (record { offset = offset; phase = initial; buffer = buffer }) src h four go
  round-Delivered fuel total room offset (address missing) buffer src h ok v four go =
      address-Delivered flip total (suc room) missing
        (record { offset = offset; phase = address missing; buffer = buffer })
        (read_loop list_get list_fetch flip fuel) v.0 v.1 four src
        (λ offset' buffer' rest full enough.
          go (total + 4) (suc room - 4)
            (record { offset = offset'; phase = initial; buffer = buffer' }) rest (omega arith) tt
            (tt, full))
  round-Delivered fuel total room offset (flush count) buffer src h ok v four go = absurd ok

  loop : (fuel : ℕ) → Loop flip fuel
  unfolding Loop read_loop
  loop fuel total zero d src h ok v =
      stopped-Delivered flip total zero (count_of total) d src refl (inl refl) v
  loop zero total (suc room) d src h ok v = absurd (omega arith)
  loop (suc fuel) total (suc room) d src h ok v =
      round-Delivered fuel total room d.offset d.phase d.buffer src (omega arith) ok v.0 v.1
        (loop fuel)

  begun-Delivered :
      (n offset : ℕ) (phase : Phase) (buffer src : List ℕ)
      → IsPhase phase
      → length buffer ≡ 4
      → let d : Decoder = record { offset = offset; phase = phase; buffer = buffer } in
        Delivered flip 0 n (pending flip phase d src) (begun list_get list_fetch flip n phase d src)
  unfolding begun pending Loop
  begun-Delivered n offset initial buffer src v four =
      loop n 0 n (record { offset = offset; phase = initial; buffer = buffer }) src (omega arith) tt
        (v, four)
  begun-Delivered n offset (address missing) buffer src v four =
      loop n 0 n (record { offset = offset; phase = address missing; buffer = buffer }) src
        (omega arith) tt (v, four)
  begun-Delivered n offset (flush count) buffer src v four =
      flushed-Delivered flip 0 n count
        (record { offset = offset; phase = flush count; buffer = buffer }) src
        (read_loop list_get list_fetch flip n) v.1 four
        (λ enough.
          loop n (0 + count) (n - count)
            (record { offset = offset; phase = initial; buffer = buffer }) src (omega arith) tt
            (tt, four))

  -- A call of `read` for n bytes from any valid state of the decoder, on a source that has all its
  -- bytes at hand: the bytes that it writes, followed by what is still to come of the state that it
  -- leaves, are what was to come, which for a new decoder is the decoded file. It writes at most n
  -- bytes and returns their number, or EOF where there is none; it writes fewer than n only at the end
  -- of the source, and leaves a valid state.
  pub read-Delivered :
      (n : ℕ) (d : Decoder) (src : List ℕ)
      → IsDecoder d
      → Delivered flip 0 n (pending flip d.phase d src) (read list_get list_fetch flip n d src)
  unfolding read
  read-Delivered n d src v = begun-Delivered n d.offset d.phase d.buffer src v.0 v.1
