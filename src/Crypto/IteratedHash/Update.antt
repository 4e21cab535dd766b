-- ===== src/Crypto/IteratedHash/Update.antt =====
-- What `update` of src/crypto/iteratedhash.hpp keeps in its state.
use innoextract_wasm.Base.{
  ℕ, ◌+◌, ◌-◌, ◌/◌, ◌%◌, ◌^◌, ◌≤◌, true, false, List, [], ◌++◌, length, drop, length-append, nil,
  leb, leb→le, ltb, ltb→lt, ◌==◌, ==_iff, ◌≡◌, refl, sym, ap, subst, ◌∙◌, Bool-cases, inl, inr,
  arith,
}
use native.Mathlib.Nat.{pow-le-pow_right, mod-eq_of_lt}
use innoextract_wasm.Base.Bits.{bit_and-mask}
use innoextract_wasm.Base.Words.{u32}
use innoextract_wasm.Crypto.IteratedHash.{
  Transform, IteratedHash, block_size, mod_power_of_2, safe_right_shift, hash, write_at, init,
  whole_blocks, left_over, counted, update,
}
use innoextract_wasm.Crypto.IteratedHash.Blocks.{kept, length-Absorbed}
use innoextract_wasm.Crypto.IteratedHash.Pieces.{
  Counts, Buffered, whole_blocks-Buffered, left_over_few, left_over_many, Buffered-trans,
  left_over-Buffered,
}

ltb-ge : (m n : ℕ) → ltb m n ≡ false → n ≤ m
ltb-ge m n h = ground arith

module _ (bits l : ℕ) (fits : l + 64 ≤ 2 ^ bits) where
  safe_right_shift-div : safe_right_shift bits 32 l ≡ l / 2 ^ 32
  unfolding safe_right_shift
  safe_right_shift-div = elim (Bool-cases (leb bits 32)) [
    | inl small ↦
        rw small (omega (arith, pow-le-pow_right {n = 2} (omega arith) (leb→le bits 32 small)))
    | inr large ↦ rw large refl
  ]

  counted-Counts : (h : IteratedHash) (n : ℕ) → Counts h n → Counts (counted bits h l) (n + l)
  unfolding counted
  counted-Counts h n c = elim (Bool-cases (ltb (u32 (h.count_lo + u32 l)) h.count_lo)) [
    | inl carry ↦ record {
      lo = omega (arith, c.lo);
      hi = rw carry (
          omega (
            arith,
            c.lo,
            c.hi,
            safe_right_shift-div,
            ltb→lt (u32 (h.count_lo + u32 l)) h.count_lo carry,
          ));
    }
    | inr none_carried ↦ record {
      lo = omega (arith, c.lo);
      hi = rw none_carried (
          omega (
            arith,
            c.lo,
            c.hi,
            safe_right_shift-div,
            ltb-ge (u32 (h.count_lo + u32 l)) h.count_lo none_carried,
          ));
    }
  ]

module _ (t : Transform) where
  -- The state after these bytes.
  pub record Holds (bytes : List ℕ) (h : IteratedHash) : Type 0 where
    pub buffered : Buffered t t.init bytes h
    pub counts : Counts h (length bytes)

  pub init-Holds : (buffer : List ℕ) → length buffer ≡ 64 → Holds [] (init t buffer)
  unfolding init
  init-Holds buffer p = record {
    buffered = record {
      tail = [];
      absorbed = kept t t.init [];
      short = omega arith;
      held = refl;
      size = p;
    };
    counts = record { lo = refl; hi = refl };
  }

  -- The place in the buffer is the number of bytes that are left over.
  pub place-tail :
      {bytes : List ℕ} (h : IteratedHash) (p : Holds bytes h)
      → mod_power_of_2 h.count_lo block_size ≡ length p.buffered.tail
  unfolding mod_power_of_2
  place-tail h p =
      let (k, e) = length-Absorbed t p.buffered.absorbed in
      bit_and-mask 6 h.count_lo ∙ omega (arith, p.counts.lo, e, p.buffered.short)

  counted-Buffered :
      {s a : List ℕ} (bits l : ℕ) (h : IteratedHash)
      → Buffered t s a h
      → Buffered t s a (counted bits h l)
  unfolding counted
  counted-Buffered bits l h p = record {
    tail = p.tail;
    absorbed = p.absorbed;
    short = p.short;
    held = p.held;
    size = p.size;
  }

  update_whole :
      (bits : ℕ) (h : IteratedHash) (input : List ℕ)
      → (mod_power_of_2 h.count_lo block_size == 0) ≡ true
      → update t bits h input ≡ whole_blocks t (counted bits h (length input)) input
  unfolding update
  update_whole bits h input p = rw (update, p) refl

  update-left_over :
      (bits : ℕ) (h : IteratedHash) (input : List ℕ)
      → (mod_power_of_2 h.count_lo block_size == 0) ≡ false
      → update t bits h input
        ≡ left_over t bits
            (mod_power_of_2 h.count_lo block_size)
            (counted bits h (length input))
            input
  unfolding update
  update-left_over bits h input p = rw (update, p) refl

  -- The counts change in `counted` only.
  whole_blocks-Counts :
      {n : ℕ} (h : IteratedHash) (input : List ℕ) → Counts h n → Counts (whole_blocks t h input) n
  unfolding whole_blocks
  whole_blocks-Counts {n} h input c =
      elim (leb block_size (length input))
        as (λ b.
          Counts
            (elim b [
              | true ↦
                  (let (state', rest) = hash t h.state input in
                    record h { buffer = write_at h.buffer 0 rest; state = state' })
              | false ↦ record h { buffer = write_at h.buffer 0 input }
            ])
            n) [ true ↦ record { lo = c.lo; hi = c.hi } | false ↦ record { lo = c.lo; hi = c.hi } ]

  left_over-Counts :
      {n : ℕ} (bits num : ℕ) (h : IteratedHash) (input : List ℕ)
      → Counts h n
      → Counts (left_over t bits num h input) n
  left_over-Counts {n} bits num h input c =
      elim (Bool-cases (leb block_size ((num + length input) % 2 ^ bits))) [
        | inl many ↦
            subst (λ k. Counts k n) (sym (left_over_many t bits num h input many))
              (whole_blocks-Counts _ (drop (block_size - num) input)
                (record { lo = c.lo; hi = c.hi }))
        | inr few ↦
            subst (λ k. Counts k n) (sym (left_over_few t bits num h input few))
              (record { lo = c.lo; hi = c.hi })
      ]

  -- From the state after some bytes, `update` leads to the state after these and the new ones,
  -- whose number is at least a block smaller than what `size_t` counts.
  pub update-Holds :
      (bits : ℕ) (h : IteratedHash) (bytes input : List ℕ)
      → length input + 64 ≤ 2 ^ bits
      → Holds bytes h
      → Holds (bytes ++ input) (update t bits h input)
  unfolding counted-Buffered
  update-Holds bits h bytes input fits p =
      let h' = counted bits h (length input) in
      let buffered = counted-Buffered bits (length input) h p.buffered in
      let counts =
        subst (Counts h') (sym (length-append bytes input))
          (counted-Counts bits (length input) fits h (length bytes) p.counts) in
      elim (Bool-cases (mod_power_of_2 h.count_lo block_size == 0)) [
        | inl none_left ↦
            (let empty = nil p.buffered.tail (sym (place-tail h p) ∙ (==_iff _ 0).0 none_left) in
              subst (Holds (bytes ++ input)) (sym (update_whole bits h input none_left)) (record {
                buffered = Buffered-trans t input (whole_blocks t h' input) buffered.absorbed (
                    subst (λ l. Buffered t h'.state (l ++ input) (whole_blocks t h' input))
                      (sym empty) (whole_blocks-Buffered t h' input buffered.size));
                counts = whole_blocks-Counts h' input counts;
              }))
        | inr some_left ↦
            subst (Holds (bytes ++ input))
              (sym (
                update-left_over bits h input some_left
                ∙ ap (λ k. left_over t bits k h' input) (place-tail h p)))
              (record {
                buffered =
                    left_over-Buffered t bits h' buffered input
                      (mod-eq_of_lt (omega (arith, p.buffered.short)));
                counts = left_over-Counts bits (length p.buffered.tail) h' input counts;
              })
      ]
