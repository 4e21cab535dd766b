-- ===== src/Crypto/IteratedHash/Pieces.antt =====
-- The bytes that wait in the buffer of an iterated hash (src/crypto/iteratedhash.hpp).
use innoextract_wasm.Base.{
  lt_of_leb, ℕ, ◌+◌, ◌-◌, ◌/◌, ◌%◌, ◌^◌, ◌≤◌, ◌<◌, true, false, List, [], ◌++◌, append_assoc,
  length, take, drop, length-append, length-take, take-append-drop, nil, leb, leb→le, ◌≡◌, refl,
  sym, ap, subst, ◌∙◌, Bool-cases, inl, inr, arith,
}
use innoextract_wasm.Crypto.IteratedHash.{
  Transform, IteratedHash, block_size, hash, write_at, whole_blocks, left_over,
}
use innoextract_wasm.Crypto.IteratedHash.Blocks.{
  Absorbed, kept, Absorbed-trans, length-Absorbed, hash-Absorbs, take-write_at, length-write_at,
  write_at-end,
}

-- The counts hold the number of bytes, modulo 2 ^ 64.
pub record Counts (h : IteratedHash) (n : ℕ) : Type 0 where
  pub lo : h.count_lo ≡ n % 2 ^ 32
  pub hi : h.count_hi ≡ n / 2 ^ 32 % 2 ^ 32

module _ (t : Transform) where
  -- From state `s`, whole blocks of the input led to the state; the rest, less than a block,
  -- stands at the start of the buffer.
  pub record Buffered (s input : List ℕ) (h : IteratedHash) : Type 0 where
    pub tail : List ℕ
    pub absorbed : Absorbed t s input h.state tail
    pub short : length tail < 64
    pub held : take (length tail) h.buffer ≡ tail
    pub size : length h.buffer ≡ 64

  held-write_at : (buffer rest : List ℕ) → take (length rest) (write_at buffer 0 rest) ≡ rest
  held-write_at buffer rest =
      ap (λ k. take k (write_at buffer 0 rest)) {x = length rest} {y = 0 + length rest}
        (omega arith)
      ∙ take-write_at buffer 0 rest (omega arith)

  whole_blocks_many :
      (h : IteratedHash) (input : List ℕ)
      → leb block_size (length input) ≡ true
      → whole_blocks t h input ≡ record h {
        buffer = write_at h.buffer 0 (hash t h.state input).1;
        state = (hash t h.state input).0;
      }
  unfolding whole_blocks
  whole_blocks_many h input p = rw (whole_blocks, p) refl

  whole_blocks_few :
      (h : IteratedHash) (input : List ℕ)
      → leb block_size (length input) ≡ false
      → whole_blocks t h input ≡ record h { buffer = write_at h.buffer 0 input }
  unfolding whole_blocks
  whole_blocks_few h input p = rw (whole_blocks, p) refl

  pub whole_blocks-Buffered :
      (h : IteratedHash) (input : List ℕ)
      → length h.buffer ≡ 64
      → Buffered h.state input (whole_blocks t h input)
  whole_blocks-Buffered h input p = elim (Bool-cases (leb block_size (length input))) [
    | inl many ↦
        (let (state', rest) = hash t h.state input in
          let absorbs = hash-Absorbs t h.state input (leb→le 64 (length input) many) in
          subst (Buffered h.state input) (sym (whole_blocks_many h input many)) (record {
            tail = rest;
            absorbed = absorbs.0;
            short = absorbs.1;
            held = held-write_at h.buffer rest;
            size = length-write_at h.buffer 0 rest (omega (arith, absorbs.1)) ∙ p;
          }))
    | inr few ↦
        (let short = lt_of_leb 64 (length input) few in
          subst (Buffered h.state input) (sym (whole_blocks_few h input few)) (record {
            tail = input;
            absorbed = kept t h.state input;
            short = short;
            held = held-write_at h.buffer input;
            size = length-write_at h.buffer 0 input (omega arith) ∙ p;
          }))
  ]

  -- The buffer with the tail and more bytes behind it.
  extended :
      {s a : List ℕ} (h : IteratedHash) (p : Buffered s a h) (more : List ℕ)
      → length p.tail + length more ≤ 64
      → take (length p.tail + length more) (write_at h.buffer (length p.tail) more) ≡ p.tail ++ more
  extended h p more q =
      take-write_at h.buffer (length p.tail) more (omega (arith, p.size, p.short))
      ∙ ap (λ l. l ++ more) p.held

  pub left_over_few :
      (bits num : ℕ) (h : IteratedHash) (input : List ℕ)
      → leb block_size ((num + length input) % 2 ^ bits) ≡ false
      → left_over t bits num h input ≡ record h { buffer = write_at h.buffer num input }
  unfolding left_over
  left_over_few bits num h input p = rw (left_over, p) refl

  pub left_over_many :
      (bits num : ℕ) (h : IteratedHash) (input : List ℕ)
      → leb block_size ((num + length input) % 2 ^ bits) ≡ true
      → left_over t bits num h input ≡ (
          let buffer' = write_at h.buffer num (take (block_size - num) input) in
          whole_blocks t
            (record h { buffer = buffer'; state = (hash t h.state buffer').0 })
            (drop (block_size - num) input))
  unfolding left_over
  left_over_many bits num h input p = rw (left_over, p) refl

  -- What is buffered behind what is buffered.
  pub Buffered-trans :
      {s a : List ℕ} {s₁ r : List ℕ} (b : List ℕ) (h : IteratedHash)
      → Absorbed t s a s₁ r
      → Buffered s₁ (r ++ b) h
      → Buffered s (a ++ b) h
  Buffered-trans b h p q = record {
    tail = q.tail;
    absorbed = Absorbed-trans t b p q.absorbed;
    short = q.short;
    held = q.held;
    size = q.size;
  }

  -- A full buffer is one block: nothing is left over.
  full_block : (s block : List ℕ) → length block ≡ 64 → Absorbed t s block (hash t s block).0 []
  full_block s block p =
      let absorbs = hash-Absorbs t s block (omega arith) in
      let (k, e) = length-Absorbed t absorbs.0 in
      subst (Absorbed t s block (hash t s block).0)
        (nil (hash t s block).1 (omega (arith, absorbs.1))) absorbs.0

  -- More bytes in the buffer, which do not fill it.
  pub extended-Buffered :
      {s a : List ℕ} (h : IteratedHash) (p : Buffered s a h) (more : List ℕ)
      → length p.tail + length more < 64
      → Buffered s (a ++ more) (record h { buffer = write_at h.buffer (length p.tail) more })
  extended-Buffered h p more q =
      let len = length-append p.tail more in
      record {
        tail = p.tail ++ more;
        absorbed = Absorbed-trans t more p.absorbed (kept t h.state (p.tail ++ more));
        short = omega (arith, len);
        held =
            ap (λ k. take k (write_at h.buffer (length p.tail) more)) len
            ∙ extended h p more (omega arith);
        size = length-write_at h.buffer (length p.tail) more (omega (arith, p.size)) ∙ p.size;
      }

  -- Bytes that fill the buffer, which is hashed.
  pub filled-Absorbed :
      {s a : List ℕ} (h : IteratedHash) (p : Buffered s a h) (more : List ℕ)
      → length p.tail + length more ≡ 64
      → let buffer' = write_at h.buffer (length p.tail) more in
        (length buffer' ≡ 64) × Absorbed t s (a ++ more) (hash t h.state buffer').0 []
  filled-Absorbed h p more q =
      let buffer' = write_at h.buffer (length p.tail) more in
      let state' = (hash t h.state buffer').0 in
      let whole : buffer' ≡ p.tail ++ more =
        write_at-end h.buffer (length p.tail) more (q ∙ sym p.size) ∙ ap (λ l. l ++ more) p.held in
      let len : length buffer' ≡ 64 = ap length whole ∙ length-append p.tail more ∙ q in
      (
        len,
        Absorbed-trans t more p.absorbed
            (subst (λ l. Absorbed t h.state l state' []) whole (full_block h.state buffer' len)),
      )

  pub left_over-Buffered :
      (bits : ℕ) {s a : List ℕ} (h : IteratedHash) (p : Buffered s a h) (input : List ℕ)
      → (length p.tail + length input) % 2 ^ bits ≡ length p.tail + length input
      → Buffered s (a ++ input) (left_over t bits (length p.tail) h input)
  left_over-Buffered bits {s} {a} h p input small =
      let n = length p.tail in
      elim (Bool-cases (leb block_size ((n + length input) % 2 ^ bits))) [
        | inl many ↦
            (let enough : 64 ≤ n + length input =
                subst (λ k. 64 ≤ k) small (leb→le 64 ((n + length input) % 2 ^ bits) many) in
              let piece = take (64 - n) input in
              let rest = drop (64 - n) input in
              let buffer' = write_at h.buffer n piece in
              let state' = (hash t h.state buffer').0 in
              let h' : IteratedHash = record h { buffer = buffer'; state = state' } in
              let (len, block) =
                filled-Absorbed h p piece (omega (arith, length-take (64 - n) input, p.short)) in
              subst (Buffered s (a ++ input)) (sym (left_over_many bits n h input many)) (
                subst (λ l. Buffered s l (whole_blocks t h' rest))
                  (append_assoc a piece rest ∙ ap (λ l. a ++ l) (take-append-drop (64 - n) input))
                  (Buffered-trans rest (whole_blocks t h' rest) block
                    (whole_blocks-Buffered h' rest len))))
        | inr few ↦
            (let short : n + length input < 64 =
                subst (λ k. k < 64) small (lt_of_leb 64 ((n + length input) % 2 ^ bits) few) in
              subst (Buffered s (a ++ input)) (sym (left_over_few bits n h input few))
                (extended-Buffered h p input short))
      ]
