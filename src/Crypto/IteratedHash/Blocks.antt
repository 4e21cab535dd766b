-- ===== src/Crypto/IteratedHash/Blocks.antt =====
-- What the loop of `hash` in src/crypto/iteratedhash.hpp does to whole blocks, and what copies into
-- the buffer leave there.
use innoextract_wasm.Base.{
  drop-all, take-prefix, lt_of_leb, ℕ, zero, suc, ◌+◌, ◌-◌, ◌*◌, ◌≤◌, ◌<◌, true, false, List, [],
  ◌∷◌, ◌++◌, append_assoc, append-nil, length, take, drop, All, All-append, length-append,
  length-take, length-drop, take-append-drop, drop-append, drop-drop, leb, leb→le, ◌≡◌, refl, sym,
  ap, ap₂, subst, ◌∙◌, Bool-cases, inl, inr, arith,
}
use innoextract_wasm.Crypto.IteratedHash.{
  Transform, block_size, hash_block, hash_loop, hash, write_at,
}

module _ (buffer : List ℕ) (place : ℕ) (bytes : List ℕ) where
  length-placed : place ≤ length buffer → length (take place buffer ++ bytes) ≡ place + length bytes
  length-placed h = omega (arith, length-append (take place buffer) bytes, length-take place buffer)

  -- What stands before the copied bytes, and these.
  pub take-write_at :
      place ≤ length buffer
      → take (place + length bytes) (write_at buffer place bytes) ≡ take place buffer ++ bytes
  unfolding write_at
  take-write_at h =
      ap (take (place + length bytes))
        (sym (append_assoc (take place buffer) bytes (drop (place + length bytes) buffer)))
      ∙ take-prefix (place + length bytes) (take place buffer ++ bytes)
          (drop (place + length bytes) buffer) (sym (length-placed h))

  pub length-write_at :
      place + length bytes ≤ length buffer → length (write_at buffer place bytes) ≡ length buffer
  unfolding write_at
  length-write_at h = omega (
    arith,
    length-append (take place buffer) (bytes ++ drop (place + length bytes) buffer),
    length-append bytes (drop (place + length bytes) buffer),
    length-take place buffer,
    length-drop (place + length bytes) buffer,
  )

  -- Bytes that reach to the end of the buffer.
  pub write_at-end :
      place + length bytes ≡ length buffer
      → write_at buffer place bytes ≡ take place buffer ++ bytes
  unfolding write_at
  write_at-end h =
      ap (λ l. take place buffer ++ (bytes ++ l))
        (drop-all (place + length bytes) buffer (omega arith))
      ∙ ap (λ l. take place buffer ++ l) (append-nil bytes)

pub drop-prefix : (k : ℕ) (l more : List ℕ) → k ≡ length l → drop k (l ++ more) ≡ more
drop-prefix k l more h = ap (λ n. drop n (l ++ more)) h ∙ drop-append l more

module _ (buffer : List ℕ) (place : ℕ) (bytes : List ℕ) where
  -- What stands behind the copied bytes is left as it was.
  pub drop-write_at :
      place ≤ length buffer
      → drop (place + length bytes) (write_at buffer place bytes)
        ≡ drop (place + length bytes) buffer
  unfolding write_at
  drop-write_at h =
      ap (drop (place + length bytes))
        (sym (append_assoc (take place buffer) bytes (drop (place + length bytes) buffer)))
      ∙ drop-prefix (place + length bytes) (take place buffer ++ bytes)
          (drop (place + length bytes) buffer) (sym (length-placed buffer place bytes h))

  -- Two copies, one behind the other, are one.
  pub write_at-write_at :
      (more : List ℕ)
      → place ≤ length buffer
      → write_at (write_at buffer place bytes) (place + length bytes) more
        ≡ write_at buffer place (bytes ++ more)
  unfolding write_at
  write_at-write_at more h =
      let n = place + length bytes in
      let low = write_at buffer place bytes in
      ap₂ (λ l r. l ++ (more ++ r)) (take-write_at buffer place bytes h)
        (sym (drop-drop n (length more) low)
          ∙ ap (drop (length more)) (drop-write_at h)
          ∙ drop-drop n (length more) buffer
          ∙ ap (λ k. drop k buffer) {x = n + length more} {y = place + length (bytes ++ more)}
              (omega (arith, length-append bytes more)))
      ∙ append_assoc (take place buffer) bytes
          (more ++ drop (place + length (bytes ++ more)) buffer)
      ∙ ap (λ l. take place buffer ++ l)
          (sym (append_assoc bytes more (drop (place + length (bytes ++ more)) buffer)))

abbrev pub concat : List (List ℕ) → List ℕ
concat [] = []
concat (b ∷ bs) = b ++ concat bs

concat-append : (xs ys : List (List ℕ)) → concat (xs ++ ys) ≡ concat xs ++ concat ys
concat-append [] ys = refl
concat-append (x ∷ xs) ys =
    ap (λ l. x ++ l) (concat-append xs ys) ∙ sym (append_assoc x (concat xs) (concat ys))

abbrev pub IsBlock : List ℕ → Type 0
IsBlock b = length b ≡ block_size

length-concat :
    (blocks : List (List ℕ)) → All IsBlock blocks → (k : ℕ) × (length (concat blocks) ≡ k * 64)
length-concat [] h = (0, refl)
length-concat (b ∷ bs) h =
    let (k, e) = length-concat bs h.1 in (suc k, omega (arith, e, h.0, length-append b (concat bs)))

module _ (t : Transform) where
  abbrev pub fold_blocks : List ℕ → List (List ℕ) → List ℕ
  fold_blocks s [] = s
  fold_blocks s (b ∷ bs) = fold_blocks (hash_block t s b) bs

  fold_blocks-append :
      (s : List ℕ) (xs ys : List (List ℕ))
      → fold_blocks s (xs ++ ys) ≡ fold_blocks (fold_blocks s xs) ys
  fold_blocks-append s [] ys = refl
  fold_blocks-append s (x ∷ xs) ys = fold_blocks-append (hash_block t s x) xs ys

  -- From state `s`, whole blocks of the input lead to state `s'`, and the rest is left over.
  pub record Absorbed (s input s' rest : List ℕ) : Type 0 where
    pub blocks : List (List ℕ)
    pub whole : input ≡ concat blocks ++ rest
    pub sized : All IsBlock blocks
    pub folded : s' ≡ fold_blocks s blocks

  pub kept : (s input : List ℕ) → Absorbed s input s input
  kept s input = record { blocks = []; whole = refl; sized = tt; folded = refl }

  -- What is left over comes first in what is hashed next.
  pub Absorbed-trans :
      {s a s₁ r : List ℕ} (b : List ℕ) {s₂ r₂ : List ℕ}
      → Absorbed s a s₁ r
      → Absorbed s₁ (r ++ b) s₂ r₂
      → Absorbed s (a ++ b) s₂ r₂
  Absorbed-trans {s} {a} {s₁} {r} b {s₂} {r₂} p q = record {
    blocks = p.blocks ++ q.blocks;
    whole =
        ap (λ l. l ++ b) p.whole
        ∙ append_assoc (concat p.blocks) r b
        ∙ ap (λ l. concat p.blocks ++ l) q.whole
        ∙ sym (append_assoc (concat p.blocks) (concat q.blocks) r₂)
        ∙ ap (λ l. l ++ r₂) (sym (concat-append p.blocks q.blocks));
    sized = All-append IsBlock p.blocks q.blocks p.sized q.sized;
    folded =
        q.folded
        ∙ ap (λ l. fold_blocks l q.blocks) p.folded
        ∙ sym (fold_blocks-append s p.blocks q.blocks);
  }

  pub length-Absorbed :
      {s input s' rest : List ℕ}
      → Absorbed s input s' rest
      → (k : ℕ) × (length input ≡ k * 64 + length rest)
  length-Absorbed {s} {input} {s'} {rest} p =
      let (k, e) = length-concat p.blocks p.sized in
      (k, omega (arith, e, ap length p.whole, length-append (concat p.blocks) rest))

  abbrev pub Absorbs : List ℕ → List ℕ → List ℕ × List ℕ → Type 0
  Absorbs s input r = Absorbed s input r.0 r.1 × (length r.1 < block_size)

  after_first :
      (s input s' rest : List ℕ)
      → block_size ≤ length input
      → Absorbed (hash_block t s (take block_size input)) (drop block_size input) s' rest
      → Absorbed s input s' rest
  after_first s input s' rest h p = record {
    blocks = take block_size input ∷ p.blocks;
    whole =
        sym (take-append-drop block_size input)
        ∙ ap (λ l. take block_size input ++ l) p.whole
        ∙ sym (append_assoc (take block_size input) (concat p.blocks) rest);
    sized = (omega (arith, length-take block_size input), p.sized);
    folded = p.folded;
  }

  hash_loop_more :
      (fuel : ℕ) (s input : List ℕ)
      → leb block_size (length (drop block_size input)) ≡ true
      → hash_loop t (suc fuel) s input
        ≡ hash_loop t fuel (hash_block t s (take block_size input)) (drop block_size input)
  unfolding hash_loop
  hash_loop_more fuel s input h = rw (hash_loop, h) refl

  hash_loop_last :
      (fuel : ℕ) (s input : List ℕ)
      → leb block_size (length (drop block_size input)) ≡ false
      → hash_loop t (suc fuel) s input
        ≡ (hash_block t s (take block_size input), drop block_size input)
  unfolding hash_loop
  hash_loop_last fuel s input h = rw (hash_loop, h) refl

  hash_loop-Absorbs :
      (fuel : ℕ) (s input : List ℕ)
      → length input ≤ fuel
      → block_size ≤ length input
      → Absorbs s input (hash_loop t fuel s input)
  hash_loop-Absorbs zero s input h p = absurd (omega arith)
  hash_loop-Absorbs (suc fuel) s input h p =
      let s' = hash_block t s (take block_size input) in
      let rest = drop block_size input in
      let len : length rest ≡ length input - 64 = length-drop 64 input in
      elim (Bool-cases (leb block_size (length rest))) [
        | inl more ↦
            (let later =
                hash_loop-Absorbs fuel s' rest (omega arith) (leb→le 64 (length rest) more) in
              subst (Absorbs s input) (sym (hash_loop_more fuel s input more)) (
                after_first s input (hash_loop t fuel s' rest).0 (hash_loop t fuel s' rest).1 p
                    later.0,
                later.1,
              ))
        | inr done ↦
            subst (Absorbs s input) (sym (hash_loop_last fuel s input done))
              (after_first s input s' rest p (kept s' rest), lt_of_leb 64 (length rest) done)
      ]

  -- The loop hashes all whole blocks of an input of at least one.
  pub hash-Absorbs :
      (s input : List ℕ) → block_size ≤ length input → Absorbs s input (hash t s input)
  unfolding hash
  hash-Absorbs s input h = hash_loop-Absorbs (length input) s input (omega arith) h
