-- ===== src/Crypto/Arc4/Textbook.antt =====
-- The cipher of src/crypto/arc4.cpp against its textbook form: a permutation as a function, and the key
-- stream as a list of its own.
use innoextract_wasm.Base.{
  ℕ, zero, suc, ◌+◌, ◌%◌, ◌<◌, List, [], ◌∷◌, some, bit_xor, get_or, length, drop, ◌==◌,
  if◌then◌else◌, ◌≡◌, refl, sym, ap, ap₂, ◌∙◌, subst, arith,
}
use innoextract_wasm.Crypto.Arc4.{
  Arc4, at, swap, identity, schedule, init, update, discard, key_byte, crypt,
}
use innoextract_wasm.Crypto.Arc4.Schedule.{at-swap, length-swap, length-identity, at-identity}

-- A table with two places exchanged.
abbrev pub exchanged : (ℕ → ℕ) → ℕ → ℕ → ℕ → ℕ
exchanged S i j k = if k == i then S j else if k == j then S i else S k

-- The table that a key sets up, with so many rounds left.
pub key_table : List ℕ → ℕ → ℕ → ℕ → (ℕ → ℕ) → ℕ → ℕ
key_table key zero i j S = S
key_table key (suc n) i j S =
    let j' = (j + S i + get_or key (i % length key) 0) % 256 in
    key_table key n (i + 1) j' (exchanged S i j')

-- So many bytes of the key stream of a table and two indices.
pub key_stream : (ℕ → ℕ) → ℕ → ℕ → ℕ → List ℕ
key_stream S i j zero = []
key_stream S i j (suc n) =
    let i' = (i + 1) % 256 in
    let j' = (j + S i') % 256 in
    let S' = exchanged S i' j' in S' ((S' i' + S' j') % 256) ∷ key_stream S' i' j' n

-- The bytes of two lists combined.
pub combined : List ℕ → List ℕ → List ℕ
combined (k ∷ ks) (x ∷ xs) = bit_xor k x ∷ combined ks xs
combined ks xs = []

record Agrees (s : List ℕ) (S : ℕ → ℕ) : Type 0 where
  pub size : length s ≡ 256
  pub same : (k : ℕ) → k < 256 → at s k ≡ S k

swap-Agrees :
    (s : List ℕ) (S : ℕ → ℕ) (i j : ℕ)
    → i < 256
    → j < 256
    → Agrees s S
    → Agrees (swap s i j) (exchanged S i j)
swap-Agrees s S i j p q v = record {
  size = length-swap s i j ∙ v.size;
  same = λ k h. ground (arith, v.size, at-swap s i j k, v.same i p, v.same j q, v.same k h);
}

schedule-Agrees :
    (key : List ℕ) (n i j : ℕ) (s : List ℕ) (S : ℕ → ℕ)
    → i + n ≡ 256
    → Agrees s S
    → Agrees (schedule key n i j s) (key_table key n i j S)
unfolding schedule key_table
schedule-Agrees key zero i j s S e v = v
schedule-Agrees key (suc n) i j s S e v =
    let next = (j + at s i + at key (i % length key)) % 256 in
    let next' = (j + S i + get_or key (i % length key) 0) % 256 in
    let same : next ≡ next' =
      ap (λ x. (j + x + at key (i % length key)) % 256) (v.same i (omega arith)) in
    subst
      (λ x.
        Agrees (schedule key n (i + 1) x (swap s i x))
          (key_table key n (i + 1) next' (exchanged S i next')))
      (sym same)
      (schedule-Agrees key n (i + 1) next' (swap s i next') (exchanged S i next') (omega arith)
        (swap-Agrees s S i next' (omega arith) (omega arith) v))

identity-Agrees : Agrees (identity 256 0) (λ i. i)
identity-Agrees = record {
  size = length-identity 256 0;
  same = λ k h. omega (arith, at-identity 256 0 k h);
}

-- A state whose table is the given one.
abbrev Runs : Arc4 → (ℕ → ℕ) → ℕ → ℕ → Type 0
Runs r S i j = Agrees r.state S × (r.a ≡ i) × (r.b ≡ j)

module _ (r : Arc4) (S : ℕ → ℕ) (i j : ℕ) (v : Runs r S i j) where
  abbrev next_i : ℕ
  next_i = (i + 1) % 256

  abbrev next_j : ℕ
  next_j = (j + S next_i) % 256

  same_i : (r.a + 1) % 256 ≡ next_i
  same_i = omega (arith, v.1)

  same_j : (r.b + at r.state ((r.a + 1) % 256)) % 256 ≡ next_j
  same_j =
      ap (λ x. (r.b + at r.state x) % 256) same_i
      ∙ ap₂ (λ x y. (x + y) % 256) v.2 (v.0.same next_i (omega arith))

  update-Runs : Runs (update r) (exchanged S next_i next_j) next_i next_j
  unfolding update
  update-Runs = (
    subst (λ x. Agrees (swap r.state ((r.a + 1) % 256) x) (exchanged S next_i next_j)) (sym same_j)
        (subst (λ x. Agrees (swap r.state x next_j) (exchanged S next_i next_j)) (sym same_i)
          (swap-Agrees r.state S next_i next_j (omega arith) (omega arith) v.0)),
    same_i,
    same_j,
  )

key_byte-Runs :
    (r : Arc4) (S : ℕ → ℕ) (i j : ℕ)
    → i < 256
    → j < 256
    → Runs r S i j
    → key_byte r ≡ S ((S i + S j) % 256)
unfolding key_byte
key_byte-Runs r S i j p q v =
    ap₂ (λ x y. at r.state ((at r.state x + at r.state y) % 256)) v.1 v.2
    ∙ ap₂ (λ x y. at r.state ((x + y) % 256)) (v.0.same i p) (v.0.same j q)
    ∙ v.0.same ((S i + S j) % 256) (omega arith)

crypt-Runs :
    (r : Arc4) (S : ℕ → ℕ) (i j : ℕ) (xs : List ℕ)
    → Runs r S i j
    → (crypt r xs).0 ≡ combined (key_stream S i j (length xs)) xs
unfolding crypt key_stream combined
crypt-Runs r S i j [] v = refl
crypt-Runs r S i j (x ∷ xs) v =
    let i' = (i + 1) % 256 in
    let j' = (j + S i') % 256 in
    let v' = update-Runs r S i j v in
    ap₂ (λ k l. bit_xor k x ∷ l)
      (key_byte-Runs (update r) (exchanged S i' j') i' j' (omega arith) (omega arith) v')
      (crypt-Runs (update r) (exchanged S i' j') i' j' xs v')

discard-Runs :
    (n : ℕ) (r : Arc4) (S : ℕ → ℕ) (i j : ℕ) (xs : List ℕ)
    → Runs r S i j
    → (crypt (discard r n) xs).0 ≡ combined (drop n (key_stream S i j (n + length xs))) xs
unfolding discard key_stream
discard-Runs zero r S i j xs v =
    crypt-Runs r S i j xs v
    ∙ ap (λ n. combined (key_stream S i j n) xs) {x = length xs} {y = 0 + length xs} (omega arith)
discard-Runs (suc n) r S i j xs v =
    let i' = (i + 1) % 256 in
    let j' = (j + S i') % 256 in
    discard-Runs n (update r) (exchanged S i' j') i' j' xs (update-Runs r S i j v)
    ∙ ap (λ m. combined (drop (suc n) (key_stream S i j m)) xs) {x = suc (n + length xs)}
        {y = suc n + length xs} (omega arith)

-- With a key that is not empty, what is encrypted after so many key bytes are discarded is the input
-- combined, byte by byte, with the textbook key stream of the key behind as many bytes.
pub crypt-key_stream :
    (key : List ℕ) (n : ℕ) (xs : List ℕ)
    → 0 < length key
    → (r : Arc4) × (init key ≡ some r)
      × ((crypt (discard r n) xs).0
          ≡ combined (drop n (key_stream (key_table key 256 0 0 (λ i. i)) 0 0 (n + length xs))) xs)
unfolding init
crypt-key_stream key n xs h =
    let r : Arc4 = record { state = schedule key 256 0 0 (identity 256 0); a = 0; b = 0 } in
    (
      r,
      ground arith,
      discard-Runs n r (key_table key 256 0 0 (λ i. i)) 0 0 xs (
        schedule-Agrees key 256 0 0 (identity 256 0) (λ i. i) (omega arith) identity-Agrees,
        refl,
        refl,
      ),
    )
