-- ===== src/Crypto/Adler32/Update.antt =====
-- `update`, whose reductions are put off, against the checksum's definition.
use innoextract_wasm.Base.Bits.{bit_or_fields}
use innoextract_wasm.Base.Words.{IsByte, IsBytes, u16, u32}
use innoextract_wasm.Base.{
  ℕ, ◌+◌, ◌*◌, ◌/◌, ◌%◌, ◌^◌, ◌≤◌, ◌<◌, ◌≡◌, ◌≢◌, refl, sym, ◌∙◌, ap, ap₂, inl, inr, List, [], ◌∷◌,
  ◌++◌, arith, length, length-append, All-split, All-append, subst, ◌==◌, ==_iff, Bool-cases,
  bit_or,
}
use innoextract_wasm.Crypto.Adler32.Growth.{reference, add_all, mod_base, bound, add_all-Grows}
use innoextract_wasm.Crypto.Adler32.{
  Sums, base, reduced, init, add, head_loop, head, round_end, block_loop, update,
}

-- The head loop takes the bytes up to a multiple of eight.
record Split (m : ℕ) (s : Sums) (xs : List ℕ) (result : Sums × List ℕ) : Type 0 where
  first : List ℕ
  splits : xs ≡ first ++ result.1
  first_length : length first ≡ length xs % 8
  sums : result.0 ≡ add_all m s first

-- Reduced sums, with `n` bytes to come; `s2` has room for the bytes up to its next reduction.
record IsReady (s : Sums) (n : ℕ) : Type 0 where
  s1_lt : s.s1 < base
  s2_room : s.s2 + n % 0x8000 * bound ≤ 65520 + 0x8000 * bound
  s2_done : n % 0x8000 ≡ 0 → s.s2 < base
  whole : n % 8 ≡ 0

head_loop-Split :
    (m : ℕ) (s : Sums) (xs : List ℕ) → length xs % 8 ≢ 0 → Split m s xs (head_loop m s xs)
unfolding head_loop add_all
head_loop-Split m s [] h = absurd (h refl)
head_loop-Split m s (x ∷ xs) h = elim (Bool-cases (length xs % 8 == 0)) [
  | inl done ↦
      rw done (record { first = x ∷ []; splits = refl; first_length = ground arith; sums = refl })
  | inr more ↦
      let rest = head_loop-Split m (add m s x) xs (ground arith) in
      rw more (record {
        first = x ∷ rest.first;
        splits = ap (◌∷◌ x) rest.splits;
        first_length = ground (arith, rest.first_length);
        sums = rest.sums;
      })
]

-- One round of eight bytes from a ready state.
round-IsReady :
    (m : ℕ) (s : Sums) (xs : List ℕ) (n : ℕ)
    → 2 ^ 32 ≤ m
    → length xs ≡ 8
    → IsBytes xs
    → IsReady s (8 + n)
    → IsReady (round_end (add_all m s xs) n) n
      × (mod_base (round_end (add_all m s xs) n) ≡ reference (mod_base s) xs)
unfolding round_end
round-IsReady m s xs n hm e b r =
    let grows = add_all-Grows m s xs b (omega (arith, r.s1_lt)) (omega (arith, r.s2_done)) in
    (
      record {
        s1_lt = ground (arith, grows.s1_le, r.s1_lt);
        s2_room = ground (arith, grows.s2_le, r.s2_room, r.s2_done, r.whole);
        s2_done = λ z. ground (arith, z);
        whole = omega (arith, r.whole);
      },
      same (add_all m s xs) grows.s1_le ∙ grows.same,
    )
  where
    same : (t : Sums) → t.s1 ≤ s.s1 + 255 * length xs → mod_base (round_end t n) ≡ mod_base t
    same t h = ground (arith, r.s1_lt)

abbrev octet : (x0 x1 x2 x3 x4 x5 x6 x7 : ℕ) → List ℕ
octet x0 x1 x2 x3 x4 x5 x6 x7 = x0 ∷ x1 ∷ x2 ∷ x3 ∷ x4 ∷ x5 ∷ x6 ∷ x7 ∷ []

block_loop-octet :
    (m : ℕ) (s : Sums) (x0 x1 x2 x3 x4 x5 x6 x7 : ℕ) (rest : List ℕ)
    → block_loop m s (octet x0 x1 x2 x3 x4 x5 x6 x7 ++ rest)
      ≡ block_loop m (round_end (add_all m s (octet x0 x1 x2 x3 x4 x5 x6 x7)) (length rest)) rest
unfolding block_loop add_all
block_loop-octet m s x0 x1 x2 x3 x4 x5 x6 x7 rest = refl

reference-append :
    (s : Sums) (xs ys : List ℕ) → reference s (xs ++ ys) ≡ reference (reference s xs) ys
unfolding reference
reference-append s [] ys = refl
reference-append s (x ∷ xs) ys =
    reference-append (record { s1 = (s.s1 + x) % base; s2 = (s.s2 + (s.s1 + x) % base) % base }) xs
      ys

-- The main loop adds what the definition adds, from any ready state.
block_loop-reference :
    (m : ℕ) (s : Sums) (xs : List ℕ)
    → 2 ^ 32 ≤ m
    → IsBytes xs
    → IsReady s (length xs)
    → block_loop m s xs ≡ reference (mod_base s) xs
block_loop-reference m s (x0 ∷ x1 ∷ x2 ∷ x3 ∷ x4 ∷ x5 ∷ x6 ∷ x7 ∷ rest) hm b r =
    let block = octet x0 x1 x2 x3 x4 x5 x6 x7 in
    let ready =
      round-IsReady m s block (length rest) hm (omega arith) (omega (arith, b)) (rw add_8 r) in
    block_loop-octet m s x0 x1 x2 x3 x4 x5 x6 x7 rest
    ∙ block_loop-reference m (round_end (add_all m s block) (length rest)) rest hm b.1.1.1.1.1.1.1.1
        ready.0
    ∙ ap (λ t. reference t rest) ready.1
    ∙ sym (reference-append (mod_base s) block rest)
  where
    add_8 : 8 + length rest ≡ length (octet x0 x1 x2 x3 x4 x5 x6 x7 ++ rest)
    add_8 = omega arith
block_loop-reference m s [] hm b r =
    unfold block_loop reference in ground (arith, r.s1_lt, r.s2_done)
block_loop-reference m s xs hm b r = absurd (omega (arith, r.whole))

Prepares : ℕ → Sums → List ℕ → Sums × List ℕ → Type 0
Prepares m s xs (t, rest) =
    IsReady t (length rest)
    × IsBytes rest
    × (reference (mod_base t) rest ≡ reference (mod_base s) xs)

Split-Prepares :
    (m : ℕ) (s t : Sums) (xs rest : List ℕ)
    → 2 ^ 32 ≤ m
    → IsBytes xs
    → s.s1 < base
    → s.s2 < base
    → Split m s xs (t, rest)
    → Prepares m s xs (record { s1 = reduced t.s1; s2 = t.s2 % base }, rest)
unfolding Prepares
Split-Prepares m s t xs rest hm b h k sp =
    let bytes = All-split IsByte sp.first rest (subst IsBytes sp.splits b) in
    let grows =
      add_all-Grows m s sp.first bytes.0 (omega (arith, sp.first_length))
        (omega (arith, sp.first_length)) in
    let size = ap length sp.splits ∙ length-append sp.first rest in
    (
      record {
        s1_lt = ground (arith, grows.s1_le, sp.sums, sp.first_length);
        s2_room = omega arith;
        s2_done = λ z. omega arith;
        whole = omega (arith, size, sp.first_length);
      },
      bytes.1,
      ap (λ u. reference u rest) (same t (rw sp.sums (omega (arith, grows.s1_le, sp.first_length))))
          ∙ ap (λ u. reference (mod_base u) rest) sp.sums
          ∙ ap (λ u. reference u rest) grows.same
          ∙ sym (reference-append (mod_base s) sp.first rest)
          ∙ ap (reference (mod_base s)) (sym sp.splits),
    )
  where
    same :
        (t : Sums)
        → t.s1 < 2 * base
        → mod_base (record { s1 = reduced t.s1; s2 = t.s2 % base }) ≡ mod_base t
    same t h = ground arith

head-Prepares :
    (m : ℕ) (s : Sums) (xs : List ℕ)
    → 2 ^ 32 ≤ m
    → IsBytes xs
    → s.s1 < base
    → s.s2 < base
    → Prepares m s xs (head m s xs)
unfolding head
head-Prepares m s xs hm b h k = elim (Bool-cases (length xs % 8 == 0)) [
  | inl whole ↦ rw whole (
      unfold Prepares in
      (
        record {
          s1_lt = h;
          s2_room = omega arith;
          s2_done = λ z. k;
          whole = (==_iff (length xs % 8) 0).0 whole;
        },
        b,
        refl,
      ))
  | inr more ↦ rw more (
      Split-Prepares m s (head_loop m s xs).0 xs (head_loop m s xs).1 hm b h k
        (head_loop-Split m s xs (ground arith)))
]

-- The two halves of a checksum word, reduced.
abbrev pub halves : ℕ → Sums
halves state = record { s1 = u16 state; s2 = u16 (state / 2 ^ 16) }

abbrev pub pack : Sums → ℕ
pack s = s.s2 * 2 ^ 16 + s.s1

abbrev pub IsReduced : Sums → Type 0
IsReduced s = (s.s1 < base) × (s.s2 < base)

reference-IsReduced : (s : Sums) (xs : List ℕ) → IsReduced s → IsReduced (reference s xs)
unfolding reference
reference-IsReduced s [] h = h
reference-IsReduced s (x ∷ xs) h =
    reference-IsReduced (record { s1 = (s.s1 + x) % base; s2 = (s.s2 + (s.s1 + x) % base) % base })
      xs (omega arith)

mod_base_self : (s : Sums) → IsReduced s → mod_base s ≡ s
mod_base_self s h = ground arith

pack-IsReduced : (s : Sums) → IsReduced s → (halves (pack s) ≡ s) × (pack s < 2 ^ 32)
pack-IsReduced s h = (ground arith, omega arith)

-- On every platform whose `uint_fast32_t` has 32 bits or more, `update` takes a checksum with
-- reduced halves to the checksum that reducing both sums after each byte gives.
pub update-reference :
    (m state : ℕ) (xs : List ℕ)
    → 2 ^ 32 ≤ m
    → IsReduced (halves state)
    → IsBytes xs
    → update m state xs ≡ pack (reference (halves state) xs)
unfolding update Prepares
update-reference m state xs hm h b =
    let start = head m (halves state) xs in
    let ready : Prepares m (halves state) xs start =
      head-Prepares m (halves state) xs hm b h.0 h.1 in
    let sums =
      block_loop-reference m start.0 start.1 hm ready.1 ready.0
      ∙ ready.2
      ∙ ap (λ s. reference s xs) (mod_base_self (halves state) h) in
    ap join sums ∙ join_reduced _ (reference-IsReduced (halves state) xs h)
  where
    join : Sums → ℕ
    join s = bit_or (u32 (u32 s.s2 * 2 ^ 16)) (u16 s.s1)

    join_reduced : (s : Sums) → IsReduced s → join s ≡ pack s
    join_reduced s v = omega (
      arith,
      bit_or_fields 16 s.s2 s.s1 (omega arith),
      ap₂ bit_or {x = u32 (u32 s.s2 * 2 ^ 16)} {y = s.s2 * 2 ^ 16} {u = u16 s.s1} {v = s.s1}
          (omega arith) (omega arith),
    )

-- Bytes that come in two pieces give the checksum of the whole, from a checksum with reduced halves on
-- and where `uint_fast32_t` has 32 bits or more.
pub update-update :
    (m state : ℕ) (xs ys : List ℕ)
    → 2 ^ 32 ≤ m
    → IsReduced (halves state)
    → IsBytes xs
    → IsBytes ys
    → update m (update m state xs) ys ≡ update m state (xs ++ ys)
update-update m state xs ys hm h bx bz =
    let whole = reference-IsReduced (halves state) xs h in
    let middle = pack-IsReduced (reference (halves state) xs) whole in
    ap (λ t. update m t ys) (update-reference m state xs hm h bx)
    ∙ update-reference m (pack (reference (halves state) xs)) ys hm
        (subst IsReduced (sym middle.0) whole) bz
    ∙ ap (λ t. pack (reference t ys)) middle.0
    ∙ ap pack (sym (reference-append (halves state) xs ys))
    ∙ sym (update-reference m state (xs ++ ys) hm h (All-append IsByte xs ys bx bz))

-- `init` is a checksum with reduced halves.
pub init-IsReduced : IsReduced (halves init)
unfolding init
init-IsReduced = omega arith
