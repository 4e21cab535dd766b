-- ===== src/Setup/Load/Flags/Agree.antt =====
-- `stored_flag_reader` reads what `stored_flags` reads (src/util/storedenum.hpp).
use innoextract_wasm.Base.{
  ℕ, zero, suc, ◌+◌, ◌%◌, ◌≤◌, ◌<◌, Bool, true, false, List, [], ◌∷◌, ◌++◌, Option, none, some,
  length, ◌==◌, if◌then◌else◌, ◌≡◌, refl, sym, ap, ap₂, ◌∙◌, append_assoc, append-nil, arith,
  All-split, subst, Bool-cases, inl, inr,
}
use innoextract_wasm.Base.Words.{IsByte, IsBytes}
use innoextract_wasm.Setup.Load.Pieces.{IsRead, read-IsRead}
use innoextract_wasm.Setup.Load.{give, ◌>>=◌, load_u8, read}
use innoextract_wasm.Setup.Load.Flags.{
  bit, lower_bits, select, padding, stored_flags, FlagReader, add_bit, add, add_all, flag_reader,
}
use innoextract_wasm.Setup.Load.Flags.Picked.{chosen, need, picked, lower_bits-all, picked-start}

-- The flags and the number of bytes that a reader has, and what is left of the stream.
abbrev Seen : Type 0 → Type 0
Seen F = Option ((List F × ℕ) × List ℕ)

abbrev seen : {F : Type 0} → Option (FlagReader F × List ℕ) → Seen F
seen none = none
seen (some (r, rest)) = some ((r.result, r.bytes), rest)

abbrev reader_at : {F : Type 0} → (pos buffer : ℕ) → List F → ℕ → FlagReader F
reader_at pos buffer result n = record { pos = pos; buffer = buffer; result = result; bytes = n }

-- The same from `k` bytes that were read.
abbrev from_bytes : {F : Type 0} → FlagReader F → ℕ → List F → Option (List ℕ × List ℕ) → Seen F
from_bytes r k fs none = none
from_bytes r k fs (some (bs, rest)) =
    some ((r.result ++ picked r.pos r.buffer bs fs, r.bytes + k), rest)

append-chosen :
    {F : Type 0} (c : Bool) (f : F) (result fs : List F)
    → (if c then result ++ f ∷ [] else result) ++ fs ≡ result ++ chosen c f fs
append-chosen true f result fs = append_assoc result (f ∷ []) fs
append-chosen false f result fs = refl

need-nil : (pos : ℕ) → pos < 8 → need pos 0 ≡ 0
unfolding need
need-nil zero h = refl
need-nil (suc pos) h = omega arith

need-start : (count : ℕ) → need 0 (suc count) ≡ suc (need 1 count)
unfolding need
need-start count = omega arith

need-seven : (count : ℕ) → need 7 (suc count) ≡ need 0 count
unfolding need
need-seven count = omega arith

need-next : (pos count : ℕ) → need (suc pos) (suc count) ≡ need (suc (suc pos)) count
unfolding need
need-next pos count = omega arith

need-inner :
    (pos count : ℕ) → suc pos < 8 → need (suc pos) (suc count) ≡ need ((suc pos + 1) % 8) count
need-inner pos count h = elim (Bool-cases (suc pos == 7)) [
  | inl last ↦
      (ap (λ p. need (suc p) (suc count)) {x = pos} {y = 6} (ground arith)
        ∙ need-seven count
        ∙ ap (λ p. need p count) {x = 0} {y = (suc pos + 1) % 8} (ground arith))
  | inr inner ↦
      (need-next pos count
        ∙ ap (λ p. need p count) {x = suc (suc pos)} {y = (suc pos + 1) % 8} (ground arith))
]

-- One more bit behind the byte that holds it.
step_start :
    {F : Type 0} (f : F) (fs : List F) (b buffer : ℕ) (result : List F) (n k : ℕ)
    (o : Option (List ℕ × List ℕ))
    → from_bytes (reader_at 1 b (if bit b 0 then result ++ f ∷ [] else result) (n + 1)) k fs o
      ≡ from_bytes
          (reader_at 0 buffer result n)
          (suc k)
          (f ∷ fs)
          (elim o [ none ↦ none | some (bs, rest) ↦ some (b ∷ bs, rest) ])
unfolding picked
step_start f fs b buffer result n k none = refl
step_start f fs b buffer result n k (some (bs, rest)) =
    ap₂ (λ l m. some ((l, m), rest)) (append-chosen (bit b 0) f result (picked 1 b bs fs))
      (omega arith)

step_inner :
    {F : Type 0} (f : F) (fs : List F) (pos buffer : ℕ) (result : List F) (n k : ℕ)
    (o : Option (List ℕ × List ℕ))
    → from_bytes
        (reader_at
          ((suc pos + 1) % 8)
          buffer
          (if bit buffer (suc pos) then result ++ f ∷ [] else result)
          n)
        k
        fs
        o
      ≡ from_bytes (reader_at (suc pos) buffer result n) k (f ∷ fs) o
unfolding picked
step_inner f fs pos buffer result n k none = refl
step_inner f fs pos buffer result n k (some (bs, rest)) =
    ap (λ l. some ((l, n + k), rest))
      (append-chosen (bit buffer (suc pos)) f result (picked ((suc pos + 1) % 8) buffer bs fs))

nonzero : (pos : ℕ) → (suc pos == 0) ≡ false
nonzero pos = ground arith

-- Inside a byte nothing is read.
add-inner :
    {F : Type 0} (f : F) (pos buffer : ℕ) (result : List F) (n : ℕ) (bytes : List ℕ)
    → add f (reader_at (suc pos) buffer result n) bytes
      ≡ some (add_bit f (reader_at (suc pos) buffer result n), bytes)
unfolding add
add-inner f pos buffer result n bytes = rw (nonzero pos) refl

add_all-picked :
    {F : Type 0} (fs : List F) (pos buffer : ℕ) (result : List F) (n : ℕ) (bytes : List ℕ)
    → pos < 8
    → seen (add_all fs (reader_at pos buffer result n) bytes)
      ≡ from_bytes
          (reader_at pos buffer result n)
          (need pos (length fs))
          fs
          (read (need pos (length fs)) bytes)
unfolding add_all add add_bit read load_u8 picked
add_all-picked [] pos buffer result n bytes h =
    ap₂ (λ l m. some ((l, m), bytes)) {x = result} {y = result ++ []} {u = n} {v = n + 0}
      (sym (append-nil result)) (omega arith)
    ∙ ap (λ k. from_bytes (reader_at pos buffer result n) k [] (read k bytes))
        (sym (need-nil pos h))
add_all-picked (f ∷ fs) zero buffer result n [] h =
    ap (λ k. from_bytes (reader_at 0 buffer result n) k (f ∷ fs) (read k []))
      {x = suc (need 1 (length fs))} {y = need 0 (length (f ∷ fs))} (sym (need-start (length fs)))
add_all-picked (f ∷ fs) zero buffer result n (b ∷ bytes) h =
    add_all-picked fs 1 b (if bit b 0 then result ++ f ∷ [] else result) (n + 1) bytes (omega arith)
    ∙ step_start f fs b buffer result n (need 1 (length fs)) (read (need 1 (length fs)) bytes)
    ∙ ap (λ k. from_bytes (reader_at 0 buffer result n) k (f ∷ fs) (read k (b ∷ bytes)))
        (sym (need-start (length fs)))
add_all-picked (f ∷ fs) (suc pos) buffer result n bytes h =
    ap (λ o. seen (elim o [ none ↦ none | some (r, rest) ↦ add_all fs r rest ]))
      (add-inner f pos buffer result n bytes)
    ∙ add_all-picked fs ((suc pos + 1) % 8) buffer
        (if bit buffer (suc pos) then result ++ f ∷ [] else result) n bytes (omega arith)
    ∙ step_inner f fs pos buffer result n (need ((suc pos + 1) % 8) (length fs))
        (read (need ((suc pos + 1) % 8) (length fs)) bytes)
    ∙ ap (λ k. from_bytes (reader_at (suc pos) buffer result n) k (f ∷ fs) (read k bytes))
        (sym (need-inner pos (length fs) h))

-- The end of `flag_reader`.
abbrev finish : {F : Type 0} → Bool → Seen F → Option (List F × List ℕ)
finish wide none = none
finish wide (some ((flags, n), rest)) = (read (padding wide n) >>= λ pad. give flags) rest

finish-seen :
    {F : Type 0} (wide : Bool) (o : Option (FlagReader F × List ℕ))
    → elim o [
      | none ↦ none
      | some (r, rest) ↦ (read (padding wide r.bytes) >>= λ pad. give r.result) rest
    ]
      ≡ finish wide (seen o)
finish-seen wide none = refl
finish-seen wide (some (r, rest)) = refl

at_most : (count k : ℕ) → count ≤ 64 → k ≡ need 0 count → k ≤ 8
unfolding need
at_most count k h p = omega arith

agree :
    {F : Type 0} (wide : Bool) (flags : List F) (bytes : List ℕ) (o : Option (List ℕ × List ℕ))
    → length flags ≤ 64
    → IsBytes bytes
    → IsRead (need 0 (length flags)) bytes o
    → finish wide (from_bytes (reader_at 0 0 [] 0) (need 0 (length flags)) flags o) ≡ elim o [
      | none ↦ none
      | some (bits, rest) ↦
          (read (padding wide (need 0 (length flags))) >>= λ pad.
          give (select (lower_bits bits 8) 0 flags))
            rest
    ]
agree wide flags bytes none h hs e = refl
agree wide flags bytes (some (bits, rest)) h hs (p, q) =
    ap₂ (λ k l. (read (padding wide k) >>= λ pad. give l) rest) {x = 0 + need 0 (length flags)}
      {y = need 0 (length flags)} (omega arith)
      (picked-start flags 0 bits (All-split IsByte bits rest (subst IsBytes q hs)).0 p
        ∙ ap (λ n. select n 0 flags)
            (sym (lower_bits-all bits 8 (at_most (length flags) (length bits) h p))))

-- The reader of flags that are known one by one reads the same bytes, and the same flags from them, as
-- the one that is given all flags at once: of at most 64 flags, on any bytes, and also where the bytes
-- run out.
pub flag_reader-stored_flags :
    {F : Type 0} (wide : Bool) (flags : List F) (bytes : List ℕ)
    → length flags ≤ 64
    → IsBytes bytes
    → flag_reader wide flags bytes ≡ stored_flags wide flags bytes
unfolding flag_reader stored_flags need
flag_reader-stored_flags wide flags bytes h hs =
    finish-seen wide (add_all flags (reader_at 0 0 [] 0) bytes)
    ∙ ap (finish wide) (add_all-picked flags 0 0 [] 0 bytes (omega arith))
    ∙ agree wide flags bytes (read (need 0 (length flags)) bytes) h hs
        (read-IsRead (need 0 (length flags)) bytes)
