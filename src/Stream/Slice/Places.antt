-- ===== src/Stream/Slice/Places.antt =====
-- Places in slices, and what copies of some bytes leave of them (src/stream/slice.cpp).
use innoextract_wasm.Base.{
  ℕ, zero, suc, ◌+◌, ◌-◌, ◌^◌, ◌≤◌, ◌<◌, Bool, true, false, ◌||◌, List, [], ◌∷◌, ◌++◌, some, length,
  take, drop, drop-drop, take-take-drop, drop-prefix, ltb, ◌==◌, ◌≡◌, refl, sym, ap, ap₂, ◌∙◌,
  arith,
}
use innoextract_wasm.Base.Words.{u32}
use innoextract_wasm.Stream.Slice.{SliceReader}

-- A reader at a place of an open file.
abbrev pub at_place : SliceReader → List ℕ → ℕ → SliceReader
at_place r content pos = record r {
  stream = some (record { content = content; pos = pos; failed = false });
}

-- A reader that has gone on to the next slice, of this size.
abbrev pub advanced : SliceReader → ℕ → SliceReader
advanced r size = record r {
  current_slice = r.current_slice + 1;
  slice_size = size;
  embedded = false;
}

-- A place within a slice that fits its file.
pub record IsPlace (size : ℕ) (content : List ℕ) (pos : ℕ) : Type 0 where
  pub before : pos ≤ size
  pub inside : size ≤ length content
  pub small : size < 2 ^ 32

abbrev pub slice_data : ℕ → List ℕ → ℕ → List ℕ
slice_data size content pos = take (size - pos) (drop pos content)

pub take_parts :
    (m n : ℕ) (first bytes more : List ℕ)
    → bytes ≡ first ++ more
    → length first ≡ m
    → m ≤ n
    → first ++ take (n - m) more ≡ take n bytes
take_parts m n [] bytes more e h k =
    ap₂ (λ j l. take j l) {x = n - m} {y = n} (omega (arith, h)) (sym e)
take_parts m zero (x ∷ first) bytes more e h k = absurd (omega (arith, h))
take_parts m (suc n) (x ∷ first) bytes more e h k =
    ap₂ (λ j l. x ∷ (first ++ take j l)) {x = suc n - m} {y = n - (m - 1)} (omega (arith, h)) refl
    ∙ ap (◌∷◌ x)
        (take_parts (m - 1) n first (first ++ more) more refl (omega (arith, h)) (omega (arith, h)))
    ∙ ap (take (suc n)) (sym e)

pub drop_parts :
    (m n : ℕ) (first bytes more : List ℕ)
    → bytes ≡ first ++ more
    → length first ≡ m
    → m ≤ n
    → drop (n - m) more ≡ drop n bytes
drop_parts m n first bytes more e h k =
    ap (drop (n - m)) (sym (drop-prefix m first more (sym h)))
    ∙ drop-drop m (n - m) (first ++ more)
    ∙ ap₂ (λ j l. drop j l) {x = m + (n - m)} {y = n} (omega arith) (sym e)

pub take_split : (m n : ℕ) (l : List ℕ) → m ≤ n → take m l ++ take (n - m) (drop m l) ≡ take n l
take_split m n l h =
    take-take-drop m (n - m) l ∙ ap (λ j. take j l) {x = m + (n - m)} {y = n} (omega arith)

pub not_past : (size pos : ℕ) → pos ≤ size → size < 2 ^ 32 → ltb size (u32 pos) ≡ false
not_past size pos h k = ground arith

pub ended : (size pos : ℕ) → pos ≤ size → size < 2 ^ 32 → (size == u32 pos) ≡ true → size ≡ pos
ended size pos h k e = ground arith

pub not_ended : (size pos : ℕ) → pos ≤ size → size < 2 ^ 32 → (size == u32 pos) ≡ false → pos < size
not_ended size pos h k e = ground arith

pub or_true : (b : Bool) → b || true ≡ true
or_true true = refl
or_true false = refl
