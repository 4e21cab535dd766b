-- ===== src/Setup/Load/Pieces.antt =====
-- Reading a string in pieces is reading it at once (src/util/load.cpp).
use innoextract_wasm.Base.{
  ℕ, zero, suc, ◌+◌, ◌-◌, ◌≤◌, min, List, [], ◌∷◌, ◌++◌, Option, none, some, length, ◌==◌, ◌≡◌,
  refl, sym, ap, subst, ◌∙◌, inl, inr, Option-cases, Bool-cases, arith,
}
use innoextract_wasm.Setup.Load.{read, binary_loop}

-- What was read, behind what had been read before.
abbrev after : List ℕ → Option (List ℕ × List ℕ) → Option (List ℕ × List ℕ)
after s none = none
after s (some (t, rest)) = some (s ++ t, rest)

after_nil : (o : Option (List ℕ × List ℕ)) → after [] o ≡ o
after_nil none = refl
after_nil (some (t, rest)) = refl

abbrev then_read : ℕ → Option (List ℕ × List ℕ) → Option (List ℕ × List ℕ)
then_read k none = none
then_read k (some (s, rest)) = after s (read k rest)

after_cons :
    (b : ℕ) (s : List ℕ) (o : Option (List ℕ × List ℕ))
    → after (b ∷ []) (after s o) ≡ after (b ∷ s) o
after_cons b s none = refl
after_cons b s (some (t, left)) = refl

then_read-after :
    (b k : ℕ) (o : Option (List ℕ × List ℕ))
    → after (b ∷ []) (then_read k o) ≡ then_read k (after (b ∷ []) o)
then_read-after b k none = refl
then_read-after b k (some (s, rest)) = after_cons b s (read k rest)

read-suc : (n b : ℕ) (bytes : List ℕ) → read (suc n) (b ∷ bytes) ≡ after (b ∷ []) (read n bytes)
unfolding read
read-suc n b bytes = ground arith

read-split : (m k n : ℕ) (bytes : List ℕ) → m + k ≡ n → read n bytes ≡ then_read k (read m bytes)
unfolding read
read-split zero k n bytes p = ap (λ j. read j bytes) (omega arith) ∙ sym (after_nil (read k bytes))
read-split (suc m) k zero bytes p = ground arith
read-split (suc m) k (suc n) [] p = refl
read-split (suc m) k (suc n) (b ∷ bytes) p =
    read-suc n b bytes
    ∙ ap (after (b ∷ [])) (read-split m k n bytes (omega arith))
    ∙ then_read-after b k (read m bytes)
    ∙ ap (then_read k) (sym (read-suc m b bytes))

-- With as much fuel as bytes are asked for, reading a string in pieces of 10 KiB reads what one read of
-- them all does: the same string and the same rest, and nothing where the bytes run out.
pub binary_loop-read : (f n : ℕ) (bytes : List ℕ) → n ≤ f → binary_loop f n bytes ≡ read n bytes
unfolding binary_loop
binary_loop-read zero n bytes h = ground arith
binary_loop-read (suc f) n bytes h = elim (Bool-cases (n == 0)) [
  | inl z ↦ ground arith
  | inr p ↦ elim (Option-cases (read (min n 10240) bytes)) [
    | inl e ↦
        (let whole = read-split (min n 10240) (n - min n 10240) n bytes (omega arith) in
          ground arith)
    | inr ((piece, rest), e) ↦
        (let whole = read-split (min n 10240) (n - min n 10240) n bytes (omega arith) in
          let later = binary_loop-read f (n - min n 10240) rest (ground arith) in ground arith)
  ]
]

-- What was read has the length that was asked for, and stands before the rest.
abbrev pub IsRead : ℕ → List ℕ → Option (List ℕ × List ℕ) → Type 0
IsRead n bytes none = Unit
IsRead n bytes (some (s, rest)) = (length s ≡ n) × (bytes ≡ s ++ rest)

IsRead-after :
    (n b : ℕ) (bytes : List ℕ) (o : Option (List ℕ × List ℕ))
    → IsRead n bytes o
    → IsRead (suc n) (b ∷ bytes) (after (b ∷ []) o)
IsRead-after n b bytes none h = tt
IsRead-after n b bytes (some (s, rest)) (p, q) = (ap suc p, ap (λ l. b ∷ l) q)

pub read-IsRead : (n : ℕ) (bytes : List ℕ) → IsRead n bytes (read n bytes)
unfolding read
read-IsRead zero bytes = (refl, refl)
read-IsRead (suc n) [] = tt
read-IsRead (suc n) (b ∷ bytes) =
    subst (IsRead (suc n) (b ∷ bytes)) (sym (read-suc n b bytes))
      (IsRead-after n b bytes (read n bytes) (read-IsRead n bytes))
