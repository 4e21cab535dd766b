-- ===== src/Setup/Load/Codec.antt =====
-- Writers for what the loaders of src/util/load.hpp and src/util/storedenum.hpp read, and how reads
-- follow one another.
use innoextract_wasm.Base.{
  ℕ, suc, ◌+◌, ◌/◌, ◌^◌, ◌<◌, Bool, true, false, List, [], ◌∷◌, ◌++◌, Option, none, some, length,
  ◌≡◌, refl, ap, ◌∙◌, append_assoc, if◌then◌else◌, arith, get_or,
}
use innoextract_wasm.Base.Words.{u8, store32}
use innoextract_wasm.Setup.Load.{
  Reader, give, ◌>>=◌, field_if, read, load_u8, load_u16, load_u32, binary_loop, binary_string,
  encoded_string, Conversion, stored_enum,
}
use innoextract_wasm.Setup.Load.Flags.{stored_flags, select, lower_bits, padding}
use innoextract_wasm.Setup.Load.Pieces.{binary_loop-read}

-- The reader turns these bytes into this value, whatever follows them.
pub record Reads {A : Type 0} (r : Reader A) (bytes : List ℕ) (a : A) : Type 0 where
  pub reads : (rest : List ℕ) → r (bytes ++ rest) ≡ some (a, rest)

pub Reads->>= :
    {A B : Type 0} {m : Reader A} (f : A → Reader B) {bs cs : List ℕ} {a : A} {b : B}
    → Reads m bs a
    → Reads (f a) cs b
    → Reads (m >>= f) (bs ++ cs) b
Reads->>= {m = m} f {bs = bs} {cs = cs} h k = record {
  reads = λ rest.
      ap (m >>= f) (append_assoc bs cs rest)
      ∙ ap (λ o. elim o [ none ↦ none | some (x, left) ↦ f x left ]) (h.reads (cs ++ rest))
      ∙ k.reads rest;
}

abbrev pub store_if : Bool → List ℕ → List ℕ
store_if true bytes = bytes
store_if false bytes = []

pub field_if-Reads :
    {A : Type 0} (c : Bool) {r : Reader A} (d : A) {a : A} {bs : List ℕ}
    → Reads r bs a
    → Reads (field_if c r d) (store_if c bs) (if c then a else d)
field_if-Reads true d h = h
field_if-Reads false d h = record { reads = λ rest. refl }

pub read-Reads : (s : List ℕ) → Reads (read (length s)) s s
unfolding read
read-Reads [] = record { reads = λ rest. refl }
read-Reads (b ∷ s) = record {
  reads = λ rest.
      ap (λ o. elim o [ none ↦ none | some (t, left) ↦ some (b ∷ t, left) ])
        ((read-Reads s).reads rest);
}

pub load_u8-Reads : (n : ℕ) → Reads load_u8 (n ∷ []) n
unfolding load_u8
load_u8-Reads n = record { reads = λ rest. refl }

abbrev pub store16 : ℕ → List ℕ
store16 n = u8 n ∷ u8 (n / 2 ^ 8) ∷ []

pub load_u16-Reads : (n : ℕ) → n < 2 ^ 16 → Reads load_u16 (store16 n) n
unfolding load_u16
load_u16-Reads n h = record { reads = λ rest. ap (λ x. some (x, rest)) (omega arith) }

pub load_u32-Reads : (n : ℕ) → n < 2 ^ 32 → Reads load_u32 (store32 n) n
unfolding load_u32
load_u32-Reads n h = record { reads = λ rest. ap (λ x. some (x, rest)) (omega arith) }

abbrev pub store_string : List ℕ → List ℕ
store_string s = store32 (length s) ++ s

pub binary_string-Reads : (s : List ℕ) → length s < 2 ^ 32 → Reads binary_string (store_string s) s
unfolding binary_string
binary_string-Reads s h =
    Reads->>= (λ n. binary_loop n n) (load_u32-Reads (length s) h)
      (record {
        reads = λ rest.
            binary_loop-read (length s) (length s) (s ++ rest) (omega arith)
            ∙ (read-Reads s).reads rest;
      })

pub encoded_string-Reads :
    (to_utf8 : Conversion) (codepage : ℕ) (lead : Option (List ℕ)) (s : List ℕ)
    → length s < 2 ^ 32
    → Reads (encoded_string to_utf8 codepage lead) (store_string s) (to_utf8 codepage lead s)
unfolding encoded_string
encoded_string-Reads to_utf8 codepage lead s h = record {
  reads = λ rest.
      ap (λ o. elim o [ none ↦ none | some (x, left) ↦ some (to_utf8 codepage lead x, left) ])
        ((binary_string-Reads s h).reads rest);
}

pub give-Reads : {A : Type 0} (a : A) → Reads (give a) [] a
give-Reads a = record { reads = λ rest. refl }

pub stored_enum-Reads :
    {E : Type 0} (values : List E) (n : ℕ) (d : E)
    → Reads (stored_enum values d) (n ∷ []) (get_or values n d)
unfolding stored_enum
stored_enum-Reads values n d = record { reads = λ rest. refl }

-- The last read of a loader.
pub Reads-give :
    {A B : Type 0} {m : Reader A} (g : A → B) {bs : List ℕ} {a : A}
    → Reads m bs a
    → Reads (m >>= λ x. give (g x)) bs (g a)
Reads-give g h = record {
  reads =
      λ rest. ap (λ o. elim o [ none ↦ none | some (x, left) ↦ some (g x, left) ]) (h.reads rest);
}

plus_zero : (b : ℕ) → b + 0 ≡ b
plus_zero b = omega arith

one_byte : (k : ℕ) → k < 8 → (suc k + 7) / 8 ≡ 1
one_byte k h = omega arith

-- Up to eight flags are stored in one byte.
pub stored_flags-Reads :
    {F : Type 0} (wide : Bool) (f : F) (flags : List F) (b : ℕ)
    → length flags < 8
    → Reads (stored_flags wide (f ∷ flags)) (b ∷ []) (select b 0 (f ∷ flags))
unfolding stored_flags read padding lower_bits
stored_flags-Reads wide f flags b h = record {
  reads = λ rest.
      ap
        (λ c.
          (read c >>= λ bits.
          read (padding wide c) >>= λ pad. give (select (lower_bits bits 8) 0 (f ∷ flags)))
            (b ∷ rest))
        (one_byte (length flags) h)
      ∙ ap (λ n. some (select n 0 (f ∷ flags), rest)) (plus_zero b);
}
