-- ===== src/Setup/Info/Skip.antt =====
-- Skipping takes the bytes that reading takes (src/util/load.cpp, src/setup/info.cpp).
use innoextract_wasm.Base.{
  ℕ, zero, suc, Bool, true, false, ◌||◌, List, [], Option, none, some, ◌≡◌, refl, sym, ap, ◌∙◌,
  arith,
}
use innoextract_wasm.Setup.Load.{
  Reader, give, ◌>>=◌, field_if, read, load_u32, binary_loop, binary_string, skip_string,
}
use innoextract_wasm.Setup.Load.Pieces.{binary_loop-read}
use innoextract_wasm.Setup.Version.{Version, is_isx, at_least}
use innoextract_wasm.Setup.Header.Kinds.{CompressionMethod}
use innoextract_wasm.Setup.Info.Images.{
  EntryType, wants, wizard_images, decompressor_dll, decrypt_dll, no_skip, has_decompressor,
  string_or_skip, load_images, load_wizard_images, load_wizard_and_decompressor,
}
use innoextract_wasm.Setup.Info.Entries.{load_entries}

-- What a reader leaves behind it, or `none` where it throws.
abbrev pub left : {A : Type 0} → Option (A × List ℕ) → Option (List ℕ)
left none = none
left (some (a, rest)) = some rest

-- Two readers that take the same bytes, and throw at the same ones.
pub record SameBytes {A B : Type 0} (r : Reader A) (q : Reader B) : Type 0 where
  pub same : (stream : List ℕ) → left (r stream) ≡ left (q stream)

SameBytes-refl : {A : Type 0} (r : Reader A) → SameBytes r r
SameBytes-refl r = record { same = λ stream. refl }

from_some : Option (List ℕ) → List ℕ
from_some none = []
from_some (some l) = l

module _ {A B C D : Type 0} (f : A → Reader C) (g : B → Reader D) where
  then_same :
      ((a : A) (b : B) → SameBytes (f a) (g b))
      → (x : Option (A × List ℕ)) (y : Option (B × List ℕ)) → left x ≡ left y
      → left (elim x [ none ↦ none | some (a, rest) ↦ f a rest ])
        ≡ left (elim y [ none ↦ none | some (b, rest) ↦ g b rest ])
  unfolding from_some
  then_same h none none e = refl
  then_same h none (some (b, s)) e = ground arith
  then_same h (some (a, r)) none e = ground arith
  then_same h (some (a, r)) (some (b, s)) e =
      (h a b).same r ∙ ap (λ l. left (g b l)) (ap from_some e)

  pub SameBytes->>= :
      {m : Reader A} {n : Reader B}
      → SameBytes m n
      → ((a : A) (b : B) → SameBytes (f a) (g b))
      → SameBytes (m >>= f) (n >>= g)
  SameBytes->>= {m} {n} p h = record {
    same = λ stream. then_same h (m stream) (n stream) (p.same stream);
  }

pub SameBytes-give : {A B : Type 0} (a : A) (b : B) → SameBytes (give a) (give b)
SameBytes-give a b = record { same = λ stream. refl }

pub SameBytes-field_if :
    {A B : Type 0} (c : Bool) {r : Reader A} {q : Reader B} (a : A) (b : B)
    → SameBytes r q
    → SameBytes (field_if c r a) (field_if c q b)
SameBytes-field_if true a b h = h
SameBytes-field_if false a b h = SameBytes-give a b

module _ {A C D : Type 0} (f : A → Reader C) (g : A → Reader D) where
  under_same :
      ((a : A) → SameBytes (f a) (g a))
      → (x : Option (A × List ℕ))
      → left (elim x [ none ↦ none | some (a, rest) ↦ f a rest ])
        ≡ left (elim x [ none ↦ none | some (a, rest) ↦ g a rest ])
  under_same h none = refl
  under_same h (some (a, rest)) = (h a).same rest

  -- The same reader first.
  pub SameBytes-under :
      (m : Reader A) → ((a : A) → SameBytes (f a) (g a)) → SameBytes (m >>= f) (m >>= g)
  SameBytes-under m h = record { same = λ stream. under_same h (m stream) }

dropped :
    {A B : Type 0} (b : B) (x : Option (A × List ℕ))
    → left x ≡ left (elim x [ none ↦ none | some (a, rest) ↦ give b rest ])
dropped b none = refl
dropped b (some (a, rest)) = refl

piece_SameBytes : (n : ℕ) → SameBytes (binary_loop n n) (read n >>= λ skipped. give (tt {0}))
piece_SameBytes n = record {
  same = λ stream.
      ap left (binary_loop-read n n stream (omega arith)) ∙ dropped (tt {0}) (read n stream);
}

-- The string is read in pieces, and skipped at once.
skip_string-SameBytes : SameBytes binary_string skip_string
unfolding binary_string skip_string
skip_string-SameBytes =
    SameBytes-under (λ n. binary_loop n n) (λ n. read n >>= λ skipped. give (tt {0})) load_u32
      piece_SameBytes

SameBytes-trans :
    {A B C : Type 0} {r : Reader A} {q : Reader B} {s : Reader C}
    → SameBytes r q
    → SameBytes q s
    → SameBytes r s
SameBytes-trans h k = record { same = λ stream. h.same stream ∙ k.same stream }

SameBytes-sym : {A B : Type 0} {r : Reader A} {q : Reader B} → SameBytes r q → SameBytes q r
SameBytes-sym h = record { same = λ stream. sym (h.same stream) }

skipped-SameBytes : {B : Type 0} (b : B) → SameBytes skip_string (skip_string >>= λ skipped. give b)
skipped-SameBytes b = record { same = λ stream. dropped b (skip_string stream) }

string_or_skip-SameBytes : (w w' : Bool) → SameBytes (string_or_skip w) (string_or_skip w')
unfolding string_or_skip
string_or_skip-SameBytes true true = SameBytes-refl _
string_or_skip-SameBytes false false = SameBytes-refl _
string_or_skip-SameBytes true false = SameBytes-trans skip_string-SameBytes (skipped-SameBytes [])
string_or_skip-SameBytes false true =
    SameBytes-sym (SameBytes-trans skip_string-SameBytes (skipped-SameBytes []))

load_images-SameBytes :
    (w w' : Bool) (count : ℕ) → SameBytes (load_images w count) (load_images w' count)
unfolding load_images
load_images-SameBytes w w' zero = SameBytes-refl _
load_images-SameBytes w w' (suc count) =
    SameBytes->>= _ _ (string_or_skip-SameBytes w w')
      (λ a b. SameBytes->>= _ _ (load_images-SameBytes w w' count) (λ c d. SameBytes-give _ _))

load_wizard_images-SameBytes :
    (v : Version) (w w' : Bool) → SameBytes (load_wizard_images v w) (load_wizard_images v w')
unfolding load_wizard_images
load_wizard_images-SameBytes v w w' =
    SameBytes-under _ _ _
      (λ count. SameBytes->>= _ _ (load_images-SameBytes w w' count) (λ a b. SameBytes-give _ _))

-- Whatever is wanted, the images and libraries take the same bytes of every stream, and the reader
-- throws at the same streams.
pub load_wizard_and_decompressor-SameBytes :
    (v : Version) (compression : CompressionMethod) (encrypted : Bool)
    (wanted wanted' : List EntryType)
    → SameBytes
        (load_wizard_and_decompressor v compression encrypted wanted)
        (load_wizard_and_decompressor v compression encrypted wanted')
unfolding load_wizard_and_decompressor
load_wizard_and_decompressor-SameBytes v compression encrypted wanted wanted' =
    let some_images = wants wizard_images wanted || wants no_skip wanted in
    let some_images' = wants wizard_images wanted' || wants no_skip wanted' in
    let some_dll = wants decompressor_dll wanted || wants no_skip wanted in
    let some_dll' = wants decompressor_dll wanted' || wants no_skip wanted' in
    let decrypts = wants decrypt_dll wanted || wants no_skip wanted in
    let decrypts' = wants decrypt_dll wanted' || wants no_skip wanted' in
    SameBytes->>= _ _ (load_wizard_images-SameBytes v some_images some_images') (λ a b.
      SameBytes->>= _ _
        (SameBytes-field_if (at_least v 2 0 0 || is_isx v) [] []
          (load_wizard_images-SameBytes v some_images some_images'))
        (λ c d.
          SameBytes->>= _ _
            (SameBytes-field_if (has_decompressor v compression) [] []
              (string_or_skip-SameBytes some_dll some_dll'))
            (λ e f.
              SameBytes->>= _ _
                (SameBytes-field_if encrypted [] [] (string_or_skip-SameBytes decrypts decrypts'))
                (λ g h. SameBytes-give _ _))))

-- So do entries, whether they are wanted or not.
pub load_entries-SameBytes :
    {A : Type 0} (w w' : Bool) (count : ℕ) (load : Reader A)
    → SameBytes (load_entries w count load) (load_entries w' count load)
unfolding load_entries
load_entries-SameBytes w w' zero load = SameBytes-refl _
load_entries-SameBytes w w' (suc count) load =
    SameBytes-under _ _ load
      (λ a. SameBytes->>= _ _ (load_entries-SameBytes w w' count load) (λ c d. SameBytes-give _ _))
