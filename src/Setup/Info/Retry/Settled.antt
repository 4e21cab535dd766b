-- ===== src/Setup/Info/Retry/Settled.antt =====
-- What `info::load` settles for, of the versions that it may try (src/setup/info.cpp).
use innoextract_wasm.Base.{
  ℕ, zero, suc, ◌+◌, ◌^◌, ◌≤◌, ◌<◌, Bool, true, false, not, ◌&&◌, ◌||◌, List, [], ◌∷◌, Option, none,
  some, ◌==◌, ==_iff, if◌then◌else◌, ◌≡◌, ◌≢◌, refl, sym, ap, ◌∙◌, inl, inr, Bool-cases, arith,
}
use innoextract_wasm.Setup.Version.{Version, is_ambiguous, next}
use innoextract_wasm.Setup.Version.Next.{next_above, next-lt}
use innoextract_wasm.Setup.Info.Images.{EntryType, no_unknown_version, wants}
use innoextract_wasm.Setup.Info.Retry.{
  Attempt, clean, warned, failed, Outcome, loaded, unexpected_version, set_value, rewound, reported,
  caught, tried, load_loop, all_entries, load,
}

-- The versions that may be tried: the given one, and the next one for as long as they are ambiguous.
abbrev pub candidates : ℕ → Version → Bool → List Version
candidates zero v ambiguous = []
candidates (suc fuel) v ambiguous = v ∷ elim (not ambiguous || next v == 0) [
  | true ↦ []
  | false ↦ (let w = set_value v (next v) in candidates fuel w (is_ambiguous w))
]

module _ {A E : Type 0} (attempt : Version → Attempt A E) where
  abbrev clean_or : Version → Attempt A E → Option (Version × A) → Option (Version × A)
  clean_or v (clean a) later = some (v, a)
  clean_or v (warned a) later = later
  clean_or v (failed e) later = later

  abbrev warned_or : Version → Attempt A E → Option (Version × A) → Option (Version × A)
  warned_or v (clean a) later = later
  warned_or v (warned a) later = some (v, a)
  warned_or v (failed e) later = later

  -- The first version that loads without a warning, and the first that loads with one.
  abbrev pub first_clean : List Version → Option (Version × A)
  first_clean [] = none
  first_clean (v ∷ vs) = clean_or v (attempt v) (first_clean vs)

  abbrev pub first_warned : List Version → Option (Version × A)
  first_warned [] = none
  first_warned (v ∷ vs) = warned_or v (attempt v) (first_warned vs)

  -- A clean result, else one with warnings, else what is left.
  abbrev pub settled : Option (Version × A) → Option (Version × A) → Outcome A E → Outcome A E
  settled (some (v, a)) second otherwise = loaded v a
  settled none (some (v, a)) otherwise = loaded v a
  settled none none otherwise = otherwise

  -- What is left of the loop, with the listed version to fall back on: `parsed` says whether
  -- this one was parsed without errors.
  abbrev fall_back : Bool → Version → Option (Version × A) → Outcome A E
  fall_back true listed second = rewound listed (attempt listed)
  fall_back false listed second = settled none second (rewound listed (attempt listed))

  abbrev chosen : Bool → Version → Option (Version × A) → Option (Version × A) → Outcome A E
  chosen parsed listed none second = fall_back parsed listed second
  chosen parsed listed (some (v, a)) second = loaded v a

  abbrev expected : Bool → Version → List Version → Outcome A E
  expected parsed listed vs = chosen parsed listed (first_clean vs) (first_warned vs)

  expected_nil :
      (parsed : Bool) (listed : Version)
      → expected parsed listed [] ≡ rewound listed (attempt listed)
  expected_nil true listed = refl
  expected_nil false listed = refl

  -- What is expected where the first attempt does this.
  abbrev beside : Bool → Version → Version → List Version → Attempt A E → Outcome A E
  beside parsed listed v vs r =
      chosen parsed listed (clean_or v r (first_clean vs)) (warned_or v r (first_warned vs))

  chosen_parsed :
      (listed : Version) (first second second' : Option (Version × A))
      → chosen true listed first second ≡ chosen true listed first second'
  chosen_parsed listed none second second' = refl
  chosen_parsed listed (some (v, a)) second second' = refl

  chosen_listed :
      (listed v : Version) (a : A) (first second : Option (Version × A))
      → attempt v ≡ warned a
      → chosen true v first second ≡ chosen false listed first (some (v, a))
  chosen_listed listed v a none second e = ap (rewound v) e
  chosen_listed listed v a (some (w, b)) second e = refl

  abbrev rest : ℕ → Version → Bool → List Version
  rest fuel v ambiguous = elim (not ambiguous || next v == 0) [
    | true ↦ []
    | false ↦ (let w = set_value v (next v) in candidates fuel w (is_ambiguous w))
  ]

  module _ (later : Version → Bool → ℕ → Bool → Outcome A E) (v : Version) (ambiguous : Bool)
      (listed : ℕ) (parsed : Bool) (last : Attempt A E) where
    caught_here :
        (not ambiguous || next v == 0) ≡ true
        → (v.value == listed) ≡ true
        → caught attempt later v ambiguous listed parsed last ≡ reported v parsed last
    unfolding caught
    caught_here p q = rw (caught, p, q) refl

    caught_there :
        (not ambiguous || next v == 0) ≡ true
        → (v.value == listed) ≡ false
        → caught attempt later v ambiguous listed parsed last
          ≡ rewound (set_value v listed) (attempt (set_value v listed))
    unfolding caught
    caught_there p q = rw (caught, p, q) refl

    caught-next :
        (not ambiguous || next v == 0) ≡ false
        → caught attempt later v ambiguous listed parsed last
          ≡ (let w = set_value v (next v) in later w (is_ambiguous w) listed parsed)
    unfolding caught
    caught-next p = rw (caught, p) refl

  rest_none :
      (fuel : ℕ) (v : Version) (ambiguous : Bool)
      → (not ambiguous || next v == 0) ≡ true
      → rest fuel v ambiguous ≡ []
  rest_none fuel v ambiguous p = rw (rest, p) refl

  rest-next :
      (fuel : ℕ) (v : Version) (ambiguous : Bool)
      → (not ambiguous || next v == 0) ≡ false
      → rest fuel v ambiguous ≡ (let w = set_value v (next v) in candidates fuel w (is_ambiguous w))
  rest-next fuel v ambiguous p = rw (rest, p) refl

  next_ne_zero : (ambiguous : Bool) (n : ℕ) → (not ambiguous || n == 0) ≡ false → n ≢ 0
  next_ne_zero ambiguous n h e = ground arith

  -- The catch block does what is expected of the versions that are left.
  caught-expected :
      (later : Version → Bool → ℕ → Bool → Outcome A E) (fuel : ℕ) (v : Version) (ambiguous : Bool)
      (listed : ℕ) (parsed : Bool) (last : Attempt A E)
      → (v.value ≡ listed
          → reported v parsed last ≡ rewound (set_value v listed) (attempt (set_value v listed)))
      → (next v ≢ 0
          → let w = set_value v (next v) in
            later w (is_ambiguous w) listed parsed
            ≡ expected parsed (set_value v listed) (candidates fuel w (is_ambiguous w)))
      → caught attempt later v ambiguous listed parsed last
        ≡ expected parsed (set_value v listed) (rest fuel v ambiguous)
  caught-expected later fuel v ambiguous listed parsed last same ih =
      let original = set_value v listed in
      elim (Bool-cases (not ambiguous || next v == 0)) [
        | inl ends ↦
            (let none_left =
                sym (expected_nil parsed original)
                ∙ ap (expected parsed original) (sym (rest_none fuel v ambiguous ends)) in
              elim (Bool-cases (v.value == listed)) [
                | inl here ↦
                    (caught_here later v ambiguous listed parsed last ends here
                      ∙ same ((==_iff v.value listed).0 here)
                      ∙ none_left)
                | inr there ↦
                    (caught_there later v ambiguous listed parsed last ends there ∙ none_left)
              ])
        | inr goes_on ↦
            (caught-next later v ambiguous listed parsed last goes_on
              ∙ ih (next_ne_zero ambiguous (next v) goes_on)
              ∙ ap (expected parsed original) (sym (rest-next fuel v ambiguous goes_on)))
      ]

  -- The listed version is a lower one, or this one where none was parsed yet.
  abbrev Listed : Bool → ℕ → ℕ → Type 0
  Listed true listed value = listed < value
  Listed false listed value = listed ≤ value

  above : (v : Version) → next v ≢ 0 → v.value < next v
  above v h = next_above v h

  given_above :
      (parsed : Bool) (listed value n : ℕ)
      → Listed parsed listed value
      → value < n
      → Listed parsed listed n
  given_above true listed value n h k = omega arith
  given_above false listed value n h k = omega arith

  same_failed :
      (v : Version) (listed : ℕ) (parsed : Bool) (err : E)
      → Listed parsed listed v.value
      → attempt v ≡ failed err
      → v.value ≡ listed
      → reported v parsed (failed err) ≡ rewound (set_value v listed) (attempt (set_value v listed))
  same_failed v listed true err h e p = absurd (omega arith)
  same_failed v listed false err h e p =
      sym (ap (rewound v) e) ∙ ap (λ n. rewound (set_value v n) (attempt (set_value v n))) p

  round-expected :
      (fuel : ℕ) (v : Version) (ambiguous : Bool) (listed : ℕ) (parsed : Bool) (r : Attempt A E)
      → attempt v ≡ r
      → Listed parsed listed v.value
      → ((listed' : ℕ) (parsed' : Bool)
          → next v ≢ 0
          → Listed parsed' listed' (next v)
          → let w = set_value v (next v) in
            load_loop attempt fuel w (is_ambiguous w) listed' parsed'
            ≡ expected parsed' (set_value v listed') (candidates fuel w (is_ambiguous w)))
      → tried attempt (load_loop attempt fuel) v ambiguous listed parsed r
        ≡ beside parsed (set_value v listed) v (rest fuel v ambiguous) r
  unfolding tried
  round-expected fuel v ambiguous listed parsed (clean a) e h ih = refl
  round-expected fuel v ambiguous listed parsed (failed err) e h ih =
      caught-expected (load_loop attempt fuel) fuel v ambiguous listed parsed (failed err)
        (same_failed v listed parsed err h e)
        (λ nz. ih listed parsed nz (given_above parsed listed v.value (next v) h (above v nz)))
  round-expected fuel v ambiguous listed true (warned a) e h ih =
      caught-expected (load_loop attempt fuel) fuel v ambiguous listed true (warned a)
        (λ p. absurd (omega arith))
        (λ nz. ih listed true nz (given_above true listed v.value (next v) h (above v nz)))
      ∙ chosen_parsed (set_value v listed) (first_clean (rest fuel v ambiguous))
          (first_warned (rest fuel v ambiguous)) (some (v, a))
  round-expected fuel v ambiguous listed false (warned a) e h ih =
      caught-expected (load_loop attempt fuel) fuel v ambiguous v.value true (warned a)
        (λ p. sym (ap (rewound v) e)) (λ nz. ih v.value true nz (above v nz))
      ∙ chosen_listed (set_value v listed) v a (first_clean (rest fuel v ambiguous))
          (first_warned (rest fuel v ambiguous)) e

  load_loop-expected :
      (fuel : ℕ) (v : Version) (ambiguous : Bool) (listed : ℕ) (parsed : Bool)
      → v.value < 2 ^ 32
      → 2 ^ 32 ≤ fuel + v.value
      → Listed parsed listed v.value
      → load_loop attempt fuel v ambiguous listed parsed
        ≡ expected parsed (set_value v listed) (candidates fuel v ambiguous)
  unfolding load_loop
  load_loop-expected zero v ambiguous listed parsed lt enough h = absurd (omega arith)
  load_loop-expected (suc fuel) v ambiguous listed parsed lt enough h =
      round-expected fuel v ambiguous listed parsed (attempt v) refl h (λ listed' parsed' nz k.
        load_loop-expected fuel (set_value v (next v)) (is_ambiguous (set_value v (next v))) listed'
          parsed' (next-lt v) (omega (arith, above v nz)) k)

  chosen-settled :
      (v : Version) (first second : Option (Version × A))
      → chosen false v first second ≡ settled first second (rewound v (attempt v))
  chosen-settled v none second = refl
  chosen-settled v (some (w, a)) second = refl

  loop-settled :
      (v : Version) (ambiguous : Bool)
      → v.value < 2 ^ 32
      → let vs = candidates (2 ^ 32) v ambiguous in
        load_loop attempt (2 ^ 32) v ambiguous v.value false
        ≡ settled (first_clean vs) (first_warned vs) (rewound v (attempt v))
  loop-settled v ambiguous lt =
      let vs = candidates (2 ^ 32) v ambiguous in
      load_loop-expected (2 ^ 32) v ambiguous v.value false lt (omega arith) (omega arith)
      ∙ chosen-settled v (first_clean vs) (first_warned vs)

-- A version of 32 bits is loaded as the first of its candidates that loads without a warning; where
-- there is none, as the first that loads with warnings; where there is none either, the exception of the
-- version itself is thrown. Only an unknown version that must not be is refused at once.
pub load-settled :
    {A E : Type 0} (attempt : List EntryType → Version → Attempt A E) (v : Version)
    (entries : List EntryType)
    → v.value < 2 ^ 32
    → let attempt' = attempt (all_entries v entries) in
      let vs = candidates (2 ^ 32) v (not v.known || is_ambiguous v) in
      load attempt v entries ≡ (
        if not v.known && wants no_unknown_version entries
        then unexpected_version
        else settled attempt'
            (first_clean attempt' vs)
            (first_warned attempt' vs)
            (rewound v (attempt' v)))
unfolding load
load-settled attempt v entries lt =
    ap (λ r. if not v.known && wants no_unknown_version entries then unexpected_version else r)
      (loop-settled (attempt (all_entries v entries)) v (not v.known || is_ambiguous v) lt)
