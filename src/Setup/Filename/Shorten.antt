-- ===== src/Setup/Filename/Shorten.antt =====
-- `shorten_path` computes the normal form of a path, and `convert` yields nothing else.
use innoextract_wasm.Base.{
  subst, ℕ, zero, suc, ◌+◌, ◌≤◌, ◌≡◌, refl, sym, ◌∙◌, ap, true, false, List, [], ◌∷◌, some, arith,
  All, length, map, if◌then◌else◌, Bool-cases, Option-cases, inl, inr,
}
use innoextract_wasm.Setup.Filename.Safe.{Expands, HasSafeValues, IsSafe, expand-Expands}
use innoextract_wasm.Setup.Filename.Segments.{
  split, visit, visit_all, join, IsNormal, visit-IsNormal, add_segment-join,
}
use innoextract_wasm.Setup.Filename.{
  FilenameMap, is_path_separator, span_segment, after_separator, shorten_loop, shorten_path,
  expand_variables, to_lower, convert,
}

IsSegment : List ℕ → Type 0
IsSegment = All (λ c. is_path_separator c ≡ false)

span_segment-name : (cs : List ℕ) → IsSegment (span_segment cs).0
unfolding span_segment IsSegment
span_segment-name [] = tt
span_segment-name (c ∷ cs) = elim (Bool-cases (is_path_separator c)) [
  | inl h ↦ rw h tt
  | inr h ↦ rw h (h, span_segment-name cs)
]

-- The segments of a path are the first one and those behind its separator; at the end of the
-- path nothing is left, or an empty segment, which changes no stack.
after_first : List ℕ → List (List ℕ)
after_first [] = []
after_first (c ∷ cs) = split cs

split-span_segment :
    (cs : List ℕ) → split cs ≡ (span_segment cs).0 ∷ after_first (span_segment cs).1
unfolding split span_segment after_first
split-span_segment [] = refl
split-span_segment (c ∷ cs) = elim (Bool-cases (is_path_separator c)) [
  | inl h ↦ rw h
  | inr h ↦ rw (h, split-span_segment cs)
]

span_segment-le : (cs : List ℕ) → length (span_segment cs).1 ≤ length cs
unfolding span_segment
span_segment-le [] = omega arith
span_segment-le (c ∷ cs) = ground (arith, span_segment-le cs)

-- Each round of the loop takes a character at least.
round-le : (c : ℕ) (cs : List ℕ) → length (after_separator (span_segment (c ∷ cs)).1) ≤ length cs
unfolding span_segment
round-le c cs = elim (Bool-cases (is_path_separator c)) [
  | inl h ↦ rw h (unfold after_separator in omega arith)
  | inr h ↦ rw h (shorter (span_segment cs).1 (span_segment-le cs))
]
  where
    shorter : (r : List ℕ) → length r ≤ length cs → length (after_separator r) ≤ length cs
    shorter [] h = unfold after_separator in omega arith
    shorter (x ∷ xs) h = unfold after_separator in omega arith

visit_all-after_first :
    (stack : List (List ℕ)) (r : List ℕ)
    → visit_all stack (split (after_separator r)) ≡ visit_all stack (after_first r)
unfolding visit_all visit split after_separator after_first
visit_all-after_first stack [] = refl
visit_all-after_first stack (c ∷ cs) = refl

visit_all-cons :
    (stack : List (List ℕ)) (s : List ℕ) (ss : List (List ℕ))
    → visit_all stack (s ∷ ss) ≡ visit_all (visit stack s) ss
unfolding visit_all
visit_all-cons stack s ss = refl

visit_all-split :
    (stack : List (List ℕ)) (text : List ℕ)
    → visit_all stack (split text)
      ≡ visit_all
          (visit stack (span_segment text).0)
          (split (after_separator (span_segment text).1))
visit_all-split stack text =
    ap (visit_all stack) (split-span_segment text)
    ∙ visit_all-cons stack (span_segment text).0 (after_first (span_segment text).1)
    ∙ sym (visit_all-after_first (visit stack (span_segment text).0) (span_segment text).1)

shorten_loop-join :
    (f : ℕ) (stack : List (List ℕ)) (text : List ℕ)
    → length text ≤ f
    → All IsNormal stack
    → (shorten_loop f (join stack) text ≡ some (join (visit_all stack (split text))))
      × All IsNormal (visit_all stack (split text))
unfolding shorten_loop
shorten_loop-join f stack [] h v = unfold visit_all visit split in (refl, v)
shorten_loop-join zero stack (c ∷ cs) h v = absurd (omega arith)
shorten_loop-join (suc f) stack (c ∷ cs) h v =
    let segment = (span_segment (c ∷ cs)).0 in
    let rest =
      shorten_loop-join f (visit stack segment) (after_separator (span_segment (c ∷ cs)).1)
        (omega (arith, round-le c cs))
        (visit-IsNormal stack segment v (unfold IsSegment in span_segment-name (c ∷ cs))) in
    let same = visit_all-split stack (c ∷ cs) in
    (
      ap (λ r. shorten_loop f r (after_separator (span_segment (c ∷ cs)).1))
            (add_segment-join stack segment v)
          ∙ rest.0
          ∙ ap (λ st. some (join st)) (sym same),
      subst (All IsNormal) (sym same) rest.1,
    )

-- The normal form of a path: the stack of its segments.
abbrev pub normal : List ℕ → List (List ℕ)
normal path = visit_all [] (split path)

-- `shorten_path` ends with the path of the normal form, whose segments are all names: none is
-- empty, `.` or `..`, and none holds a separator.
pub shorten_path-normal :
    (path : List ℕ) → (shorten_path path ≡ some (join (normal path))) × All IsNormal (normal path)
unfolding shorten_path join
shorten_path-normal path = shorten_loop-join (length path) [] path (omega arith) tt

-- With variables expanded, and values in the map that have safe characters only, `convert`
-- ends for every path, with the path of a list of names: it never leads out of the directory
-- that it is put in.
pub convert-IsNormal :
    (m : FilenameMap) (path : List ℕ)
    → m.expand ≡ true
    → HasSafeValues m.entries
    → (expanded : List ℕ) × IsSafe expanded
      × (convert m path ≡ some (join (normal expanded)))
      × All IsNormal (normal expanded)
unfolding convert
convert-IsNormal m path h safe =
    let path' = if m.lowercase then map to_lower path else path in
    let run = expand-Expands m.entries safe (length path' + 1) false path' (omega arith) in
    rw h (elim (Option-cases (expand_variables m.entries (length path' + 1) false path')) [
      | inl e ↦ absurd (rw e at run)
      | inr ((expanded, rest), e) ↦
          let good : Expands (length path') (some (expanded, rest)) = rw e at run in
          let short = shorten_path-normal expanded in (expanded, good.0, rw e short.0, short.1)
    ])
