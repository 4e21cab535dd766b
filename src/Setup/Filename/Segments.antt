-- ===== src/Setup/Filename/Segments.antt =====
-- Paths as lists of segments, and the normal form of a path: a stack of segments on which an
-- empty segment or `.` does nothing and `..` drops the topmost.
use innoextract_wasm.Base.{
  ℕ, ◌≡◌, ◌≢◌, ◌↔◌, refl, true, false, List, [], ◌∷◌, ◌++◌, none, some, arith, All, append_assoc,
  length, length-append, take, take-append, ◌==◌, if◌then◌else◌, Bool-cases, inl, inr,
}
use innoextract_wasm.Setup.Filename.{
  is_path_separator, path_sep, text_eq, last_separator, or_zero, add_segment,
}

-- What stands between the separators of a path, in order.
unfoldable pub split : List ℕ → List (List ℕ)
split [] = [] ∷ []
split (c ∷ cs) = if is_path_separator c then [] ∷ split cs else cons_first c (split cs)
  where
    cons_first : ℕ → List (List ℕ) → List (List ℕ)
    cons_first c [] = []
    cons_first c (s ∷ ss) = (c ∷ s) ∷ ss

abbrev pub dot : List ℕ
dot = b'.' ∷ []

abbrev pub dot_dot : List ℕ
dot_dot = b'.' ∷ b'.' ∷ []

abbrev pub drop_top : List (List ℕ) → List (List ℕ)
drop_top [] = []
drop_top (s ∷ ss) = ss

-- The stack behind one more segment, the topmost segment first.
unfoldable pub visit : List (List ℕ) → List ℕ → List (List ℕ)
visit stack segment =
    if length segment == 0
    then stack
    else if text_eq segment dot
    then stack
    else if text_eq segment dot_dot
    then drop_top stack
    else segment ∷ stack

unfoldable pub visit_all : List (List ℕ) → List (List ℕ) → List (List ℕ)
visit_all stack [] = stack
visit_all stack (s ∷ ss) = visit_all (visit stack s) ss

-- The path of a stack.
unfoldable pub join : List (List ℕ) → List ℕ
join [] = []
join (s ∷ []) = s
join (s ∷ t ∷ rest) = join (t ∷ rest) ++ (path_sep ∷ s)

-- A segment that can be created as a file or directory of that name.
pub record IsNormal (s : List ℕ) : Type 0 where
  pub not_empty : s ≢ []
  pub not_dot : s ≢ dot
  pub not_dot_dot : s ≢ dot_dot
  pub one_name : All (λ c. is_path_separator c ≡ false) s

pub text_eq_iff : (a b : List ℕ) → (text_eq a b ≡ true) ↔ (a ≡ b)
unfolding text_eq
text_eq_iff (x ∷ a) (y ∷ b) = ground (arith, text_eq_iff a b)
text_eq_iff _ _ = ground arith

pub visit-IsNormal :
    (stack : List (List ℕ)) (s : List ℕ)
    → All IsNormal stack
    → All (λ c. is_path_separator c ≡ false) s
    → All IsNormal (visit stack s)
unfolding visit
visit-IsNormal stack [] h k = h
visit-IsNormal stack (c ∷ cs) h k = elim (Bool-cases (text_eq (c ∷ cs) dot)) [
  | inl here ↦ rw (some_text, here) h
  | inr other ↦
      rw (some_text, other)
        (elim (Bool-cases (text_eq (c ∷ cs) dot_dot)) [
          | inl up ↦ rw up (drop_top-IsNormal stack h)
          | inr down ↦ rw down (
            record {
              not_empty = λ e. cc;
              not_dot = λ e. ground (arith, text_eq_iff (c ∷ cs) dot);
              not_dot_dot = λ e. ground (arith, text_eq_iff (c ∷ cs) dot_dot);
              one_name = k;
            },
            h,
          )
        ])
]
  where
    some_text : (length (c ∷ cs) == 0) ≡ false
    some_text = ground arith

    drop_top-IsNormal : (st : List (List ℕ)) → All IsNormal st → All IsNormal (drop_top st)
    drop_top-IsNormal [] v = tt
    drop_top-IsNormal (t ∷ ts) v = v.1

last_separator-name :
    (s : List ℕ) → All (λ c. is_path_separator c ≡ false) s → last_separator s ≡ none
unfolding last_separator is_path_separator
last_separator-name [] h = refl
last_separator-name (c ∷ cs) h = rw (last_separator-name cs h.1) (ground arith)

last_separator-append :
    (r s : List ℕ)
    → All (λ c. is_path_separator c ≡ false) s
    → last_separator (r ++ (path_sep ∷ s)) ≡ some (length r)
unfolding last_separator
last_separator-append [] s h = rw (last_separator-name s h)
last_separator-append (c ∷ r) s h = rw (last_separator-append r s h) (ground arith)

-- Dropping what follows the last separator drops the topmost segment.
take-join :
    (stack : List (List ℕ))
    → All IsNormal stack
    → take (or_zero (last_separator (join stack))) (join stack) ≡ join (drop_top stack)
unfolding join
take-join [] h = unfold last_separator in refl
take-join (s ∷ []) h = rw (last_separator-name s h.0.one_name)
take-join (s ∷ t ∷ rest) h =
    rw (last_separator-append (join (t ∷ rest)) s h.0.one_name)
      (take-append (join (t ∷ rest)) (path_sep ∷ s))

join-ne-nil :
    (s : List ℕ) (stack : List (List ℕ)) → IsNormal s → (length (join (s ∷ stack)) == 0) ≡ false
unfolding join
join-ne-nil [] [] h = absurd (h.not_empty refl)
join-ne-nil (c ∷ s) [] h = ground arith
join-ne-nil s (t ∷ rest) h = ground (arith, length-append (join (t ∷ rest)) (path_sep ∷ s))

join_push :
    (s t : List ℕ) (rest : List (List ℕ)) → join (s ∷ t ∷ rest) ≡ join (t ∷ rest) ++ (path_sep ∷ s)
unfolding join
join_push s t rest = refl

-- The loop's body on the path of a stack is `visit` on the stack.
pub add_segment-join :
    (stack : List (List ℕ)) (s : List ℕ)
    → All IsNormal stack
    → add_segment (join stack) s ≡ join (visit stack s)
unfolding add_segment visit
add_segment-join [] s h = unfold last_separator join in ground arith
add_segment-join (t ∷ rest) s h = ground (
  arith,
  take-join (t ∷ rest) h,
  join-ne-nil t rest h.0,
  append_assoc (join (t ∷ rest)) (path_sep ∷ []) s,
  join_push s t rest,
)
