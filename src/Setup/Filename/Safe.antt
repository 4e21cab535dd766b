-- ===== src/Setup/Filename/Safe.antt =====
-- Expansion ends, and lets no character through that is unsafe in a file name.
use innoextract_wasm.Base.{
  ℕ, zero, suc, ◌≤◌, ◌<◌, ◌≡◌, Bool, true, false, List, [], ◌∷◌, Option, none, some, arith, All,
  All-append, length, Bool-cases, Option-cases, inl, inr,
}
use innoextract_wasm.Setup.Filename.{
  is_unsafe_path_char, replace_unsafe_chars, text_eq, find, lookup, span_plain, Action, at_end,
  closed, literal, variable, opened, action, prefixed, perform, expand_variables,
}

abbrev pub IsSafe : List ℕ → Type 0
IsSafe = All (λ c. is_unsafe_path_char c ≡ false)

replace-IsSafe : (cs : List ℕ) → IsSafe (replace_unsafe_chars cs)
unfolding replace_unsafe_chars is_unsafe_path_char
replace-IsSafe [] = tt
replace-IsSafe (c ∷ cs) = (ground arith, replace-IsSafe cs)

abbrev pub HasSafeValues : List (List ℕ × List ℕ) → Type 0
HasSafeValues = All (λ e. IsSafe e.1)

lookup-IsSafe :
    (entries : List (List ℕ × List ℕ)) (key : List ℕ)
    → HasSafeValues entries
    → IsSafe (lookup entries key)
unfolding lookup find
lookup-IsSafe [] key h = replace-IsSafe key
lookup-IsSafe ((k, v) ∷ rest) key h = elim (Bool-cases (text_eq k key)) [
  | inl hit ↦ rw (hit, lookup, find) h.0
  | inr miss ↦ rw (miss, lookup, find) (lookup-IsSafe rest key h.1)
]

span_plain-le : (cs : List ℕ) → length (span_plain cs).1 ≤ length cs
unfolding span_plain
span_plain-le [] = omega arith
span_plain-le (c ∷ cs) = ground (arith, span_plain-le cs)

-- What an action leaves is shorter than the text it was read from, and a literal is safe.
abbrev Leaves : ℕ → Action → Type 0
Leaves n at_end = Unit
Leaves n (closed rest) = length rest < n
Leaves n (literal c rest) = (length rest < n) × (is_unsafe_path_char c ≡ false)
Leaves n (variable rest) = length rest < n

action-Leaves :
    (close : Bool) (text : List ℕ) (n : ℕ) → length text ≤ n → Leaves n (action close text)
unfolding action opened is_unsafe_path_char
action-Leaves close [] n h = tt
action-Leaves close (c ∷ []) n h = ground arith
action-Leaves close (c ∷ d ∷ cs) n h = ground arith

-- The text is expanded to safe characters, and no more text is left than there was.
abbrev pub Expands : ℕ → Option (List ℕ × List ℕ) → Type 0
Expands n none = ⊥
Expands n (some (out, rest)) = IsSafe out × (length rest ≤ n)

prefixed-Expands :
    (before : List ℕ) (m n : ℕ) (r : Option (List ℕ × List ℕ))
    → IsSafe before
    → m ≤ n
    → Expands m r
    → Expands n (prefixed before r)
prefixed-Expands before m n none s h e = e
prefixed-Expands before m n (some (out, rest)) s h e =
    (All-append (λ c. is_unsafe_path_char c ≡ false) before out s e.0, omega (arith, e.1))

module _ (entries : List (List ℕ × List ℕ)) (safe : HasSafeValues entries) where
  perform-Expands :
      (expand : Bool → List ℕ → Option (List ℕ × List ℕ)) (n : ℕ)
      → ((close : Bool) (text : List ℕ)
          → length text < n
          → Expands (length text) (expand close text))
      → (close : Bool) (a : Action) → Leaves n a
      → Expands n (perform entries expand close a)
  unfolding perform
  perform-Expands expand n rec close at_end h = (tt, omega arith)
  perform-Expands expand n rec close (closed rest) h = (tt, omega arith)
  perform-Expands expand n rec close (literal c rest) h =
      prefixed-Expands (c ∷ []) (length rest) n _ (h.1, tt) (omega arith) (rec close rest h.0)
  perform-Expands expand n rec close (variable rest) h = elim (Option-cases (expand true rest)) [
    | inl e ↦ absurd (rw e at (rec true rest h))
    | inr ((name, rest'), e) ↦
        let inner : Expands (length rest) (some (name, rest')) = rw e at (rec true rest h) in
        rw (e, perform)
          (prefixed-Expands (lookup entries name) (length rest') n _
            (lookup-IsSafe entries name safe) (omega (arith, inner.1))
            (rec close rest' (omega (arith, inner.1))))
  ]

  -- With more fuel than there is text, expansion ends; it writes safe characters only, and it
  -- leaves no more text than there was.
  pub expand-Expands :
      (f : ℕ) (close : Bool) (text : List ℕ)
      → length text < f
      → Expands (length text) (expand_variables entries f close text)
  unfolding expand_variables
  expand-Expands zero close text h = absurd (omega arith)
  expand-Expands (suc f) close text h =
      prefixed-Expands (replace_unsafe_chars (span_plain text).0) (length text) (length text) _
        (replace-IsSafe (span_plain text).0) (omega arith)
        (perform-Expands (expand_variables entries f) (length text)
          (λ close' text' h'. expand-Expands f close' text' (omega arith)) close
          (action close (span_plain text).1)
          (action-Leaves close (span_plain text).1 (length text) (span_plain-le text)))
