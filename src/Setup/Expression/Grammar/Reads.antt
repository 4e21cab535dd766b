-- ===== src/Setup/Expression/Grammar/Reads.antt =====
-- The evaluator reads each part of an expression up to what stands behind it.
use innoextract_wasm.Base.{
  ℕ, zero, suc, ◌≤◌, ◌≡◌, refl, ◌∙◌, ap, Bool, true, false, not, ◌&&◌, ◌||◌, List, [], ◌∷◌, arith,
  All,
}
use innoextract_wasm.Setup.Expression.Grammar.{
  Factor, var, negated, paren, Factors, no_more, and_then, Terms, last, or_then, beside,
  factor_lexemes, factors_lexemes, terms_lexemes, factor_value, factors_value, terms_value,
  factor_cost, factors_cost, terms_cost,
}
use innoextract_wasm.Setup.Expression.Text.{
  Lexeme, name, word_or, word_and, word_not, left, right, at, IsLexeme, next-render,
}
use innoextract_wasm.Setup.Expression.{
  ok, ◌>>=◌, Evaluator, Outcome, text_eq, eval_identifier, close_paren, eval_factor, eval_term,
  term_loop, eval_expression, expression_stop, expression_loop,
}

-- A part ends where no lexeme goes on with it.
abbrev pub EndsTerm : List Lexeme → Type 0
EndsTerm (word_and ∷ rest) = ⊥
EndsTerm _ = Unit

abbrev pub EndsTerms : List Lexeme → Type 0
EndsTerms (word_and ∷ rest) = ⊥
EndsTerms (word_or ∷ rest) = ⊥
EndsTerms (name n ∷ rest) = ⊥
EndsTerms _ = Unit

-- A run that reads up to `rest`. Its value is right unless the run is lazy.
pub record Reads (lazy : Bool) (value : Bool) (rest : List Lexeme) (r : Outcome) : Type 0 where
  pub text : List ℕ
  pub result : Bool
  pub returns : r ≡ ok (result, at text rest)
  pub correct : lazy ≡ false → result ≡ value

pub Reads->>= :
    {lazy lazy' value value' : Bool} {rest rest' : List Lexeme} {r : Outcome}
    (f : Bool × Evaluator → Outcome)
    → Reads lazy value rest r
    → ((result : Bool) (t : List ℕ)
        → (lazy ≡ false → result ≡ value)
        → Reads lazy' value' rest' (f (result, at t rest)))
    → Reads lazy' value' rest' (r >>= f)
Reads->>= f m k = rw m.returns (k m.result m.text m.correct)

Reads-value :
    {lazy value value' : Bool} {rest : List Lexeme} {r : Outcome}
    → Reads lazy value rest r
    → (lazy ≡ false → value ≡ value')
    → Reads lazy value' rest r
Reads-value m h = record {
  text = m.text;
  result = m.result;
  returns = m.returns;
  correct = λ q. m.correct q ∙ h q;
}

-- What is behind a part of a well-formed text is well formed.
mutual
  unfolding factor_lexemes factors_lexemes terms_lexemes

  pub factor_suffix :
      (p : Factor) (rest : List Lexeme) → All IsLexeme (factor_lexemes p rest) → All IsLexeme rest
  factor_suffix (var n) rest h = h.1
  factor_suffix (negated p) rest h = factor_suffix p rest h.1
  factor_suffix (paren p ps ts) rest h =
      (terms_suffix ts (right ∷ rest) (
        factors_suffix ps (terms_lexemes ts (right ∷ rest))
          (factor_suffix p (factors_lexemes ps (terms_lexemes ts (right ∷ rest))) h.1))).1

  pub factors_suffix :
      (ps : Factors) (rest : List Lexeme)
      → All IsLexeme (factors_lexemes ps rest)
      → All IsLexeme rest
  factors_suffix no_more rest h = h
  factors_suffix (and_then p ps) rest h =
      factors_suffix ps rest (factor_suffix p (factors_lexemes ps rest) h.1)

  pub terms_suffix :
      (ts : Terms) (rest : List Lexeme) → All IsLexeme (terms_lexemes ts rest) → All IsLexeme rest
  terms_suffix last rest h = h
  terms_suffix (or_then p ps ts) rest h = terms_suffix ts rest (
      factors_suffix ps (terms_lexemes ts rest)
        (factor_suffix p (factors_lexemes ps (terms_lexemes ts rest)) h.1))
  terms_suffix (beside n ps ts) rest h =
      terms_suffix ts rest (factors_suffix ps (terms_lexemes ts rest) h.1)

pub terms-EndsTerm :
    (ts : Terms) (rest : List Lexeme) → EndsTerm rest → EndsTerm (terms_lexemes ts rest)
unfolding terms_lexemes
terms-EndsTerm last rest h = h
terms-EndsTerm (or_then p ps ts) rest h = tt
terms-EndsTerm (beside n ps ts) rest h = tt

end_of : (rest : List Lexeme) → EndsTerms rest → EndsTerm rest
end_of [] h = tt
end_of (word_and ∷ rest) h = h
end_of (_ ∷ rest) h = tt

module _ (test : List ℕ) where
  -- A loop stops at a lexeme that does not go on with it.
  term_loop-stop :
      (f : ℕ) (lazy result : Bool) (t : List ℕ) (rest : List Lexeme)
      → 1 ≤ f
      → EndsTerm rest
      → term_loop test f lazy result (at t rest) ≡ ok (result, at t rest)
  unfolding term_loop
  term_loop-stop zero lazy result t rest h e = absurd (omega arith)
  term_loop-stop (suc f) lazy result t [] h e = refl
  term_loop-stop (suc f) lazy result t (word_and ∷ rest) h e = absurd e
  term_loop-stop (suc f) lazy result t (_ ∷ rest) h e = refl

  pub expression_loop-stop :
      (f : ℕ) (lazy inner result : Bool) (t : List ℕ) (rest : List Lexeme)
      → 1 ≤ f
      → EndsTerms rest
      → expression_loop test f lazy inner result (at t rest) ≡ ok (result, at t rest)
  unfolding expression_loop
  expression_loop-stop zero lazy inner result t rest h e = absurd (omega arith)
  expression_loop-stop (suc f) lazy inner result t [] h e = refl
  expression_loop-stop (suc f) lazy inner result t (word_and ∷ rest) h e = absurd e
  expression_loop-stop (suc f) lazy inner result t (word_or ∷ rest) h e = absurd e
  expression_loop-stop (suc f) lazy inner result t (name n ∷ rest) h e = absurd e
  expression_loop-stop (suc f) lazy inner result t (_ ∷ rest) h e = refl

  -- A term, from its first factor and the loop over the others.
  pub term-Reads :
      (f : ℕ) (lazy : Bool) (t : List ℕ) (p : Factor) (ps : Factors) (rest : List Lexeme)
      → Reads lazy
          (factor_value test p)
          (factors_lexemes ps rest)
          (eval_factor test f lazy (at t (factor_lexemes p (factors_lexemes ps rest))))
      → ((result : Bool) (t : List ℕ)
          → Reads lazy
              (result && factors_value test ps)
              rest
              (term_loop test f lazy result (at t (factors_lexemes ps rest))))
      → Reads lazy
          (factor_value test p && factors_value test ps)
          rest
          (eval_term test (suc f) lazy (at t (factor_lexemes p (factors_lexemes ps rest))))
  unfolding eval_term
  term-Reads f lazy t p ps rest first others =
      Reads->>= _ first (λ result t' c. Reads-value (others result t') (λ q. rw (c q)))

  -- Inside parentheses the early return is never taken.
  stop_inner :
      (f : ℕ) (lazy result : Bool) (e : Evaluator)
      → expression_stop test (suc f) lazy true result e ≡ expression_loop test f lazy true result e
  unfolding expression_stop
  stop_inner f lazy true e = refl
  stop_inner f lazy false e = refl

  -- An expression in parentheses, from its first term and the loop over the others.
  inner-Reads :
      (f : ℕ) (lazy : Bool) (t : List ℕ) (p : Factor) (ps : Factors) (ts : Terms)
      (rest : List Lexeme)
      → let behind = terms_lexemes ts rest in
        let inside = factor_lexemes p (factors_lexemes ps behind) in
        Reads lazy
          (factor_value test p && factors_value test ps)
          behind
          (eval_term test (suc (suc f)) lazy (at t inside))
        → ((result : Bool) (t : List ℕ)
            → Reads lazy
                (result || terms_value test ts)
                rest
                (expression_loop test (suc f) lazy true result (at t behind)))
        → Reads lazy
            ((factor_value test p && factors_value test ps) || terms_value test ts)
            rest
            (eval_expression test (suc (suc (suc f))) lazy true (at t inside))
  unfolding eval_expression
  inner-Reads f lazy t p ps ts rest term others = Reads->>= _ term λ result t' c.
      rw (stop_inner (suc f) lazy result (at t' (terms_lexemes ts rest)))
        (Reads-value (others result t') (λ q. rw (c q)))

  mutual
    unfolding factor_lexemes factors_lexemes terms_lexemes factor_value factors_value terms_value
        factor_cost factors_cost terms_cost eval_factor term_loop expression_loop eval_identifier
        close_paren

    -- `eval_factor` reads a factor, at any fuel from its cost on.
    pub factor-Reads :
        (f : ℕ) (lazy : Bool) (t : List ℕ) (p : Factor) (rest : List Lexeme)
        → factor_cost p ≤ f
        → All IsLexeme (factor_lexemes p rest)
        → Reads lazy
            (factor_value test p)
            rest
            (eval_factor test f lazy (at t (factor_lexemes p rest)))
    factor-Reads zero lazy t (var n) rest h w = absurd (omega arith)
    factor-Reads zero lazy t (negated p) rest h w = absurd (omega arith)
    factor-Reads zero lazy t (paren p ps ts) rest h w = absurd (omega arith)
    factor-Reads (suc f) lazy t (var n) rest h w = record {
      text = n;
      result = lazy || text_eq test n;
      returns = rw (next-render rest (at t (name n ∷ rest)) refl w.1);
      correct = λ q. rw q;
    }
    factor-Reads (suc f) lazy t (negated p) rest h w =
        let inside = factor_lexemes p rest in
        rw (next-render inside (at t (word_not ∷ inside)) refl w.1) (
          Reads->>= _ (factor-Reads f lazy t p rest (omega arith) w.1) λ result t' c. record {
            text = t';
            result = not result;
            returns = refl;
            correct = λ q. ap not (c q);
          })
    factor-Reads (suc (suc (suc (suc f)))) lazy t (paren p ps ts) rest h w =
        let behind = terms_lexemes ts (right ∷ rest) in
        let inside = factor_lexemes p (factors_lexemes ps behind) in
        let w1 = factor_suffix p (factors_lexemes ps behind) w.1 in
        let w2 = factors_suffix ps behind w1 in
        let closing = (terms_suffix ts (right ∷ rest) w2).1 in
        let term =
          term-Reads (suc f) lazy t p ps behind
            (factor-Reads (suc f) lazy t p (factors_lexemes ps behind) (omega arith) w.1)
            (λ result t'.
              factors-Reads (suc f) lazy result t' ps behind (omega arith)
                (terms-EndsTerm ts (right ∷ rest) tt) w1) in
        let whole =
          inner-Reads f lazy t p ps ts (right ∷ rest) term
            λ result t'. terms-Reads (suc f) lazy result t' ts (right ∷ rest) (omega arith) tt w2 in
        rw (next-render inside (at t (left ∷ inside)) refl w.1) (
          Reads->>= _ whole λ result t' c. record {
            text = t';
            result = result;
            returns = rw (next-render rest (at t' (right ∷ rest)) refl closing);
            correct = c;
          })
    factor-Reads f lazy t p rest h w = absurd (omega arith)

    -- `term_loop` reads the factors that follow.
    pub factors-Reads :
        (f : ℕ) (lazy result : Bool) (t : List ℕ) (ps : Factors) (rest : List Lexeme)
        → factors_cost ps ≤ f
        → EndsTerm rest
        → All IsLexeme (factors_lexemes ps rest)
        → Reads lazy
            (result && factors_value test ps)
            rest
            (term_loop test f lazy result (at t (factors_lexemes ps rest)))
    factors-Reads f lazy result t no_more rest h e w = record {
      text = t;
      result = result;
      returns = term_loop-stop f lazy result t rest h e;
      correct = λ q. ground arith;
    }
    factors-Reads (suc f) lazy result t (and_then p ps) rest h e w =
        let behind = factors_lexemes ps rest in
        let inside = factor_lexemes p behind in
        rw (next-render inside (at t (word_and ∷ inside)) refl w.1) (
          Reads->>= _ (factor-Reads f (lazy || not result) t p behind (omega arith) w.1)
            λ right t' c.
              Reads-value
                (factors-Reads f lazy (right && result) t' ps rest (omega arith) e
                  (factor_suffix p behind w.1))
                (λ q. ground (arith, c, q)))
    factors-Reads zero lazy result t ps rest h e w = absurd (omega arith)

    -- `expression_loop` reads the terms that follow, inside parentheses.
    pub terms-Reads :
        (f : ℕ) (lazy result : Bool) (t : List ℕ) (ts : Terms) (rest : List Lexeme)
        → terms_cost ts ≤ f
        → EndsTerms rest
        → All IsLexeme (terms_lexemes ts rest)
        → Reads lazy
            (result || terms_value test ts)
            rest
            (expression_loop test f lazy true result (at t (terms_lexemes ts rest)))
    terms-Reads f lazy result t last rest h e w = record {
      text = t;
      result = result;
      returns = expression_loop-stop f lazy true result t rest h e;
      correct = λ q. ground arith;
    }
    terms-Reads (suc (suc (suc f))) lazy result t (or_then p ps ts) rest h e w =
        let behind = terms_lexemes ts rest in
        let inside = factor_lexemes p (factors_lexemes ps behind) in
        let w1 = factor_suffix p (factors_lexemes ps behind) w.1 in
        let term =
          term-Reads (suc f) (lazy || result) t p ps behind
            (factor-Reads (suc f) (lazy || result) t p (factors_lexemes ps behind) (omega arith)
              w.1)
            (λ right t'.
              factors-Reads (suc f) (lazy || result) right t' ps behind (omega arith)
                (terms-EndsTerm ts rest (end_of rest e)) w1) in
        rw (next-render inside (at t (word_or ∷ inside)) refl w.1) (
          Reads->>= _ term λ right t' c.
            rw (stop_inner (suc f) lazy (right || result) (at t' behind)) (
              Reads-value
                (terms-Reads (suc f) lazy (right || result) t' ts rest (omega arith) e
                  (factors_suffix ps behind w1))
                (λ q. ground (arith, c, q))))
    terms-Reads (suc (suc (suc f))) lazy result t (beside n ps ts) rest h e w =
        let behind = terms_lexemes ts rest in
        let term =
          term-Reads (suc f) (lazy || result) n (var n) ps behind
            (factor-Reads (suc f) (lazy || result) n (var n) (factors_lexemes ps behind)
              (omega arith) w)
            (λ right t'.
              factors-Reads (suc f) (lazy || result) right t' ps behind (omega arith)
                (terms-EndsTerm ts rest (end_of rest e)) w.1) in
        (Reads->>= _ term λ right t' c.
          rw (stop_inner (suc f) lazy (right || result) (at t' behind)) (
            Reads-value
              (terms-Reads (suc f) lazy (right || result) t' ts rest (omega arith) e
                (factors_suffix ps behind w.1))
              (λ q. ground (arith, c, q))))
    terms-Reads f lazy result t ts rest h e w = absurd (omega arith)
