-- ===== src/Setup/Expression/Grammar/Match.antt =====
-- `expression_match` gives a well-formed expression its meaning.
use innoextract_wasm.Base.{
  ℕ, zero, suc, ◌+◌, ◌*◌, ◌≤◌, ◌≡◌, refl, ◌∙◌, ap, Bool, true, false, ◌&&◌, ◌||◌, List, [], ◌∷◌,
  arith, All, length, length-append, subst,
}
use innoextract_wasm.Setup.Expression.Grammar.Reads.{
  Reads, term-Reads, factor-Reads, factors-Reads, factor_suffix, factors_suffix, terms-EndsTerm,
  expression_loop-stop,
}
use innoextract_wasm.Setup.Expression.Grammar.{
  Factor, var, negated, paren, Factors, no_more, and_then, Terms, last, or_then, beside,
  factor_lexemes, factors_lexemes, terms_lexemes, factor_value, factors_value, terms_value,
  factor_cost, factors_cost, terms_cost,
}
use innoextract_wasm.Setup.Expression.Text.{
  Lexeme, name, word_or, right, render, at, IsLexeme, next-render,
}
use innoextract_wasm.Setup.Expression.{
  ok, ◌>>=◌, Evaluator, Outcome, finish, eval_term, eval_expression, expression_stop,
  expression_loop, eval, fuel_for, expression_match, or_true,
}

-- A successful run with this value.
abbrev pub Value : Bool → Outcome → Type 0
Value b r = (e : Evaluator) × (r ≡ ok (b, e))

Value->>= :
    {value : Bool} {rest : List Lexeme} {r : Outcome} (b : Bool) (f : Bool × Evaluator → Outcome)
    → Reads false value rest r
    → ((t : List ℕ) → Value b (f (value, at t rest)))
    → Value b (r >>= f)
Value->>= b f m k = rw (m.returns, m.correct refl) (k m.text)

or_false : (b : Bool) → (b || false) ≡ b
or_false true = refl
or_false false = refl

module _ (test : List ℕ) where
  -- The outermost level stops at the first term that holds.
  stop_at_true :
      (f : ℕ) (e : Evaluator) → expression_stop test (suc f) false false true e ≡ ok (true, e)
  unfolding expression_stop
  stop_at_true f e = refl

  go_on :
      (f : ℕ) (e : Evaluator)
      → expression_stop test (suc f) false false false e
        ≡ expression_loop test f false false false e
  unfolding expression_stop
  go_on f e = refl

  -- One round of the outermost loop: a term, and what follows it.
  round-Value :
      (f : ℕ) (value : Bool) (e : Evaluator) (ts : Terms)
      → Reads false value (terms_lexemes ts []) (eval_term test f false e)
      → ((result : Bool) (t : List ℕ)
          → Value
              (result || terms_value test ts)
              (expression_stop test f false false result (at t (terms_lexemes ts []))))
      → Value (value || terms_value test ts) (
          eval_term test f false e >>= λ (next_value, e2).
          expression_stop test f false false (next_value || false) e2)
  round-Value f value e ts term others = Value->>= _ _ term λ t'.
      subst
        (λ b.
          Value (b || terms_value test ts)
            (expression_stop test f false false (value || false) (at t' (terms_lexemes ts []))))
        (or_false value) (others (value || false) t')

  terms-Value :
      (f : ℕ) (result : Bool) (t : List ℕ) (ts : Terms)
      → terms_cost ts + 1 ≤ f
      → All IsLexeme (terms_lexemes ts [])
      → Value
          (result || terms_value test ts)
          (expression_stop test f false false result (at t (terms_lexemes ts [])))
  unfolding terms_lexemes terms_value terms_cost factor_lexemes factor_value factor_cost
      expression_loop
  terms-Value (suc f) true t ts h w = (_, stop_at_true f (at t (terms_lexemes ts [])))
  terms-Value (suc f) false t last h w = (
    at t [],
    go_on f (at t []) ∙ expression_loop-stop test f false false false t [] (omega arith) tt,
  )
  terms-Value (suc (suc (suc (suc f)))) false t (or_then p ps ts) h w =
      let behind = terms_lexemes ts [] in
      let inside = factor_lexemes p (factors_lexemes ps behind) in
      let w1 = factor_suffix p (factors_lexemes ps behind) w.1 in
      let term =
        term-Reads test (suc f) false t p ps behind
          (factor-Reads test (suc f) false t p (factors_lexemes ps behind) (omega arith) w.1)
          (λ right t'.
            factors-Reads test (suc f) false right t' ps behind (omega arith)
              (terms-EndsTerm ts [] tt) w1) in
      rw
        (
          go_on (suc (suc (suc f))) (at t (word_or ∷ inside)),
          expression_loop,
          next-render inside (at t (word_or ∷ inside)) refl w.1,
        )
        (round-Value (suc (suc f)) _ (at t inside) ts term λ result t'.
          terms-Value (suc (suc f)) result t' ts (omega arith) (factors_suffix ps behind w1))
  terms-Value (suc (suc (suc (suc f)))) false t (beside n ps ts) h w =
      let behind = terms_lexemes ts [] in
      let term =
        term-Reads test (suc f) false n (var n) ps behind
          (factor-Reads test (suc f) false n (var n) (factors_lexemes ps behind) (omega arith) w)
          (λ right t'.
            factors-Reads test (suc f) false right t' ps behind (omega arith)
              (terms-EndsTerm ts [] tt) w.1) in
      round-Value (suc (suc f)) _ (at n (name n ∷ factors_lexemes ps behind)) ts term λ result t'.
        terms-Value (suc (suc f)) result t' ts (omega arith) (factors_suffix ps behind w.1)
  terms-Value zero result t ts h w = absurd (omega arith)
  terms-Value f result t ts h w = absurd (omega arith)

-- The fuel that a part takes is bounded by the text that it adds.
mutual
  unfolding factor_lexemes factors_lexemes terms_lexemes factor_cost factors_cost terms_cost

  factor_cost-le :
      (p : Factor) (rest : List Lexeme)
      → factor_cost p + 8 * length (render rest) ≤ 8 * length (render (factor_lexemes p rest))
  factor_cost-le (var n) rest = omega (arith, length-append n (render rest))
  factor_cost-le (negated p) rest = omega (arith, factor_cost-le p rest)
  factor_cost-le (paren p ps ts) rest = omega (
    arith,
    factor_cost-le p (factors_lexemes ps (terms_lexemes ts (right ∷ rest))),
    factors_cost-le ps (terms_lexemes ts (right ∷ rest)),
    terms_cost-le ts (right ∷ rest),
  )

  factors_cost-le :
      (ps : Factors) (rest : List Lexeme)
      → factors_cost ps + 8 * length (render rest)
        ≤ 1 + 8 * length (render (factors_lexemes ps rest))
  factors_cost-le no_more rest = omega arith
  factors_cost-le (and_then p ps) rest =
      omega (arith, factor_cost-le p (factors_lexemes ps rest), factors_cost-le ps rest)

  terms_cost-le :
      (ts : Terms) (rest : List Lexeme)
      → terms_cost ts + 8 * length (render rest) ≤ 1 + 8 * length (render (terms_lexemes ts rest))
  terms_cost-le last rest = omega arith
  terms_cost-le (or_then p ps ts) rest = omega (
    arith,
    factor_cost-le p (factors_lexemes ps (terms_lexemes ts rest)),
    factors_cost-le ps (terms_lexemes ts rest),
    terms_cost-le ts rest,
  )
  terms_cost-le (beside n ps ts) rest = omega (
    arith,
    length-append n (render (factors_lexemes ps (terms_lexemes ts rest))),
    factors_cost-le ps (terms_lexemes ts rest),
    terms_cost-le ts rest,
  )

-- An expression: a first factor, the other factors of its term, and the other terms.
abbrev pub expression_lexemes : Factor → Factors → Terms → List Lexeme
expression_lexemes p ps ts = factor_lexemes p (factors_lexemes ps (terms_lexemes ts []))

-- The value of an expression whose first lexeme has been read.
pub expression-Value :
    (test t : List ℕ) (p : Factor) (ps : Factors) (ts : Terms) (f : ℕ)
    → All IsLexeme (expression_lexemes p ps ts)
    → factor_cost p + factors_cost ps + terms_cost ts + 1 ≤ f
    → Value
        ((factor_value test p && factors_value test ps) || terms_value test ts)
        (eval_expression test (suc (suc (suc f))) false false (at t (expression_lexemes p ps ts)))
unfolding eval_expression
expression-Value test t p ps ts f w h =
    let behind = terms_lexemes ts [] in
    let w1 = factor_suffix p (factors_lexemes ps behind) w in
    let term =
      term-Reads test (suc f) false t p ps behind
        (factor-Reads test (suc f) false t p (factors_lexemes ps behind) (omega arith) w)
        (λ result t'.
          factors-Reads test (suc f) false result t' ps behind (omega arith)
            (terms-EndsTerm ts [] tt) w1) in
    Value->>= _ _ term
      λ t'. terms-Value test (suc (suc f)) _ t' ts (omega arith) (factors_suffix ps behind w1)

eval-Value :
    (test : List ℕ) (p : Factor) (ps : Factors) (ts : Terms) (f : ℕ)
    → All IsLexeme (expression_lexemes p ps ts)
    → factor_cost p + factors_cost ps + terms_cost ts + 1 ≤ f
    → Value
        ((factor_value test p && factors_value test ps) || terms_value test ts)
        (eval (suc (suc (suc f))) test (render (expression_lexemes p ps ts)))
unfolding eval
eval-Value test p ps ts f w h =
    let whole = expression_lexemes p ps ts in
    rw (next-render whole (record { expr = render whole; token = finish; token_text = [] }) refl w)
      (expression-Value test [] p ps ts f w h)

-- An expression that is written by the grammar, with names that are identifiers and no keywords, is
-- true exactly when its meaning is, for every name that is tested: `and` binds tighter than `or`,
-- `not` tighter than both, and a missing `or` between two terms is supplied. Skipping what no longer
-- matters changes nothing.
pub expression_match-render :
    (test : List ℕ) (p : Factor) (ps : Factors) (ts : Terms)
    → All IsLexeme (expression_lexemes p ps ts)
    → expression_match test (render (expression_lexemes p ps ts))
      ≡ ((factor_value test p && factors_value test ps) || terms_value test ts)
unfolding expression_match
expression_match-render test p ps ts w =
    let source = render (expression_lexemes p ps ts) in
    let behind = terms_lexemes ts [] in
    let fits : factor_cost p + factors_cost ps + terms_cost ts + 1 ≤ 8 * length source + 5 = omega (
      arith,
      factor_cost-le p (factors_lexemes ps behind),
      factors_cost-le ps behind,
      terms_cost-le ts [],
    ) in
    let run = eval-Value test p ps ts (8 * length source + 5) w fits in
    ap (λ f. or_true (eval f test source)) {x = fuel_for source}
      {y = suc (suc (suc (8 * length source + 5)))} (omega arith)
    ∙ ap or_true run.1
