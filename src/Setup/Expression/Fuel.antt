-- ===== src/Setup/Expression/Fuel.antt =====
-- The evaluator ends: its fuel is never used up.
use innoextract_wasm.Base.{
  ℕ, zero, suc, ◌+◌, ◌*◌, ◌≤◌, ◌<◌, ◌≢◌, Bool, true, false, not, ◌&&◌, ◌||◌, List, [], ◌∷◌, arith,
  length,
}
use innoextract_wasm.Setup.Expression.{
  TokenType, finish, op_or, op_and, op_not, paren_left, paren_right, identifier, out_of_fuel,
  Result, ok, err, ◌>>=◌, Evaluator, skip_space, span_identifier, word_token, next_at, next,
  Outcome, eval_identifier, close_paren, eval_factor, eval_term, term_loop, eval_expression,
  expression_stop, expression_loop, eval, fuel_for,
}

-- The run ends with fuel left, and a value that it returns has the property.
abbrev Ends : {A : Type 0} → (A → Type 0) → Result A → Type 0
Ends P (ok a) = P a
Ends P (err e) = e ≢ out_of_fuel

>>=-Ends :
    {A B : Type 0} (P : A → Type 0) (Q : B → Type 0) (m : Result A) (f : A → Result B)
    → Ends P m
    → ((a : A) → P a → Ends Q (f a))
    → Ends Q (m >>= f)
>>=-Ends P Q (ok a) f h k = k a h
>>=-Ends P Q (err e) f h k = h

abbrev weight : TokenType → ℕ
weight finish = 0
weight _ = 1

-- What is left to read: the text, and the token at hand.
abbrev measure : Evaluator → ℕ
measure e = length e.expr + weight e.token

abbrev Below : ℕ → Bool × Evaluator → Type 0
Below n (result, e) = measure e < n

abbrev BelowE : ℕ → Evaluator → Type 0
BelowE n e = measure e ≤ n

skip_space-le : (cs : List ℕ) → length (skip_space cs) ≤ length cs
unfolding skip_space
skip_space-le [] = omega arith
skip_space-le (c ∷ cs) = ground (arith, skip_space-le cs)

span_identifier-le : (cs : List ℕ) → length (span_identifier cs).1 ≤ length cs
unfolding span_identifier
span_identifier-le [] = omega arith
span_identifier-le (c ∷ cs) = ground (arith, span_identifier-le cs)

word_token-le :
    (name rest : List ℕ) (e : Evaluator) → measure (word_token name rest e) ≤ length rest + 1
unfolding word_token
word_token-le name rest e = ground arith

next_at-Ends : (cs : List ℕ) (e : Evaluator) → Ends (BelowE (length cs)) (next_at cs e)
unfolding next_at
next_at-Ends [] e = omega arith
next_at-Ends (c ∷ cs) e = ground (
  arith,
  span_identifier-le cs,
  word_token-le (c ∷ (span_identifier cs).0) (span_identifier cs).1 e,
)

Ends-mono :
    {A : Type 0} (P Q : A → Type 0) (r : Result A) → ((a : A) → P a → Q a) → Ends P r → Ends Q r
Ends-mono P Q (ok a) k h = k a h
Ends-mono P Q (err e) k h = h

next-Ends : (e : Evaluator) → Ends (BelowE (length e.expr)) (next e)
unfolding next
next-Ends e =
    Ends-mono (BelowE (length (skip_space e.expr))) (BelowE (length e.expr))
      (next_at (skip_space e.expr) e) (λ a h. omega (arith, skip_space-le e.expr))
      (next_at-Ends (skip_space e.expr) e)

-- An evaluator by its parts, so that a proof can split on the token.
abbrev ev : List ℕ → TokenType → List ℕ → Evaluator
ev x k t = record { expr = x; token = k; token_text = t }

Below-mono : (m n : ℕ) (r : Outcome) → m ≤ n → Ends (Below m) r → Ends (Below n) r
Below-mono m n r h = Ends-mono (Below m) (Below n) r (λ a q. omega arith)

after_next :
    {B : Type 0} (Q : B → Type 0) (e : Evaluator) (f : Evaluator → Result B)
    → ((e' : Evaluator) → measure e' ≤ length e.expr → Ends Q (f e'))
    → Ends Q (next e >>= f)
after_next Q e f = >>=-Ends (BelowE (length e.expr)) Q (next e) f (next-Ends e)

after_call :
    (m n : ℕ) (r : Outcome) (f : Bool × Evaluator → Outcome)
    → Ends (Below m) r
    → ((result : Bool) (e : Evaluator) → measure e < m → Ends (Below n) (f (result, e)))
    → Ends (Below n) (r >>= f)
after_call m n r f h k = >>=-Ends (Below m) (Below n) r f h (λ a p. k a.0 a.1 p)

module _ (test : List ℕ) where
  close_paren-Ends :
      (result : Bool) (n : ℕ) (k : TokenType) (e : Evaluator)
      → length e.expr < n
      → Ends (Below n) (close_paren test result k e)
  unfolding close_paren
  close_paren-Ends result n paren_right e h = after_next (Below n) e _ (λ e' p. omega arith)
  close_paren-Ends result n _ e h = λ q. cc

  mutual
    unfolding eval_factor eval_term term_loop eval_expression expression_stop expression_loop
        eval_identifier

    factor-Ends :
        (f : ℕ) (lazy : Bool) (x : List ℕ) (k : TokenType) (t : List ℕ)
        → 4 * measure (ev x k t) + 1 ≤ f
        → Ends (Below (measure (ev x k t))) (eval_factor test f lazy (ev x k t))
    factor-Ends zero lazy x k t h = absurd (omega arith)
    factor-Ends (suc f) lazy x paren_left t h =
        after_next (Below (length x + 1)) (ev x paren_left t) _ λ e1 p.
          after_call (length x + 1) (length x + 1) (eval_expression test f lazy true e1) _
            (Below-mono (measure e1) (length x + 1) _ (omega arith)
              (expression-Ends f lazy true e1.expr e1.token e1.token_text (omega arith)))
            λ result e2 q. close_paren-Ends result _ e2.token e2 (omega arith)
    factor-Ends (suc f) lazy x op_not t h =
        after_next (Below (length x + 1)) (ev x op_not t) _ λ e1 p.
          after_call (length x + 1) (length x + 1) (eval_factor test f lazy e1) _
            (Below-mono (measure e1) (length x + 1) _ (omega arith)
              (factor-Ends f lazy e1.expr e1.token e1.token_text (omega arith)))
            λ result e2 q. omega arith
    factor-Ends (suc f) lazy x identifier t h =
        after_next (Below (length x + 1)) (ev x identifier t) _ (λ e1 p. omega arith)
    factor-Ends (suc f) lazy x _ t h = λ q. cc

    term-Ends :
        (f : ℕ) (lazy : Bool) (x : List ℕ) (k : TokenType) (t : List ℕ)
        → 4 * measure (ev x k t) + 2 ≤ f
        → Ends (Below (measure (ev x k t))) (eval_term test f lazy (ev x k t))
    term-Ends zero lazy x k t h = absurd (omega arith)
    term-Ends (suc f) lazy x k t h =
        after_call (measure (ev x k t)) (measure (ev x k t)) (eval_factor test f lazy (ev x k t)) _
          (factor-Ends f lazy x k t (omega arith))
          λ result e1 p.
            Below-mono (measure e1 + 1) (measure (ev x k t)) _ (omega arith)
              (term_loop-Ends f lazy result e1.expr e1.token e1.token_text (omega arith))

    term_loop-Ends :
        (f : ℕ) (lazy result : Bool) (x : List ℕ) (k : TokenType) (t : List ℕ)
        → 4 * measure (ev x k t) + 1 ≤ f
        → Ends (Below (measure (ev x k t) + 1)) (term_loop test f lazy result (ev x k t))
    term_loop-Ends zero lazy result x k t h = absurd (omega arith)
    term_loop-Ends (suc f) lazy result x op_and t h =
        after_next (Below (length x + 1 + 1)) (ev x op_and t) _ λ e1 p.
          after_call (length x + 1) (length x + 1 + 1) (eval_factor test f (lazy || not result) e1)
            _
            (Below-mono (measure e1) (length x + 1) _ (omega arith)
              (factor-Ends f (lazy || not result) e1.expr e1.token e1.token_text (omega arith)))
            λ right e2 q.
              Below-mono (measure e2 + 1) (length x + 1 + 1) _ (omega arith) (
                term_loop-Ends f lazy (right && result) e2.expr e2.token e2.token_text
                  (omega arith))
    term_loop-Ends (suc f) lazy result x _ t h = omega arith

    expression-Ends :
        (f : ℕ) (lazy inner : Bool) (x : List ℕ) (k : TokenType) (t : List ℕ)
        → 4 * measure (ev x k t) + 3 ≤ f
        → Ends (Below (measure (ev x k t))) (eval_expression test f lazy inner (ev x k t))
    expression-Ends zero lazy inner x k t h = absurd (omega arith)
    expression-Ends (suc f) lazy inner x k t h =
        after_call (measure (ev x k t)) (measure (ev x k t)) (eval_term test f lazy (ev x k t)) _
          (term-Ends f lazy x k t (omega arith))
          λ result e1 p.
            Below-mono (measure e1 + 1) (measure (ev x k t)) _ (omega arith) (
              expression_stop-Ends f lazy inner result e1.expr e1.token e1.token_text (omega arith))

    expression_stop-Ends :
        (f : ℕ) (lazy inner result : Bool) (x : List ℕ) (k : TokenType) (t : List ℕ)
        → 4 * measure (ev x k t) + 5 ≤ f
        → Ends
            (Below (measure (ev x k t) + 1))
            (expression_stop test f lazy inner result (ev x k t))
    expression_stop-Ends zero lazy inner result x k t h = absurd (omega arith)
    expression_stop-Ends (suc f) lazy false true x k t h = omega arith
    expression_stop-Ends (suc f) lazy true true x k t h =
        expression_loop-Ends f lazy true true x k t (omega arith)
    expression_stop-Ends (suc f) lazy inner false x k t h =
        expression_loop-Ends f lazy inner false x k t (omega arith)

    expression_loop-Ends :
        (f : ℕ) (lazy inner result : Bool) (x : List ℕ) (k : TokenType) (t : List ℕ)
        → 4 * measure (ev x k t) + 4 ≤ f
        → Ends
            (Below (measure (ev x k t) + 1))
            (expression_loop test f lazy inner result (ev x k t))
    expression_loop-Ends zero lazy inner result x k t h = absurd (omega arith)
    expression_loop-Ends (suc f) lazy inner result x op_or t h =
        after_next (Below (length x + 1 + 1)) (ev x op_or t) _ λ e1 p.
          after_call (measure e1) (length x + 1 + 1) (eval_term test f (lazy || result) e1) _
            (term-Ends f (lazy || result) e1.expr e1.token e1.token_text (omega arith))
            λ right e2 q. Below-mono (measure e2 + 1) (length x + 1 + 1) _ (omega arith) (
              expression_stop-Ends f lazy inner (right || result) e2.expr e2.token e2.token_text
                (omega arith))
    expression_loop-Ends (suc f) lazy inner result x identifier t h =
        after_call (length x + 1) (length x + 1 + 1)
          (eval_term test f (lazy || result) (ev x identifier t)) _
          (Below-mono (length x + 1) (length x + 1) _ (omega arith)
            (term-Ends f (lazy || result) x identifier t (omega arith)))
          λ right e2 q. Below-mono (measure e2 + 1) (length x + 1 + 1) _ (omega arith) (
            expression_stop-Ends f lazy inner (right || result) e2.expr e2.token e2.token_text
              (omega arith))
    expression_loop-Ends (suc f) lazy inner result x _ t h = omega arith

-- With the fuel that `expression_match` gives it, the evaluator never runs out: it returns a
-- value or one of the errors of the program.
pub eval-ne-out_of_fuel :
    (test expression : List ℕ) → eval (fuel_for expression) test expression ≢ err out_of_fuel
unfolding eval
eval-ne-out_of_fuel test expression = ends _ all
  where
    start : Evaluator
    start = record { expr = expression; token = finish; token_text = [] }

    all :
        Ends
          (Below (length expression + 1))
          (next start >>= eval_expression test (fuel_for expression) false false)
    all = after_next (Below (length expression + 1)) start _ λ e p.
        Below-mono (measure e) (length expression + 1) _ (omega arith) (
          expression-Ends test (fuel_for expression) false false e.expr e.token e.token_text
            (omega arith))

    ends : (r : Outcome) → Ends (Below (length expression + 1)) r → r ≢ err out_of_fuel
    ends (ok a) h q = cc
    ends (err e) h q = h (cc)
