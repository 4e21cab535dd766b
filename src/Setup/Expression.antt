-- ===== src/Setup/Expression.antt =====
-- Component expressions (src/setup/expression.cpp).
-- A `char` is a number below 256. The expression is a C string: it ends at its first zero byte
-- or at the end of the list. Positions in the text are the text that is left there.
pub mod Text
pub mod Fuel
pub mod Grammar
pub mod Simple
pub mod Tests
use innoextract_wasm.Base.{
  ℕ, zero, suc, Bool, true, false, not, ◌&&◌, ◌||◌, List, [], ◌∷◌, length, ◌+◌, ◌*◌, ltb, leb, ◌==◌,
  if◌then◌else◌,
}

pub data TokenType : Type 0 where
  finish op_or op_and op_not paren_left paren_right identifier : TokenType

-- What a `std::runtime_error` says, and `out_of_fuel` for a run that was cut short.
pub data Error : Type 0 where
  unexpected_symbol : ℕ → Error
  expected_closing_parenthesis unexpected_token out_of_fuel : Error

pub data Result {ℓ} (A : Type ℓ) : Type ℓ where
  ok : A → Result A
  err : Error → Result A

infixl 5 ◌>>=◌
abbrev pub ◌>>=◌ {ℓ κ} : {A : Type ℓ} {B : Type κ} → Result A → (A → Result B) → Result B
ok a >>= f = f a
err e >>= f = err e

-- `token_start` and `token_length` together are the text of the last identifier.
pub record Evaluator : Type 0 where
  pub expr : List ℕ
  pub token : TokenType
  pub token_text : List ℕ

unfoldable pub is_identifier_start : ℕ → Bool
is_identifier_start c =
    (leb b'a' c && leb c b'z') || (leb b'A' c && leb c b'Z') || c == b'_' || c == b'-'

unfoldable pub is_identifier : ℕ → Bool
unfolding is_identifier_start
is_identifier c = is_identifier_start c || (leb b'0' c && leb c b'9') || c == b'\\'

-- `while(*expr > 0 && *expr <= 32) expr++`
unfoldable pub skip_space : List ℕ → List ℕ
skip_space [] = []
skip_space (c ∷ cs) = let rest = skip_space cs in if ltb 0 c && leb c 32 then rest else c ∷ cs

-- `while(is_identifier(*expr)) expr++`: what was passed over, and the rest.
unfoldable pub span_identifier : List ℕ → List ℕ × List ℕ
unfolding is_identifier
span_identifier [] = ([], [])
span_identifier (c ∷ cs) =
    let (name, rest) = span_identifier cs in
    if is_identifier c then (c ∷ name, rest) else ([], c ∷ cs)

unfoldable pub text_eq : List ℕ → List ℕ → Bool
text_eq [] [] = true
text_eq (x ∷ xs) (y ∷ ys) = x == y && text_eq xs ys
text_eq _ _ = false

abbrev pub not_word : List ℕ
not_word = b'n' ∷ b'o' ∷ b't' ∷ []

abbrev pub and_word : List ℕ
and_word = b'a' ∷ b'n' ∷ b'd' ∷ []

abbrev pub or_word : List ℕ
or_word = b'o' ∷ b'r' ∷ []

-- The token for a word: a keyword, or an identifier, which is the only one to set the text.
pub word_token : List ℕ → List ℕ → Evaluator → Evaluator
word_token name rest e =
    if text_eq name not_word
    then record e { expr = rest; token = op_not }
    else if text_eq name and_word
    then record e { expr = rest; token = op_and }
    else if text_eq name or_word
    then record e { expr = rest; token = op_or }
    else record { expr = rest; token = identifier; token_text = name }

-- `next` behind the white space.
pub next_at : List ℕ → Evaluator → Result Evaluator
next_at [] e = ok (record e { expr = []; token = finish })
next_at (c ∷ cs) e =
    if c == 0
    then ok (record e { expr = c ∷ cs; token = finish })
    else if c == b'('
    then ok (record e { expr = cs; token = paren_left })
    else if c == b')'
    then ok (record e { expr = cs; token = paren_right })
    else if is_identifier_start c
    then (let (name, rest) = span_identifier cs in ok (word_token (c ∷ name) rest e))
    else err (unexpected_symbol c)

pub next : Evaluator → Result Evaluator
next e = next_at (skip_space e.expr) e

-- A value, and the evaluator behind it.
abbrev pub Outcome : Type 0
Outcome = Result (Bool × Evaluator)

module _ (test : List ℕ) where
  pub eval_identifier : Bool → Evaluator → Outcome
  eval_identifier lazy e = do
    let result = lazy || text_eq test e.token_text
    e' ← next e
    ok (result, e')

  -- `if(token != paren_right) throw ...; next(); return result;`
  pub close_paren : Bool → TokenType → Evaluator → Outcome
  close_paren result paren_right e = do e' ← next e; ok (result, e')
  close_paren result _ e = err expected_closing_parenthesis

  -- The recursive descent, with fuel for the depth of the calls and the rounds of the loops.
  -- `factor_at` is `eval_factor` on its token; the loops run at the head of a round.
  mutual
    pub eval_factor : ℕ → Bool → Evaluator → Outcome
    eval_factor zero lazy e = err out_of_fuel
    eval_factor (suc f) lazy e = elim e.token [
      | paren_left ↦ do
        e1 ← next e
        (result, e2) ← eval_expression f lazy true e1
        close_paren result e2.token e2
      | op_not ↦ do e1 ← next e; (result, e2) ← eval_factor f lazy e1; ok (not result, e2)
      | identifier ↦ eval_identifier lazy e
      | _ ↦ err unexpected_token
    ]

    pub eval_term : ℕ → Bool → Evaluator → Outcome
    eval_term zero lazy e = err out_of_fuel
    eval_term (suc f) lazy e = do (result, e1) ← eval_factor f lazy e; term_loop f lazy result e1

    -- `while(token == op_and)`
    pub term_loop : ℕ → Bool → Bool → Evaluator → Outcome
    term_loop zero lazy result e = err out_of_fuel
    term_loop (suc f) lazy result e = elim e.token [
      | op_and ↦ do
        e1 ← next e
        (right, e2) ← eval_factor f (lazy || not result) e1
        term_loop f lazy (right && result) e2
      | _ ↦ ok (result, e)
    ]

    pub eval_expression : ℕ → Bool → Bool → Evaluator → Outcome
    eval_expression zero lazy inner e = err out_of_fuel
    eval_expression (suc f) lazy inner e = do
      (result, e1) ← eval_term f lazy e
      expression_stop f lazy inner result e1

    -- `if(result && !inner) return result;` and the loop behind it.
    pub expression_stop : ℕ → Bool → Bool → Bool → Evaluator → Outcome
    expression_stop zero lazy inner result e = err out_of_fuel
    expression_stop (suc f) lazy inner result e = elim (result && not inner) [
      | true ↦ ok (result, e)
      | false ↦ expression_loop f lazy inner result e
    ]

    -- `while(token == op_or || token == identifier)`
    pub expression_loop : ℕ → Bool → Bool → Bool → Evaluator → Outcome
    expression_loop zero lazy inner result e = err out_of_fuel
    expression_loop (suc f) lazy inner result e = elim e.token [
      | op_or ↦ do
        e1 ← next e
        (right, e2) ← eval_term f (lazy || result) e1
        expression_stop f lazy inner (right || result) e2
      | identifier ↦ do
        (right, e2) ← eval_term f (lazy || result) e
        expression_stop f lazy inner (right || result) e2
      | _ ↦ ok (result, e)
    ]

-- `eval`, on an expression with this much fuel.
pub eval : ℕ → List ℕ → List ℕ → Outcome
eval fuel test expression = do
  e ← next (record { expr = expression; token = finish; token_text = [] })
  eval_expression test fuel false false e

abbrev pub fuel_for : List ℕ → ℕ
fuel_for expression = 8 * length expression + 8

abbrev pub or_true : Outcome → Bool
or_true (ok (result, e)) = result
or_true (err e) = true

-- An expression that cannot be read counts as true.
pub expression_match : List ℕ → List ℕ → Bool
expression_match test expression = or_true (eval (fuel_for expression) test expression)

-- `while(*c) { if(!is_identifier(*c)) return false; c++; }`
pub all_identifier : List ℕ → Bool
unfolding is_identifier
all_identifier [] = true
all_identifier (c ∷ cs) =
    if c == 0 then true else if is_identifier c then all_identifier cs else false

pub is_simple_expression : List ℕ → Bool
unfolding is_identifier_start
is_simple_expression [] = true
is_simple_expression (c ∷ cs) = is_identifier_start c && all_identifier (c ∷ cs)
