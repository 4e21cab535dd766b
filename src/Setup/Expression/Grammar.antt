-- ===== src/Setup/Expression/Grammar.antt =====
-- The language of expressions: its syntax and its meaning.
pub mod Reads
pub mod Match
use innoextract_wasm.Base.{ℕ, ◌+◌, Bool, true, false, not, ◌&&◌, ◌||◌, List, [], ◌∷◌, ◌++◌}
use innoextract_wasm.Setup.Expression.Text.{Lexeme, name, word_or, word_and, word_not, left, right}
use innoextract_wasm.Setup.Expression.{text_eq}

-- `Factors` is what follows the first factor of a term, `Terms` what follows the first term of
-- an expression. Two terms with no `or` between them are read as if it stood there; the second
-- then begins with an identifier. An expression is a factor with its `Factors` and `Terms`.
mutual
  pub data Factor : Type 0 where
    var : List ℕ → Factor
    negated : Factor → Factor
    paren : Factor → Factors → Terms → Factor

  pub data Factors : Type 0 where
    no_more : Factors
    and_then : Factor → Factors → Factors

  pub data Terms : Type 0 where
    last : Terms
    or_then : Factor → Factors → Terms → Terms
    beside : List ℕ → Factors → Terms → Terms

-- The lexemes of each part, in front of those behind it.
unfoldable mutual
  pub factor_lexemes : Factor → List Lexeme → List Lexeme
  factor_lexemes (var n) rest = name n ∷ rest
  factor_lexemes (negated p) rest = word_not ∷ factor_lexemes p rest
  factor_lexemes (paren p ps ts) rest =
      left ∷ factor_lexemes p (factors_lexemes ps (terms_lexemes ts (right ∷ rest)))

  pub factors_lexemes : Factors → List Lexeme → List Lexeme
  factors_lexemes no_more rest = rest
  factors_lexemes (and_then p ps) rest = word_and ∷ factor_lexemes p (factors_lexemes ps rest)

  pub terms_lexemes : Terms → List Lexeme → List Lexeme
  terms_lexemes last rest = rest
  terms_lexemes (or_then p ps ts) rest =
      word_or ∷ factor_lexemes p (factors_lexemes ps (terms_lexemes ts rest))
  terms_lexemes (beside n ps ts) rest = name n ∷ factors_lexemes ps (terms_lexemes ts rest)

-- The meaning: a variable is true if it is the one that is tested.
module _ (test : List ℕ) where
  unfoldable mutual
    pub factor_value : Factor → Bool
    factor_value (var n) = text_eq test n
    factor_value (negated p) = not (factor_value p)
    factor_value (paren p ps ts) = (factor_value p && factors_value ps) || terms_value ts

    pub factors_value : Factors → Bool
    factors_value no_more = true
    factors_value (and_then p ps) = factor_value p && factors_value ps

    pub terms_value : Terms → Bool
    terms_value last = false
    terms_value (or_then p ps ts) = (factor_value p && factors_value ps) || terms_value ts
    terms_value (beside n ps ts) = (text_eq test n && factors_value ps) || terms_value ts

-- The fuel that reading a part takes.
unfoldable mutual
  pub factor_cost : Factor → ℕ
  factor_cost (var n) = 1
  factor_cost (negated p) = 1 + factor_cost p
  factor_cost (paren p ps ts) = 4 + factor_cost p + factors_cost ps + terms_cost ts

  pub factors_cost : Factors → ℕ
  factors_cost no_more = 1
  factors_cost (and_then p ps) = 1 + factor_cost p + factors_cost ps

  pub terms_cost : Terms → ℕ
  terms_cost last = 1
  terms_cost (or_then p ps ts) = 4 + factor_cost p + factors_cost ps + terms_cost ts
  terms_cost (beside n ps ts) = 5 + factors_cost ps + terms_cost ts
