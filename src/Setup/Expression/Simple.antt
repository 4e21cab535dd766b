-- ===== src/Setup/Expression/Simple.antt =====
-- Expressions that are a single name: `is_simple_expression`.
use innoextract_wasm.Base.{
  ℕ, suc, ◌+◌, ◌*◌, ◌≡◌, refl, sym, ◌∙◌, ap, Bool, true, false, List, [], ◌∷◌, arith, All, length,
  ◌≢◌, ◌↔◌, ◌⊎◌, inl, inr, ◌||◌, ◌&&◌,
}
use innoextract_wasm.Setup.Expression.Grammar.Match.{expression-Value}
use innoextract_wasm.Setup.Expression.Grammar.{
  var, no_more, last, factor_lexemes, factor_value, factor_cost,
}
use innoextract_wasm.Setup.Expression.Text.{IsName, next_name, name, at}
use innoextract_wasm.Setup.Expression.{
  Evaluator, is_identifier_start, is_identifier, all_identifier, is_simple_expression, text_eq,
  not_word, and_word, or_word, word_token, next_at, next, skip_space, span_identifier, finish,
  eval_factor, eval_expression, eval, or_true, fuel_for, expression_match,
}

pub text_eq_iff : (a b : List ℕ) → (text_eq a b ≡ true) ↔ (a ≡ b)
unfolding text_eq
text_eq_iff (x ∷ a) (y ∷ b) = ground (arith, text_eq_iff a b)
text_eq_iff _ _ = ground arith

all_identifier-All :
    (cs : List ℕ)
    → All (λ c. c ≢ 0) cs
    → all_identifier cs ≡ true
    → All (λ c. is_identifier c ≡ true) cs
unfolding all_identifier
all_identifier-All [] n h = tt
all_identifier-All (c ∷ cs) n h = ground (arith, all_identifier-All cs)

abbrev pub IsKeyword : List ℕ → Type 0
IsKeyword e = (e ≡ not_word) ⊎ ((e ≡ and_word) ⊎ (e ≡ or_word))

-- Alone, a keyword cannot be evaluated, which counts as true.
keyword_match : (test e : List ℕ) → IsKeyword e → expression_match test e ≡ true
unfolding expression_match eval next skip_space next_at span_identifier word_token text_eq
    is_identifier_start eval_factor
keyword_match test e (inl h) = ap (expression_match test) h
keyword_match test e (inr (inl h)) = ap (expression_match test) h
keyword_match test e (inr (inr h)) = ap (expression_match test) h

alone : (b : Bool) → ((b && true) || false) ≡ b
alone true = refl
alone false = refl

name_match : (test e : List ℕ) → IsName e → expression_match test e ≡ text_eq test e
unfolding expression_match eval factor_lexemes factor_value factor_cost
name_match test e h =
    let start : Evaluator = record { expr = e; token = finish; token_text = [] } in
    let run =
      expression-Value test [] (var e) no_more last (8 * length e + 5) (h, tt) (omega arith) in
    rw (next_name e start refl h) (
      ap (λ f. or_true (eval_expression test f false false (at [] (name e ∷ [])))) {x = fuel_for e}
        {y = suc (suc (suc (8 * length e + 5)))} (omega arith)
      ∙ ap or_true run.1
      ∙ alone (text_eq test e))

IsKeyword-cases :
    (e : List ℕ)
    → IsKeyword e
      ⊎ ((text_eq e not_word ≡ false) × (text_eq e and_word ≡ false) × (text_eq e or_word ≡ false))
IsKeyword-cases e =
    ground (arith, text_eq_iff e not_word, text_eq_iff e and_word, text_eq_iff e or_word)

simple-IsName :
    (e : List ℕ)
    → e ≢ []
    → All (λ c. c ≢ 0) e
    → is_simple_expression e ≡ true
    → (text_eq e not_word ≡ false) × (text_eq e and_word ≡ false) × (text_eq e or_word ≡ false)
    → IsName e
unfolding is_simple_expression
simple-IsName [] ne z h k = ne refl
simple-IsName (c ∷ cs) ne z h k =
    (ground arith, (all_identifier-All (c ∷ cs) z (ground arith)).1, k.0, k.1, k.2)

-- A simple expression that is not empty and holds no zero byte is true exactly when it is the
-- name that is tested, or when it is one of the three keywords, which are errors by themselves.
pub simple_match :
    (test e : List ℕ)
    → e ≢ []
    → All (λ c. c ≢ 0) e
    → is_simple_expression e ≡ true
    → (expression_match test e ≡ true) ↔ (IsKeyword e ⊎ (test ≡ e))
simple_match test e ne z h = elim (IsKeyword-cases e) [
  | inl k ↦ (λ m. inl k, λ m. keyword_match test e k)
  | inr k ↦ (
    λ m. inr ((text_eq_iff test e).0 (sym (matched k) ∙ m)),
    λ m. elim m [
      | inl key ↦ keyword_match test e key
      | inr same ↦ matched k ∙ (text_eq_iff test e).1 same
    ],
  )
]
  where
    matched :
        (text_eq e not_word ≡ false) × (text_eq e and_word ≡ false) × (text_eq e or_word ≡ false)
        → expression_match test e ≡ text_eq test e
    matched k = name_match test e (simple-IsName e ne z h k)
