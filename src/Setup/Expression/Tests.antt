-- ===== src/Setup/Expression/Tests.antt =====
-- The theorems on expressions at concrete inputs.
use innoextract_wasm.Base.{ℕ, true, ◌&&◌, ◌||◌, List, [], ◌∷◌, ◌≡◌, ◌≢◌, refl, ◌↔◌, ◌⊎◌, arith}
use innoextract_wasm.Setup.Expression.{
  eval, fuel_for, err, out_of_fuel, expression_match, is_simple_expression, all_identifier,
  is_identifier, is_identifier_start, text_eq,
}
use innoextract_wasm.Setup.Expression.Text.{render}
use innoextract_wasm.Setup.Expression.Grammar.{
  var, negated, paren, no_more, and_then, last, or_then, beside, factor_value, factors_value,
  terms_value, factor_lexemes, factors_lexemes, terms_lexemes,
}
use innoextract_wasm.Setup.Expression.Grammar.Match.{expression_lexemes, expression_match-render}
use innoextract_wasm.Setup.Expression.Fuel.{eval-ne-out_of_fuel}
use innoextract_wasm.Setup.Expression.Simple.{simple_match, IsKeyword}

abbrev a : List ℕ
a = b'a' ∷ []

abbrev b : List ℕ
b = b'b' ∷ []

-- "a and not b or (b) a"
expression_match-render_example :
    expression_match a (
      render (
        expression_lexemes
          (var a)
          (and_then (negated (var b)) no_more)
          (or_then (paren (var b) no_more last) no_more (beside a no_more last))))
    ≡ ((factor_value a (var a) && factors_value a (and_then (negated (var b)) no_more))
        || terms_value a (or_then (paren (var b) no_more last) no_more (beside a no_more last)))
unfolding factor_lexemes factors_lexemes terms_lexemes is_identifier is_identifier_start text_eq
expression_match-render_example =
    expression_match-render a (var a) (and_then (negated (var b)) no_more)
      (or_then (paren (var b) no_more last) no_more (beside a no_more last))
      (
        (refl, tt, refl, refl, refl),
        (
          tt,
          (
            tt,
            (
              (refl, tt, refl, refl, refl),
              (tt, (tt, ((refl, tt, refl, refl, refl), (tt, ((refl, tt, refl, refl, refl), tt))))),
            ),
          ),
        ),
      )

eval-ne-out_of_fuel_example :
    eval (fuel_for (b'a' ∷ b'(' ∷ [])) a (b'a' ∷ b'(' ∷ []) ≢ err out_of_fuel
eval-ne-out_of_fuel_example = eval-ne-out_of_fuel a (b'a' ∷ b'(' ∷ [])

simple_match_example : (expression_match a b ≡ true) ↔ (IsKeyword b ⊎ (a ≡ b))
unfolding is_simple_expression is_identifier is_identifier_start all_identifier
simple_match_example = simple_match a b (ground arith) (ground arith, tt) refl
