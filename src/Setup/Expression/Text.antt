-- ===== src/Setup/Expression/Text.antt =====
-- Expressions as lists of lexemes, each written with a space before it, and what `next` reads
-- of such a text.
use innoextract_wasm.Base.{
  ℕ, ◌≤◌, ◌<◌, ◌≡◌, refl, sym, ◌∙◌, ap, true, false, List, [], ◌∷◌, ◌++◌, append-nil, arith, All,
}
use innoextract_wasm.Setup.Expression.{
  finish, op_or, op_and, op_not, paren_left, paren_right, identifier, ok, Evaluator,
  is_identifier_start, is_identifier, skip_space, span_identifier, text_eq, not_word, and_word,
  or_word, word_token, next_at, next,
}

pub data Lexeme : Type 0 where
  name : List ℕ → Lexeme
  word_or word_and word_not left right : Lexeme

abbrev pub spell : Lexeme → List ℕ
spell (name n) = n
spell word_or = or_word
spell word_and = and_word
spell word_not = not_word
spell left = b'(' ∷ []
spell right = b')' ∷ []

abbrev pub render : List Lexeme → List ℕ
render [] = []
render (l ∷ ls) = b' ' ∷ (spell l ++ render ls)

-- The evaluator that has just read the first of these lexemes.
abbrev pub at : List ℕ → List Lexeme → Evaluator
at t [] = record { expr = []; token = finish; token_text = t }
at t (name n ∷ ls) = record { expr = render ls; token = identifier; token_text = n }
at t (word_or ∷ ls) = record { expr = render ls; token = op_or; token_text = t }
at t (word_and ∷ ls) = record { expr = render ls; token = op_and; token_text = t }
at t (word_not ∷ ls) = record { expr = render ls; token = op_not; token_text = t }
at t (left ∷ ls) = record { expr = render ls; token = paren_left; token_text = t }
at t (right ∷ ls) = record { expr = render ls; token = paren_right; token_text = t }

-- An identifier that is no keyword.
abbrev pub IsName : List ℕ → Type 0
IsName [] = ⊥
IsName (c ∷ cs) =
    (is_identifier_start c ≡ true)
    × All (λ x. is_identifier x ≡ true) cs
    × (text_eq (c ∷ cs) not_word ≡ false)
    × (text_eq (c ∷ cs) and_word ≡ false)
    × (text_eq (c ∷ cs) or_word ≡ false)

abbrev pub IsLexeme : Lexeme → Type 0
IsLexeme (name n) = IsName n
IsLexeme _ = Unit

span_identifier-render :
    (cs : List ℕ) (ls : List Lexeme)
    → All (λ x. is_identifier x ≡ true) cs
    → span_identifier (cs ++ render ls) ≡ (cs, render ls)
unfolding span_identifier
span_identifier-render [] [] h = refl
span_identifier-render [] (l ∷ ls) h = refl
span_identifier-render (c ∷ cs) ls h = rw (h.0, span_identifier-render cs ls h.1)

-- Letters, `_` and `-` lie above the space and both parentheses.
start-le : (c : ℕ) → is_identifier_start c ≡ true → 45 ≤ c
unfolding is_identifier_start
start-le c h = ground arith

next_at-word :
    (c : ℕ) (cs : List ℕ) (ls : List Lexeme) (e : Evaluator)
    → is_identifier_start c ≡ true
    → All (λ x. is_identifier x ≡ true) cs
    → next_at (c ∷ (cs ++ render ls)) e ≡ ok (word_token (c ∷ cs) (render ls) e)
unfolding next_at
next_at-word c cs ls e h k = rw (span_identifier-render cs ls k) (ground (arith, start-le c))

skip_space-stop : (c : ℕ) (cs : List ℕ) → 32 < c → skip_space (b' ' ∷ c ∷ cs) ≡ c ∷ cs
unfolding skip_space
skip_space-stop c cs h = ground arith

next-word :
    (c : ℕ) (cs : List ℕ) (ls : List Lexeme) (e : Evaluator)
    → e.expr ≡ b' ' ∷ c ∷ (cs ++ render ls)
    → is_identifier_start c ≡ true
    → All (λ x. is_identifier x ≡ true) cs
    → next e ≡ ok (word_token (c ∷ cs) (render ls) e)
unfolding next
next-word c cs ls e x h k =
    ap (λ t. next_at (skip_space t) e) x
    ∙ ap (λ t. next_at t e) (skip_space-stop c (cs ++ render ls) (omega (arith, start-le c h)))
    ∙ next_at-word c cs ls e h k

word_token-name :
    (n rest : List ℕ) (e : Evaluator)
    → text_eq n not_word ≡ false
    → text_eq n and_word ≡ false
    → text_eq n or_word ≡ false
    → word_token n rest e ≡ record { expr = rest; token = identifier; token_text = n }
unfolding word_token
word_token-name n rest e p q r = rw (p, q, r)

next_paren :
    (c : ℕ) (cs : List ℕ) (e e' : Evaluator)
    → e.expr ≡ b' ' ∷ c ∷ cs
    → 32 < c
    → next_at (c ∷ cs) e ≡ ok e'
    → next e ≡ ok e'
unfolding next
next_paren c cs e e' x h q =
    ap (λ t. next_at (skip_space t) e) x ∙ ap (λ t. next_at t e) (skip_space-stop c cs h) ∙ q

-- `next` reads one lexeme of a rendered list.
pub next-render :
    (ls : List Lexeme) (e : Evaluator)
    → e.expr ≡ render ls
    → All IsLexeme ls
    → next e ≡ ok (at e.token_text ls)
unfolding word_token text_eq is_identifier
next-render [] e x h = unfold next next_at skip_space in ap (λ t. next_at (skip_space t) e) x
next-render (name [] ∷ ls) e x h = absurd h.0
next-render (name (c ∷ cs) ∷ ls) e x h =
    let n = h.0 in
    next-word c cs ls e x n.0 n.1 ∙ ap ok (word_token-name (c ∷ cs) (render ls) e n.2 n.3 n.4)
next-render (word_or ∷ ls) e x h = next-word b'o' (b'r' ∷ []) ls e x refl (refl, tt)
next-render (word_and ∷ ls) e x h = next-word b'a' (b'n' ∷ b'd' ∷ []) ls e x refl (refl, (refl, tt))
next-render (word_not ∷ ls) e x h = next-word b'n' (b'o' ∷ b't' ∷ []) ls e x refl (refl, (refl, tt))
next-render (left ∷ ls) e x h = next_paren b'(' _ e _ x (omega arith) (unfold next_at in refl)
next-render (right ∷ ls) e x h = next_paren b')' _ e _ x (omega arith) (unfold next_at in refl)

-- A name that stands alone in the text, with no space before it.
pub next_name :
    (n : List ℕ) (e : Evaluator)
    → e.expr ≡ n
    → IsName n
    → next e ≡ ok (at e.token_text (name n ∷ []))
unfolding next
next_name [] e x h = absurd h
next_name (c ∷ cs) e x h =
    ap (λ t. next_at (skip_space t) e) x
    ∙ ap (λ t. next_at t e) (skip_space-keep c cs (omega (arith, start-le c h.0)))
    ∙ ap (λ t. next_at (c ∷ t) e) (sym (append-nil cs))
    ∙ next_at-word c cs [] e h.0 h.1
    ∙ ap ok (word_token-name (c ∷ cs) [] e h.2 h.3 h.4)
  where
    skip_space-keep : (c : ℕ) (cs : List ℕ) → 32 < c → skip_space (c ∷ cs) ≡ c ∷ cs
    skip_space-keep c cs h = unfold skip_space in ground arith
