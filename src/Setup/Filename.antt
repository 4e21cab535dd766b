-- ===== src/Setup/Filename.antt =====
-- Output file names (src/setup/filename.hpp, src/setup/filename.cpp).
-- Strings are lists of bytes. The map from variables to their values is an association list.
pub mod Safe
pub mod Segments
pub mod Shorten
pub mod Tests
use innoextract_wasm.Base.{
  ℕ, zero, suc, ◌+◌, Bool, true, false, not, ◌&&◌, ◌||◌, Option, none, some, List, [], ◌∷◌, ◌++◌,
  map, take, length, ltb, leb, ◌==◌, if◌then◌else◌,
}

-- `path_sep`, on platforms other than Windows
abbrev pub path_sep : ℕ
path_sep = b'/'

unfoldable pub is_path_separator : ℕ → Bool
is_path_separator c = c == b'\\' || c == b'/'

unfoldable pub is_unsafe_path_char : ℕ → Bool
is_unsafe_path_char c =
    ltb c 32
    || c == b'<'
    || c == b'>'
    || c == b':'
    || c == b'"'
    || c == b'|'
    || c == b'?'
    || c == b'*'

unfoldable pub replace_unsafe_chars : List ℕ → List ℕ
unfolding is_unsafe_path_char
replace_unsafe_chars = map (λ c. if is_unsafe_path_char c then b'$' else c)

pub text_eq : List ℕ → List ℕ → Bool
text_eq [] [] = true
text_eq (x ∷ xs) (y ∷ ys) = x == y && text_eq xs ys
text_eq _ _ = false

pub record FilenameMap : Type 0 where
  pub entries : List (List ℕ × List ℕ)
  pub lowercase : Bool
  pub expand : Bool

pub find : List ℕ → List (List ℕ × List ℕ) → Option (List ℕ)
unfolding text_eq
find key [] = none
find key ((k, v) ∷ rest) = if text_eq k key then some v else find key rest

pub lookup : List (List ℕ × List ℕ) → List ℕ → List ℕ
lookup entries key = elim (find key entries) [ none ↦ replace_unsafe_chars key | some v ↦ v ]

abbrev is_bracket : ℕ → Bool
is_bracket c = c == b'{' || c == b'}'

-- `while(pos != end && *pos != '{' && *pos != '}') ++pos`: what was passed over, and the rest.
unfoldable pub span_plain : List ℕ → List ℕ × List ℕ
span_plain [] = ([], [])
span_plain (c ∷ cs) =
    let (plain, rest) = span_plain cs in if is_bracket c then ([], c ∷ cs) else (c ∷ plain, rest)

-- What the loop meets behind plain text: the end, the end of this context, a literal bracket,
-- or a variable.
pub data Action : Type 0 where
  at_end : Action
  closed : List ℕ → Action
  literal : ℕ → List ℕ → Action
  variable : List ℕ → Action

-- behind an opening bracket: the `{{` escape sequence, or a variable
pub opened : List ℕ → Action
opened [] = variable []
opened (c ∷ cs) = if c == b'{' then literal b'{' cs else variable (c ∷ cs)

pub action : Bool → List ℕ → Action
action close [] = at_end
action close (c ∷ cs) =
    if close && c == b'}'
    then closed cs
    else if not close && c == b'}'
    then literal b'}' cs
    else opened cs

abbrev pub prefixed : List ℕ → Option (List ℕ × List ℕ) → Option (List ℕ × List ℕ)
prefixed before none = none
prefixed before (some (out, rest)) = some (before ++ out, rest)

-- The rest of a round of the loop, where `expand` is the next round or a recursive call.
pub perform :
    List (List ℕ × List ℕ)
    → (Bool → List ℕ → Option (List ℕ × List ℕ))
    → Bool
    → Action
    → Option (List ℕ × List ℕ)
perform entries expand close at_end = some ([], [])
perform entries expand close (closed rest) = some ([], rest)
perform entries expand close (literal c rest) = prefixed (c ∷ []) (expand close rest)
perform entries expand close (variable rest) = elim (expand true rest) [
  | none ↦ none
  | some (name, rest') ↦ prefixed (lookup entries name) (expand close rest')
]

-- The expanded text and the text that is left. A round of the loop and a recursive call take a
-- unit of fuel; `none` means that the fuel ran out.
pub expand_variables : List (List ℕ × List ℕ) → ℕ → Bool → List ℕ → Option (List ℕ × List ℕ)
expand_variables entries zero close text = none
expand_variables entries (suc f) close text =
    let (plain, behind) = span_plain text in
    prefixed (replace_unsafe_chars plain)
      (perform entries (expand_variables entries f) close (action close behind))

-- `std::find_if(begin, end, is_path_separator())`: the segment, and the text from there on.
pub span_segment : List ℕ → List ℕ × List ℕ
unfolding is_path_separator
span_segment [] = ([], [])
span_segment (c ∷ cs) =
    let (segment, rest) = span_segment cs in
    if is_path_separator c then ([], c ∷ cs) else (c ∷ segment, rest)

-- `(s_end == end) ? end : (s_end + 1)`
pub after_separator : List ℕ → List ℕ
after_separator [] = []
after_separator (c ∷ cs) = cs

-- `result.find_last_of(path_sep)`, and 0 where there is none
pub last_separator : List ℕ → Option ℕ
last_separator [] = none
last_separator (c ∷ cs) = elim (last_separator cs) [
  | some i ↦ some (i + 1)
  | none ↦ if c == path_sep then some 0 else none
]

abbrev pub or_zero : Option ℕ → ℕ
or_zero none = 0
or_zero (some i) = i

-- The body of the loop of `shorten_path`, on one segment.
pub add_segment : List ℕ → List ℕ → List ℕ
unfolding last_separator text_eq
add_segment result segment =
    if length segment == 0
    then result
    else if text_eq segment (b'.' ∷ [])
    then result
    else if text_eq segment (b'.' ∷ b'.' ∷ [])
    then take (or_zero (last_separator result)) result
    else (if length result == 0 then result else result ++ path_sep ∷ []) ++ segment

-- `none` means that the fuel ran out.
pub shorten_loop : ℕ → List ℕ → List ℕ → Option (List ℕ)
shorten_loop f result [] = some result
shorten_loop zero result (c ∷ cs) = none
shorten_loop (suc f) result (c ∷ cs) =
    let (segment, rest) = span_segment (c ∷ cs) in
    shorten_loop f (add_segment result segment) (after_separator rest)

pub shorten_path : List ℕ → Option (List ℕ)
shorten_path path = shorten_loop (length path) [] path

-- `::tolower` in the "C" locale
pub to_lower : ℕ → ℕ
to_lower c = if leb b'A' c && leb c b'Z' then c + 32 else c

pub convert : FilenameMap → List ℕ → Option (List ℕ)
convert m path =
    let path' = if m.lowercase then map to_lower path else path in
    if m.expand
    then (elim (expand_variables m.entries (length path' + 1) false path') [
      | none ↦ none
      | some (expanded, rest) ↦ shorten_path expanded
    ])
    else some path'
