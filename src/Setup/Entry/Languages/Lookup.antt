-- ===== src/Setup/Entry/Languages/Lookup.antt =====
-- The search in the table of languages (src/setup/language.cpp).
use innoextract_wasm.Base.{
  ℕ, ◌+◌, ◌<◌, Bool, true, ◌&&◌, List, [], ◌∷◌, leb, ◌==◌, if◌then◌else◌, ◌≡◌, refl, arith,
}
use innoextract_wasm.Setup.Entry.Codepages.{Language, cp_windows1252, languages}
use innoextract_wasm.Setup.Entry.Languages.{lower_bound, codepage_at, default_codepage_for_language}

-- The codepage of the first entry with this identifier, or Windows-1252.
pub exact_codepage : List Language → ℕ → ℕ
exact_codepage [] language = cp_windows1252
exact_codepage (l ∷ ls) language =
    if l.language_id == language then l.codepage else exact_codepage ls language

is_increasing : ℕ → List Language → Bool
is_increasing bound [] = true
is_increasing bound (l ∷ ls) = leb bound l.language_id && is_increasing (l.language_id + 1) ls

-- Above the identifier that is looked for, nothing is found.
exact_codepage-above :
    (ls : List Language) (bound language : ℕ)
    → is_increasing bound ls ≡ true
    → language < bound
    → exact_codepage ls language ≡ cp_windows1252
unfolding exact_codepage is_increasing
exact_codepage-above [] bound language s h = refl
exact_codepage-above (l ∷ ls) bound language s h =
    ground (arith, exact_codepage-above ls (l.language_id + 1) language)

lower_bound-exact :
    (ls : List Language) (bound language : ℕ)
    → is_increasing bound ls ≡ true
    → codepage_at language (lower_bound ls language) ≡ exact_codepage ls language
unfolding exact_codepage is_increasing lower_bound
lower_bound-exact [] bound language s = refl
lower_bound-exact (l ∷ ls) bound language s = ground (
  arith,
  lower_bound-exact ls (l.language_id + 1) language,
  exact_codepage-above ls (l.language_id + 1) language,
)

languages-increasing : is_increasing 0 languages ≡ true
unfolding is_increasing languages
languages-increasing = refl

-- The search by `lower_bound` finds the codepage of the entry with this identifier, and Windows-1252
-- where no entry has it.
pub default_codepage-exact :
    (language : ℕ) → default_codepage_for_language language ≡ exact_codepage languages language
unfolding default_codepage_for_language
default_codepage-exact language = lower_bound-exact languages 0 language languages-increasing
