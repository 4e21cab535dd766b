-- ===== src/Setup/Info/Codepage.antt =====
-- The code page of the texts (src/setup/info.cpp).
use innoextract_wasm.Base.{
  ◌<◌, ◌++◌, ◌∙◌, length, length-append, get_or, All, ℕ, false, List, [], ◌∷◌, ◌==◌, ==_iff,
  if◌then◌else◌, ◌≡◌, ◌≢◌, inl, inr, refl, Bool-cases, arith,
}
use innoextract_wasm.Setup.Version.{Version}
use innoextract_wasm.Setup.Entry.Codepages.{cp_windows1252, cp_utf16le}

-- The loop over the languages, with the code page of the first.
pub guess_codepage : ℕ → List ℕ → ℕ
guess_codepage first [] = first
guess_codepage first (c ∷ cs) =
    if c == cp_windows1252 then cp_windows1252 else guess_codepage first cs

-- `languages.empty()`, and `languages[0].codepage`
abbrev pub codepage_of_languages : List ℕ → ℕ
codepage_of_languages [] = cp_windows1252
codepage_of_languages (c ∷ cs) = guess_codepage c (c ∷ cs)

-- `force_codepage` is 0 where none is forced; the list has the code pages of the languages.
pub choose_codepage : Version → ℕ → List ℕ → ℕ
choose_codepage v force_codepage codepages =
    if v.variant.unicode
    then cp_utf16le
    else if force_codepage == 0
    then codepage_of_languages codepages
    else force_codepage

guess_codepage_other :
    (first : ℕ) (cs : List ℕ) → All (λ c. c ≢ cp_windows1252) cs → guess_codepage first cs ≡ first
unfolding guess_codepage
guess_codepage_other first [] h = refl
guess_codepage_other first (c ∷ cs) h = elim (Bool-cases (c == cp_windows1252)) [
  | inl same ↦ absurd (h.0 ((==_iff c cp_windows1252).0 same))
  | inr other ↦ rw other (guess_codepage_other first cs h.1)
]

guess_codepage_found :
    (first : ℕ) (before after : List ℕ)
    → guess_codepage first (before ++ cp_windows1252 ∷ after) ≡ cp_windows1252
unfolding guess_codepage
guess_codepage_found first [] after = refl
guess_codepage_found first (c ∷ cs) after = elim (Bool-cases (c == cp_windows1252)) [
  | inl same ↦ rw same refl
  | inr other ↦ rw other (guess_codepage_found first cs after)
]

codepage_of_some :
    (cs : List ℕ) → 0 < length cs → codepage_of_languages cs ≡ guess_codepage (get_or cs 0 0) cs
codepage_of_some [] h = absurd (omega arith)
codepage_of_some (c ∷ cs) h = refl

-- Where no code page is forced and the version is not a Unicode one, a language of Windows-1252 among
-- the languages decides for it, wherever it stands, and without one the first language decides.
pub choose_codepage-languages :
    (v : Version) (codepages before after : List ℕ)
    → v.variant.unicode ≡ false
    → 0 < length codepages
    → All (λ c. c ≢ cp_windows1252) codepages
    → (choose_codepage v 0 (before ++ cp_windows1252 ∷ after) ≡ cp_windows1252)
      × (choose_codepage v 0 codepages ≡ get_or codepages 0 0)
unfolding choose_codepage
choose_codepage-languages v codepages before after h p q = (
  rw h (
      codepage_of_some (before ++ cp_windows1252 ∷ after)
        (omega (arith, length-append before (cp_windows1252 ∷ after)))
      ∙ guess_codepage_found (get_or (before ++ cp_windows1252 ∷ after) 0 0) before after),
  rw h (codepage_of_some codepages p ∙ guess_codepage_other (get_or codepages 0 0) codepages q),
)
