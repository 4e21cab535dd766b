-- ===== src/Setup/Entry/Languages.antt =====
-- Languages of the setup (src/setup/language.cpp, src/setup/language.hpp).
pub mod Lookup
use innoextract_wasm.Base.{
  ℕ, Bool, false, not, List, [], ◌∷◌, Option, none, some, ltb, ◌==◌, if◌then◌else◌,
}
use innoextract_wasm.Setup.Load.{
  Reader, give, ◌>>=◌, ◌>>◌, field_if, load_u32, load_bool, binary_string, skip_string, Conversion,
}
use innoextract_wasm.Setup.Version.{Version, at_least, inno_version_ext}
use innoextract_wasm.Setup.Entry.Codepages.{Language, cp_windows1252, cp_utf16le, languages}

-- `std::lower_bound`: the first entry that is not less.
pub lower_bound : List Language → ℕ → Option Language
lower_bound [] language = none
lower_bound (l ∷ ls) language =
    let rest = lower_bound ls language in if ltb l.language_id language then rest else some l

abbrev pub codepage_at : ℕ → Option Language → ℕ
codepage_at language none = cp_windows1252
codepage_at language (some l) = if l.language_id == language then l.codepage else cp_windows1252

unfoldable pub default_codepage_for_language : ℕ → ℕ
default_codepage_for_language language = codepage_at language (lower_bound languages language)

pub record LanguageEntry : Type 0 where
  pub name : List ℕ
  pub language_name : List ℕ
  pub dialog_font : List ℕ
  pub title_font : List ℕ
  pub welcome_font : List ℕ
  pub copyright_font : List ℕ
  pub data_text : List ℕ
  pub license_text : List ℕ
  pub info_before : List ℕ
  pub info_after : List ℕ
  pub language_id : ℕ
  pub codepage : ℕ
  pub dialog_font_size : ℕ
  pub dialog_font_standard_height : ℕ
  pub title_font_size : ℕ
  pub welcome_font_size : ℕ
  pub copyright_font_size : ℕ
  pub right_to_left : Bool

-- `INNO_VERSION_EXT(5, 5, 7, 1)`
abbrev pub is_5_5_7_1 : Version → Bool
is_5_5_7_1 v = v.value == inno_version_ext 5 5 7 1

unfoldable pub load_codepage : Version → ℕ → Reader ℕ
load_codepage v language_id =
    if not (at_least v 4 2 2)
    then give (default_codepage_for_language language_id)
    else if not v.variant.unicode
    then (do codepage ← load_u32; give (if codepage == 0 then cp_windows1252 else codepage))
    else (do unused ← field_if (not (at_least v 5 3 0)) load_u32 0; give cp_utf16le)

-- The entry is read into an object that held `old_name` and `old_data`, which the oldest versions do
-- not store.
unfoldable pub load_language : Conversion → Version → List ℕ → List ℕ → Reader LanguageEntry
load_language to_utf8 v old_name old_data = do
  name ← field_if (at_least v 4 0 0) binary_string old_name
  language_name ← binary_string
  field_if (is_5_5_7_1 v) skip_string tt
  dialog_font ← binary_string
  title_font ← binary_string
  welcome_font ← binary_string
  copyright_font ← binary_string
  data_text ← field_if (at_least v 4 0 0) binary_string old_data
  license_text ← field_if (at_least v 4 0 1) binary_string []
  info_before ← field_if (at_least v 4 0 1) binary_string []
  info_after ← field_if (at_least v 4 0 1) binary_string []
  language_id ← load_u32
  codepage ← load_codepage v language_id
  dialog_size ← load_u32
  dialog_height ← field_if (not (at_least v 4 1 0)) load_u32 0
  title_size ← load_u32
  welcome_size ← load_u32
  copyright_size ← load_u32
  unused ← field_if (is_5_5_7_1 v) load_u32 0
  right_to_left ← field_if (at_least v 5 2 3) load_bool false
  give (record {
    name = name;
    language_name = to_utf8 (if at_least v 4 2 2 then cp_utf16le else codepage) none language_name;
    dialog_font = dialog_font;
    title_font = title_font;
    welcome_font = welcome_font;
    copyright_font = copyright_font;
    data_text = data_text;
    license_text = license_text;
    info_before = info_before;
    info_after = info_after;
    language_id = language_id;
    codepage = codepage;
    dialog_font_size = dialog_size;
    dialog_font_standard_height = dialog_height;
    title_font_size = title_size;
    welcome_font_size = welcome_size;
    copyright_font_size = copyright_size;
    right_to_left = right_to_left;
  })

-- "default"
abbrev pub default_name : List ℕ
default_name = 100 ∷ 101 ∷ 102 ∷ 97 ∷ 117 ∷ 108 ∷ 116 ∷ []

abbrev pub or_default : List ℕ → List ℕ
or_default [] = default_name
or_default (c ∷ cs) = c ∷ cs

-- `language_entry::decode`
pub decode_name : Conversion → ℕ → LanguageEntry → LanguageEntry
decode_name to_utf8 codepage l = record l { name = or_default (to_utf8 codepage none l.name) }
