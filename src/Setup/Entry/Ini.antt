-- ===== src/Setup/Entry/Ini.antt =====
-- Entries of ini files (src/setup/ini.cpp, src/setup/ini.hpp).
use innoextract_wasm.Base.{ℕ, not, List, [], ◌∷◌}
use innoextract_wasm.Setup.Load.{Reader, give, ◌>>=◌, ◌>>◌, Conversion}
use innoextract_wasm.Setup.Load.Flags.{stored_flags}
use innoextract_wasm.Setup.Version.{is_16_bit}
use innoextract_wasm.Setup.Entry.{
  Info, Conditions, WindowsVersionRange, load_condition_data, load_version_range, skip_entry_size,
  text, path_text,
}

pub data IniFlag : Type 0 where
  create_key_if_doesnt_exist : IniFlag
  unins_delete_entry : IniFlag
  unins_delete_entire_section : IniFlag
  unins_delete_section_if_empty : IniFlag
  has_value : IniFlag

pub record IniEntry : Type 0 where
  pub inifile : List ℕ
  pub section : List ℕ
  pub key : List ℕ
  pub value : List ℕ
  pub conditions : Conditions
  pub winver : WindowsVersionRange
  pub options : List IniFlag

abbrev pub stored_ini_flags : List IniFlag
stored_ini_flags =
    create_key_if_doesnt_exist ∷ unins_delete_entry ∷ unins_delete_entire_section
    ∷ unins_delete_section_if_empty ∷ has_value ∷ []

-- "{windows}/WIN.INI"
abbrev pub win_ini : List ℕ
win_ini =
    123 ∷ 119 ∷ 105 ∷ 110 ∷ 100 ∷ 111 ∷ 119 ∷ 115 ∷ 125 ∷ 47 ∷ 87 ∷ 73 ∷ 78 ∷ 46 ∷ 73 ∷ 78 ∷ 73 ∷ []

abbrev pub or_win_ini : List ℕ → List ℕ
or_win_ini [] = win_ini
or_win_ini (c ∷ cs) = c ∷ cs

unfoldable pub load_ini : Conversion → Info → Reader IniEntry
load_ini to_utf8 i = do
  skip_entry_size i.version
  inifile ← path_text to_utf8 i
  section ← path_text to_utf8 i
  key ← text to_utf8 i
  value ← path_text to_utf8 i
  conditions ← load_condition_data to_utf8 i
  winver ← load_version_range i.version
  options ← stored_flags (not (is_16_bit i.version)) stored_ini_flags
  give (record {
    inifile = or_win_ini inifile;
    section = section;
    key = key;
    value = value;
    conditions = conditions;
    winver = winver;
    options = options;
  })
