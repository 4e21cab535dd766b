-- ===== src/Setup/Entry/Component.antt =====
-- Setup components (src/setup/component.cpp, src/setup/component.hpp).
use innoextract_wasm.Base.{ℕ, Bool, true, ◌&&◌, ◌||◌, List, [], ◌∷◌, ◌++◌, leb, if◌then◌else◌}
use innoextract_wasm.Setup.Load.{
  Reader, give, ◌>>=◌, field_if, load_u32, load_u64, load_bool, Conversion,
}
use innoextract_wasm.Setup.Load.Flags.{stored_flags}
use innoextract_wasm.Setup.Version.{is_isx, at_least, inno_version_ext}
use innoextract_wasm.Setup.Entry.{Info, WindowsVersionRange, load_version_range, text}

pub data ComponentFlag : Type 0 where
  fixed : ComponentFlag
  restart : ComponentFlag
  disable_no_uninstall_warning : ComponentFlag
  exclusive : ComponentFlag
  dont_inherit_check : ComponentFlag

-- The size is not stored by the oldest versions; `load` then leaves it as it is.
pub record ComponentEntry : Type 0 where
  pub name : List ℕ
  pub description : List ℕ
  pub types : List ℕ
  pub languages : List ℕ
  pub check : List ℕ
  pub extra_disk_space_required : ℕ
  pub level : ℕ
  pub used : Bool
  pub winver : WindowsVersionRange
  pub options : List ComponentFlag
  pub size : ℕ

abbrev pub component_flags_0 : List ComponentFlag
component_flags_0 = fixed ∷ restart ∷ disable_no_uninstall_warning ∷ []

abbrev pub component_flags_1 : List ComponentFlag
component_flags_1 = component_flags_0 ++ exclusive ∷ []

abbrev pub component_flags_2 : List ComponentFlag
component_flags_2 = component_flags_1 ++ dont_inherit_check ∷ []

-- The entry is read into an object whose size was `old_size`.
unfoldable pub load_component : Conversion → Info → ℕ → Reader ComponentEntry
load_component to_utf8 i old_size = do
  let v = i.version
  name ← text to_utf8 i
  description ← text to_utf8 i
  types ← text to_utf8 i
  languages ← field_if (at_least v 4 0 1) (text to_utf8 i) []
  check ← field_if (at_least v 4 0 0 || is_isx v && at_least v 1 3 24) (text to_utf8 i) []
  extra ← (if at_least v 4 0 0 then load_u64 else load_u32)
  level ← field_if (at_least v 4 0 0 || is_isx v && at_least v 3 0 3) load_u32 0
  used ← field_if (at_least v 4 0 0 || is_isx v && at_least v 3 0 4) load_bool true
  winver ← load_version_range v
  options ←
      (if at_least v 4 2 3
        then stored_flags true component_flags_2
        else if at_least v 3 0 8 || is_isx v && leb (inno_version_ext 3 0 6 1) v.value
        then stored_flags true component_flags_1
        else stored_flags true component_flags_0)
  size ←
      (if at_least v 4 0 0
        then load_u64
        else field_if (at_least v 2 0 0 || is_isx v && at_least v 1 3 24) load_u32 old_size)
  give (record {
    name = name;
    description = description;
    types = types;
    languages = languages;
    check = check;
    extra_disk_space_required = extra;
    level = level;
    used = used;
    winver = winver;
    options = options;
    size = size;
  })
