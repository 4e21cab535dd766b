-- ===== src/Setup/Entry/Types.antt =====
-- Setup types (src/setup/type.cpp, src/setup/type.hpp).
use innoextract_wasm.Base.{ℕ, Bool, true, false, ◌&&◌, ◌||◌, List, [], ◌∷◌, if◌then◌else◌}
use innoextract_wasm.Setup.Load.{
  Reader, give, ◌>>=◌, field_if, load_u32, load_u64, stored_enum, Conversion,
}
use innoextract_wasm.Setup.Load.Flags.{stored_flags}
use innoextract_wasm.Setup.Version.{is_isx, at_least}
use innoextract_wasm.Setup.Entry.{Info, WindowsVersionRange, load_version_range, text}

-- `type_flags`
pub data TypeFlag : Type 0 where
  custom_setup_type : TypeFlag

pub data SetupType : Type 0 where
  user : SetupType
  default_full : SetupType
  default_compact : SetupType
  default_custom : SetupType

pub record TypeEntry : Type 0 where
  pub name : List ℕ
  pub description : List ℕ
  pub languages : List ℕ
  pub check : List ℕ
  pub winver : WindowsVersionRange
  pub custom_type : Bool
  pub setup_type : SetupType
  pub size : ℕ

abbrev pub stored_setup_type : List SetupType
stored_setup_type = user ∷ default_full ∷ default_compact ∷ default_custom ∷ []

-- `(options & CustomSetupType) != 0`
pub is_custom : List TypeFlag → Bool
is_custom [] = false
is_custom (custom_setup_type ∷ flags) = true

unfoldable pub load_type : Conversion → Info → Reader TypeEntry
load_type to_utf8 i = do
  let v = i.version
  name ← text to_utf8 i
  description ← text to_utf8 i
  languages ← field_if (at_least v 4 0 1) (text to_utf8 i) []
  check ← field_if (at_least v 4 0 0 || is_isx v && at_least v 1 3 24) (text to_utf8 i) []
  winver ← load_version_range v
  options ← stored_flags true (custom_setup_type ∷ [])
  kind ← field_if (at_least v 4 0 3) (stored_enum stored_setup_type user) user
  size ← (if at_least v 4 0 0 then load_u64 else load_u32)
  give (record {
    name = name;
    description = description;
    languages = languages;
    check = check;
    winver = winver;
    custom_type = is_custom options;
    setup_type = kind;
    size = size;
  })
