-- ===== src/Setup/Entry.antt =====
-- What every entry of the setup data has in common (src/setup/windows.cpp, src/setup/item.cpp,
-- src/setup/info.hpp).
pub mod Tests
pub mod Written
pub mod Stored
pub mod Languages
pub mod Codepages
pub mod Message
pub mod Icon
pub mod Run
pub mod Registry
pub mod Types
pub mod Task
pub mod Component
pub mod Ini
pub mod Delete
pub mod File
pub mod Data
pub mod Directory
use innoextract_wasm.Base.{ℕ, Bool, not, ◌&&◌, ◌||◌, List, [], Option, none, some}
use innoextract_wasm.Setup.Load.{
  Reader, give, ◌>>=◌, field_if, load_u8, load_u16, load_u32, encoded_string, Conversion,
}
use innoextract_wasm.Setup.Version.{Version, is_isx, at_least}

-- What the loaders of the entries read of `info`: of its languages only the codepages.
pub record Info : Type 0 where
  pub version : Version
  pub codepage : ℕ
  pub lead_bytes : List ℕ
  pub codepages : List ℕ

-- `windows_version::data`
pub record WindowsData : Type 0 where
  pub major : ℕ
  pub minor : ℕ
  pub build : ℕ

-- `windows_version::service_pack`
pub record ServicePack : Type 0 where
  pub major : ℕ
  pub minor : ℕ

pub record WindowsVersion : Type 0 where
  pub win_version : WindowsData
  pub nt_version : WindowsData
  pub nt_service_pack : ServicePack

pub record WindowsVersionRange : Type 0 where
  pub first : WindowsVersion
  pub last : WindowsVersion

unfoldable pub load_data : Version → Reader WindowsData
load_data v = do
  build ← field_if (at_least v 1 3 19) load_u16 0
  minor ← load_u8
  major ← load_u8
  give (record { major = major; minor = minor; build = build })

unfoldable pub load_service_pack : Reader ServicePack
load_service_pack = do
  minor ← load_u8
  major ← load_u8
  give (record { major = major; minor = minor })

unfoldable pub load_windows_version : Version → Reader WindowsVersion
load_windows_version v = do
  win ← load_data v
  nt ← load_data v
  pack ← field_if (at_least v 1 3 19) load_service_pack (record { major = 0; minor = 0 })
  give (record { win_version = win; nt_version = nt; nt_service_pack = pack })

unfoldable pub load_version_range : Version → Reader WindowsVersionRange
load_version_range v = do
  first ← load_windows_version v
  last ← load_windows_version v
  give (record { first = first; last = last })

-- The strings of `item`
pub record Conditions : Type 0 where
  pub components : List ℕ
  pub tasks : List ℕ
  pub languages : List ℕ
  pub check : List ℕ
  pub after_install : List ℕ
  pub before_install : List ℕ

unfoldable pub load_condition_data : Conversion → Info → Reader Conditions
load_condition_data to_utf8 i = do
  let v = i.version
  let text = encoded_string to_utf8 i.codepage none
  components ← field_if (at_least v 2 0 0 || is_isx v && at_least v 1 3 8) text []
  tasks ← field_if (at_least v 2 0 0 || is_isx v && at_least v 1 3 17) text []
  languages ← field_if (at_least v 4 0 1) text []
  check ← field_if (at_least v 4 0 0 || is_isx v && at_least v 1 3 24) text []
  after ← field_if (at_least v 4 1 0) text []
  before ← field_if (at_least v 4 1 0) text []
  give (record {
    components = components;
    tasks = tasks;
    languages = languages;
    check = check;
    after_install = after;
    before_install = before;
  })

-- "uncompressed size of the entry", which old versions store before it
unfoldable pub skip_entry_size : Version → Reader (Unit {0})
unfolding load_u32
skip_entry_size v = do size ← field_if (not (at_least v 1 3 0)) load_u32 0; give tt

-- A string of the entry, with or without the lead bytes of the header.
unfoldable pub text : Conversion → Info → Reader (List ℕ)
unfolding encoded_string
text to_utf8 i = encoded_string to_utf8 i.codepage none

unfoldable pub path_text : Conversion → Info → Reader (List ℕ)
unfolding encoded_string
path_text to_utf8 i = encoded_string to_utf8 i.codepage (some i.lead_bytes)
