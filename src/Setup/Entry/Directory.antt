-- ===== src/Setup/Entry/Directory.antt =====
-- Directories to create (src/setup/directory.cpp, src/setup/directory.hpp).
use innoextract_wasm.Base.{ℕ, ◌^◌, ◌-◌, true, not, ◌&&◌, List, [], ◌∷◌, ◌++◌, if◌then◌else◌}
use innoextract_wasm.Setup.Load.{
  Reader, give, ◌>>=◌, ◌>>◌, field_if, load_u16, load_u32, binary_string, Conversion,
}
use innoextract_wasm.Setup.Load.Flags.{stored_flags}
use innoextract_wasm.Setup.Version.{is_16_bit, at_least}
use innoextract_wasm.Setup.Entry.{
  Info, Conditions, WindowsVersionRange, load_condition_data, load_version_range, skip_entry_size,
  path_text,
}

pub data DirectoryFlag : Type 0 where
  never_uninstall : DirectoryFlag
  delete_after_install : DirectoryFlag
  always_uninstall : DirectoryFlag
  set_ntfs_compression : DirectoryFlag
  unset_ntfs_compression : DirectoryFlag

pub record DirectoryEntry : Type 0 where
  pub name : List ℕ
  pub conditions : Conditions
  pub permissions : List ℕ
  pub attributes : ℕ
  pub winver : WindowsVersionRange
  pub permission : ℕ
  pub options : List DirectoryFlag

-- `stored_inno_directory_options_0`
abbrev pub directory_options_0 : List DirectoryFlag
directory_options_0 = never_uninstall ∷ delete_after_install ∷ always_uninstall ∷ []

-- `stored_inno_directory_options_1`
abbrev pub directory_options_1 : List DirectoryFlag
directory_options_1 = directory_options_0 ++ set_ntfs_compression ∷ unset_ntfs_compression ∷ []

unfoldable pub load_directory : Conversion → Info → Reader DirectoryEntry
load_directory to_utf8 i = do
  let v = i.version
  skip_entry_size v
  name ← path_text to_utf8 i
  conditions ← load_condition_data to_utf8 i
  permissions ← field_if (at_least v 4 0 11 && not (at_least v 4 1 0)) binary_string []
  attributes ← field_if (at_least v 2 0 11) load_u32 0
  winver ← load_version_range v
  permission ← field_if (at_least v 4 1 0) load_u16 (2 ^ 16 - 1)
  options ←
      (if at_least v 5 2 0
        then stored_flags true directory_options_1
        else stored_flags (not (is_16_bit v)) directory_options_0)
  give (record {
    name = name;
    conditions = conditions;
    permissions = permissions;
    attributes = attributes;
    winver = winver;
    permission = permission;
    options = options;
  })
