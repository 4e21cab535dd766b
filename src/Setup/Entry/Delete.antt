-- ===== src/Setup/Entry/Delete.antt =====
-- Files and directories to delete (src/setup/delete.cpp, src/setup/delete.hpp).
use innoextract_wasm.Base.{ℕ, List, [], ◌∷◌}
use innoextract_wasm.Setup.Load.{Reader, give, ◌>>=◌, ◌>>◌, stored_enum, Conversion}
use innoextract_wasm.Setup.Entry.{
  Info, Conditions, WindowsVersionRange, load_condition_data, load_version_range, skip_entry_size,
  path_text,
}

-- `delete_entry::target_type`
pub data TargetType : Type 0 where
  files : TargetType
  files_and_subdirs : TargetType
  dir_if_empty : TargetType

pub record DeleteEntry : Type 0 where
  pub name : List ℕ
  pub conditions : Conditions
  pub winver : WindowsVersionRange
  pub target : TargetType

abbrev pub delete_target_type_map : List TargetType
delete_target_type_map = files ∷ files_and_subdirs ∷ dir_if_empty ∷ []

unfoldable pub load_delete : Conversion → Info → Reader DeleteEntry
load_delete to_utf8 i = do
  skip_entry_size i.version
  name ← path_text to_utf8 i
  conditions ← load_condition_data to_utf8 i
  winver ← load_version_range i.version
  target ← stored_enum delete_target_type_map files
  give (record { name = name; conditions = conditions; winver = winver; target = target })
