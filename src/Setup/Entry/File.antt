-- ===== src/Setup/Entry/File.antt =====
-- Files to install (src/setup/file.cpp, src/setup/file.hpp).
use innoextract_wasm.Base.{ℕ, ◌^◌, ◌-◌, not, ◌&&◌, ◌||◌, List, [], ◌∷◌, ◌++◌, leb, if◌then◌else◌}
use innoextract_wasm.Setup.Load.{
  Reader, give, ◌>>=◌, ◌>>◌, field_if, load_u16, load_u32, load_u64, load_bits, stored_enum,
  Conversion,
}
use innoextract_wasm.Setup.Load.Flags.{flag_reader, flag_if}
use innoextract_wasm.Setup.Version.{Version, inno_version_ext, is_16_bit, is_isx, at_least}
use innoextract_wasm.Setup.Entry.{
  Info, Conditions, WindowsVersionRange, load_condition_data, load_version_range, skip_entry_size,
  path_text,
}

-- `file_entry::flags`
pub data FileFlag : Type 0 where
  confirm_overwrite : FileFlag
  never_uninstall : FileFlag
  restart_replace : FileFlag
  delete_after_install : FileFlag
  register_server : FileFlag
  register_type_lib : FileFlag
  shared_file : FileFlag
  compare_time_stamp : FileFlag
  font_is_not_true_type : FileFlag
  skip_if_source_doesnt_exist : FileFlag
  overwrite_read_only : FileFlag
  overwrite_same_version : FileFlag
  custom_dest_name : FileFlag
  only_if_dest_file_exists : FileFlag
  no_reg_error : FileFlag
  unins_restart_delete : FileFlag
  only_if_doesnt_exist : FileFlag
  ignore_version : FileFlag
  prompt_if_older : FileFlag
  dont_copy : FileFlag
  unins_remove_read_only : FileFlag
  recurse_sub_dirs_external : FileFlag
  replace_same_version_if_contents_differ : FileFlag
  dont_verify_checksum : FileFlag
  unins_no_shared_file_prompt : FileFlag
  create_all_sub_dirs : FileFlag
  bits32 : FileFlag
  bits64 : FileFlag
  external_size_preset : FileFlag
  set_ntfs_compression : FileFlag
  unset_ntfs_compression : FileFlag
  gac_install : FileFlag
  is_readme_file : FileFlag

pub data FileType : Type 0 where
  user_file : FileType
  uninst_exe : FileType
  reg_svr_exe : FileType

pub data FileCopyMode : Type 0 where
  cm_normal : FileCopyMode
  cm_if_doesnt_exist : FileCopyMode
  cm_always_overwrite : FileCopyMode
  cm_always_skip_if_same_or_older : FileCopyMode

abbrev pub stored_file_copy_mode : List FileCopyMode
stored_file_copy_mode =
    cm_normal ∷ cm_if_doesnt_exist ∷ cm_always_overwrite ∷ cm_always_skip_if_same_or_older ∷ []

abbrev pub stored_file_type_0 : List FileType
stored_file_type_0 = user_file ∷ uninst_exe ∷ []

abbrev pub stored_file_type_1 : List FileType
stored_file_type_1 = user_file ∷ uninst_exe ∷ reg_svr_exe ∷ []

-- The locations, the checksum and the size that `load` resets are those of multi-part files of GOG
-- Galaxy, and left out.
pub record FileEntry : Type 0 where
  pub source : List ℕ
  pub destination : List ℕ
  pub install_font_name : List ℕ
  pub strong_assembly_name : List ℕ
  pub conditions : Conditions
  pub winver : WindowsVersionRange
  pub location : ℕ
  pub attributes : ℕ
  pub external_size : ℕ
  pub permission : ℕ
  pub options : List FileFlag
  pub file_type : FileType

-- `switch(copyMode)`
abbrev pub copy_mode_flags : FileCopyMode → List FileFlag
copy_mode_flags cm_normal = prompt_if_older ∷ []
copy_mode_flags cm_if_doesnt_exist = only_if_doesnt_exist ∷ prompt_if_older ∷ []
copy_mode_flags cm_always_overwrite = ignore_version ∷ prompt_if_older ∷ []
copy_mode_flags cm_always_skip_if_same_or_older = []

-- The options that old versions store as a copy mode.
unfoldable pub load_copy_mode : Version → Reader (List FileFlag)
load_copy_mode v =
    field_if (not (at_least v 3 0 5))
      (do mode ← stored_enum stored_file_copy_mode cm_normal; give (copy_mode_flags mode)) []

-- The flags that are added to the reader.
abbrev pub file_flags : Version → List FileFlag
file_flags v =
    confirm_overwrite ∷ []
    ++ never_uninstall ∷ []
    ++ restart_replace ∷ []
    ++ delete_after_install ∷ []
    ++ flag_if (not (is_16_bit v)) register_server
    ++ flag_if (not (is_16_bit v)) register_type_lib
    ++ flag_if (not (is_16_bit v)) shared_file
    ++ flag_if (not (at_least v 2 0 0) && not (is_isx v)) is_readme_file
    ++ compare_time_stamp ∷ []
    ++ font_is_not_true_type ∷ []
    ++ flag_if (at_least v 1 2 5) skip_if_source_doesnt_exist
    ++ flag_if (at_least v 1 2 6) overwrite_read_only
    ++ flag_if (at_least v 1 3 21) overwrite_same_version
    ++ flag_if (at_least v 1 3 21) custom_dest_name
    ++ flag_if (at_least v 1 3 25) only_if_dest_file_exists
    ++ flag_if (at_least v 2 0 5) no_reg_error
    ++ flag_if (at_least v 3 0 1) unins_restart_delete
    ++ flag_if (at_least v 3 0 5) only_if_doesnt_exist
    ++ flag_if (at_least v 3 0 5) ignore_version
    ++ flag_if (at_least v 3 0 5) prompt_if_older
    ++ flag_if (at_least v 4 0 0 || (is_isx v && leb (inno_version_ext 3 0 6 1) v.value)) dont_copy
    ++ flag_if (at_least v 4 0 5) unins_remove_read_only
    ++ flag_if (at_least v 4 1 8) recurse_sub_dirs_external
    ++ flag_if (at_least v 4 2 1) replace_same_version_if_contents_differ
    ++ flag_if (at_least v 4 2 5) dont_verify_checksum
    ++ flag_if (at_least v 5 0 3) unins_no_shared_file_prompt
    ++ flag_if (at_least v 5 1 0) create_all_sub_dirs
    ++ flag_if (at_least v 5 1 2) bits32
    ++ flag_if (at_least v 5 1 2) bits64
    ++ flag_if (at_least v 5 2 0) external_size_preset
    ++ flag_if (at_least v 5 2 0) set_ntfs_compression
    ++ flag_if (at_least v 5 2 0) unset_ntfs_compression
    ++ flag_if (at_least v 5 2 5) gac_install

unfoldable pub load_file_type : Version → Reader FileType
load_file_type v =
    if is_16_bit v || at_least v 5 0 0
    then stored_enum stored_file_type_0 user_file
    else stored_enum stored_file_type_1 user_file

unfoldable pub load_file : Conversion → Info → Reader FileEntry
load_file to_utf8 i = do
  let v = i.version
  skip_entry_size v
  source ← path_text to_utf8 i
  destination ← path_text to_utf8 i
  font ← path_text to_utf8 i
  assembly ← field_if (at_least v 5 2 5) (path_text to_utf8 i) []
  conditions ← load_condition_data to_utf8 i
  winver ← load_version_range v
  location ← load_bits (is_16_bit v)
  attributes ← load_bits (is_16_bit v)
  size ← (if at_least v 4 0 0 then load_u64 else load_u32)
  mode_options ← load_copy_mode v
  permission ← field_if (at_least v 4 1 0) load_u16 (2 ^ 16 - 1)
  options ← flag_reader (not (is_16_bit v)) (file_flags v)
  kind ← load_file_type v
  give (record {
    source = source;
    destination = destination;
    install_font_name = font;
    strong_assembly_name = assembly;
    conditions = conditions;
    winver = winver;
    location = location;
    attributes = attributes;
    external_size = size;
    permission = permission;
    options = mode_options ++ options;
    file_type = kind;
  })
