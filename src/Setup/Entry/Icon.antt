-- ===== src/Setup/Entry/Icon.antt =====
-- Shortcuts (src/setup/icon.cpp, src/setup/icon.hpp).
use innoextract_wasm.Base.{ℕ, not, List, [], ◌∷◌, ◌++◌}
use innoextract_wasm.Setup.Load.{
  Reader, give, ◌>>=◌, ◌>>◌, field_if, read, load_u16, load_u32, load_i32, stored_enum, Conversion,
}
use innoextract_wasm.Setup.Load.Flags.{flag_reader, flag_if}
use innoextract_wasm.Setup.Version.{Version, is_16_bit, at_least}
use innoextract_wasm.Setup.Entry.{
  Info, Conditions, WindowsVersionRange, load_condition_data, load_version_range, skip_entry_size,
  text, path_text,
}

pub data IconFlag : Type 0 where
  never_uninstall : IconFlag
  create_only_if_file_exists : IconFlag
  use_app_paths : IconFlag
  folder_shortcut : IconFlag
  exclude_from_show_in_new_install : IconFlag
  prevent_pinning : IconFlag
  has_app_user_model_toast_activator_clsid : IconFlag
  run_minimized : IconFlag

pub data CloseSetting : Type 0 where
  no_setting : CloseSetting
  close_on_exit : CloseSetting
  dont_close_on_exit : CloseSetting

pub record IconEntry : Type 0 where
  pub name : List ℕ
  pub filename : List ℕ
  pub parameters : List ℕ
  pub working_dir : List ℕ
  pub icon_file : List ℕ
  pub comment : List ℕ
  pub conditions : Conditions
  pub app_user_model_id : List ℕ
  pub app_user_model_toast_activator_clsid : List ℕ
  pub winver : WindowsVersionRange
  pub icon_index : ℕ
  pub show_command : ℕ
  pub close : CloseSetting
  pub hotkey : ℕ
  pub options : List IconFlag

abbrev pub stored_close_setting : List CloseSetting
stored_close_setting = no_setting ∷ close_on_exit ∷ dont_close_on_exit ∷ []

-- The flags that are added to the reader.
abbrev pub icon_flags : Version → List IconFlag
icon_flags v =
    never_uninstall ∷ flag_if (not (at_least v 1 3 26)) run_minimized
    ++ create_only_if_file_exists ∷ flag_if (not (is_16_bit v)) use_app_paths
    ++ flag_if (at_least v 5 0 3) folder_shortcut
    ++ flag_if (at_least v 5 4 2) exclude_from_show_in_new_install
    ++ flag_if (at_least v 5 5 0) prevent_pinning
    ++ flag_if (at_least v 6 1 0) has_app_user_model_toast_activator_clsid

unfoldable pub load_icon : Conversion → Info → Reader IconEntry
load_icon to_utf8 i = do
  let v = i.version
  skip_entry_size v
  name ← path_text to_utf8 i
  filename ← path_text to_utf8 i
  parameters ← path_text to_utf8 i
  working_dir ← path_text to_utf8 i
  icon_file ← path_text to_utf8 i
  comment ← text to_utf8 i
  conditions ← load_condition_data to_utf8 i
  model_id ← field_if (at_least v 5 3 5) (text to_utf8 i) []
  clsid ← field_if (at_least v 6 1 0) (read 16) []
  winver ← load_version_range v
  icon_index ← load_i32 (is_16_bit v)
  show ← field_if (at_least v 1 3 24) load_u32 1
  close ← field_if (at_least v 1 3 15) (stored_enum stored_close_setting no_setting) no_setting
  hotkey ← field_if (at_least v 2 0 7) load_u16 0
  options ← flag_reader (not (is_16_bit v)) (icon_flags v)
  give (record {
    name = name;
    filename = filename;
    parameters = parameters;
    working_dir = working_dir;
    icon_file = icon_file;
    comment = comment;
    conditions = conditions;
    app_user_model_id = model_id;
    app_user_model_toast_activator_clsid = clsid;
    winver = winver;
    icon_index = icon_index;
    show_command = show;
    close = close;
    hotkey = hotkey;
    options = options;
  })
