-- ===== src/Setup/Header/Counts.antt =====
-- The numbers of entries behind the header (src/setup/header.hpp, src/setup/header.cpp).
use innoextract_wasm.Base.{ℕ, ◌&&◌, ◌||◌, if◌then◌else◌}
use innoextract_wasm.Setup.Load.{Reader, give, ◌>>=◌, field_if, load_u32, load_bits}
use innoextract_wasm.Setup.Version.{Version, is_16_bit, is_isx, at_least}

pub record EntryCounts : Type 0 where
  pub language_count : ℕ
  pub message_count : ℕ
  pub permission_count : ℕ
  pub type_count : ℕ
  pub component_count : ℕ
  pub task_count : ℕ
  pub directory_count : ℕ
  pub file_count : ℕ
  pub data_entry_count : ℕ
  pub icon_count : ℕ
  pub ini_entry_count : ℕ
  pub registry_entry_count : ℕ
  pub delete_entry_count : ℕ
  pub uninstall_delete_entry_count : ℕ
  pub run_entry_count : ℕ
  pub uninstall_run_entry_count : ℕ

-- The part of `header::load` that reads the counts.
unfoldable pub load_counts : Version → Reader EntryCounts
load_counts v = do
  let count = load_bits (is_16_bit v)
  languages ← field_if (at_least v 4 0 0) load_u32 (if at_least v 2 0 1 then 1 else 0)
  messages ← field_if (at_least v 4 2 1) load_u32 0
  permissions ← field_if (at_least v 4 1 0) load_u32 0
  types ← field_if (at_least v 2 0 0 || is_isx v) load_u32 0
  components ← field_if (at_least v 2 0 0 || is_isx v) load_u32 0
  tasks ← field_if (at_least v 2 0 0 || (is_isx v && at_least v 1 3 17)) load_u32 0
  directories ← count
  files ← count
  data_entries ← count
  icons ← count
  ini_entries ← count
  registry_entries ← count
  delete_entries ← count
  uninstall_delete_entries ← count
  run_entries ← count
  uninstall_run_entries ← count
  give (record {
    language_count = languages;
    message_count = messages;
    permission_count = permissions;
    type_count = types;
    component_count = components;
    task_count = tasks;
    directory_count = directories;
    file_count = files;
    data_entry_count = data_entries;
    icon_count = icons;
    ini_entry_count = ini_entries;
    registry_entry_count = registry_entries;
    delete_entry_count = delete_entries;
    uninstall_delete_entry_count = uninstall_delete_entries;
    run_entry_count = run_entries;
    uninstall_run_entry_count = uninstall_run_entries;
  })
