-- ===== src/Setup/Header/Tests.antt =====
-- The header of the setup data at concrete inputs.
use innoextract_wasm.Base.{true, [], ◌∷◌, arith}
use innoextract_wasm.Setup.Load.{Conversion}
use innoextract_wasm.Setup.Load.Codec.{Reads}
use innoextract_wasm.Setup.Version.{Version, plain, inno_version}
use innoextract_wasm.Setup.Header.Texts.{HeaderTexts, load_texts}
use innoextract_wasm.Setup.Header.Counts.{EntryCounts, load_counts}
use innoextract_wasm.Setup.Header.Counted.{store_counts, kept_counts, load_counts-store}
use innoextract_wasm.Setup.Header.Stored.{FitTexts, store_texts, kept_texts}
use innoextract_wasm.Setup.Header.Written.{load_texts-store}

-- A conversion that keeps the bytes.
abbrev same : Conversion
same codepage lead_bytes s = s

abbrev version_5_2_3 : Version
version_5_2_3 = record { value = inno_version 5 2 3; variant = plain; known = true }

abbrev counts : EntryCounts
counts = record {
  language_count = 1;
  message_count = 38;
  permission_count = 75;
  type_count = 112;
  component_count = 149;
  task_count = 186;
  directory_count = 223;
  file_count = 260;
  data_entry_count = 297;
  icon_count = 334;
  ini_entry_count = 371;
  registry_entry_count = 408;
  delete_entry_count = 445;
  uninstall_delete_entry_count = 482;
  run_entry_count = 519;
  uninstall_run_entry_count = 556;
}

abbrev texts : HeaderTexts
texts = record {
  app_name = 65 ∷ 98 ∷ [];
  app_versioned_name = [];
  app_id = [];
  app_copyright = 68 ∷ 98 ∷ [];
  app_publisher = [];
  app_publisher_url = [];
  app_support_phone = 71 ∷ 98 ∷ [];
  app_support_url = [];
  app_updates_url = [];
  app_version = 74 ∷ 98 ∷ [];
  default_dir_name = [];
  default_group_name = [];
  uninstall_icon_name = 77 ∷ 98 ∷ [];
  base_filename = [];
  uninstall_files_dir = [];
  uninstall_name = 80 ∷ 98 ∷ [];
  uninstall_icon = [];
  app_mutex = [];
  default_user_name = 83 ∷ 98 ∷ [];
  default_user_organisation = [];
  default_serial = [];
  app_readme_file = 86 ∷ 98 ∷ [];
  app_contact = [];
  app_comments = [];
  app_modify_path = 89 ∷ 98 ∷ [];
  create_uninstall_registry_key = [];
  uninstallable = [];
  close_applications_filter = 66 ∷ 98 ∷ [];
  setup_mutex = [];
  changes_environment = [];
  changes_associations = 69 ∷ 98 ∷ [];
  license_text = [];
  info_before = [];
  info_after = 72 ∷ 98 ∷ [];
  uninstaller_signature = [];
  compiled_code = [];
}

load_counts-store_example :
    Reads
      (load_counts version_5_2_3)
      (store_counts version_5_2_3 counts)
      (kept_counts version_5_2_3 counts)
load_counts-store_example = load_counts-store version_5_2_3 counts (
  omega arith,
  omega arith,
  omega arith,
  omega arith,
  omega arith,
  omega arith,
  omega arith,
  omega arith,
  omega arith,
  omega arith,
  omega arith,
  omega arith,
  omega arith,
  omega arith,
  omega arith,
  omega arith,
)

texts-FitTexts : FitTexts texts
texts-FitTexts = record {
  app_name = omega arith;
  app_versioned_name = omega arith;
  app_id = omega arith;
  app_copyright = omega arith;
  app_publisher = omega arith;
  app_publisher_url = omega arith;
  app_support_phone = omega arith;
  app_support_url = omega arith;
  app_updates_url = omega arith;
  app_version = omega arith;
  default_dir_name = omega arith;
  default_group_name = omega arith;
  uninstall_icon_name = omega arith;
  base_filename = omega arith;
  uninstall_files_dir = omega arith;
  uninstall_name = omega arith;
  uninstall_icon = omega arith;
  app_mutex = omega arith;
  default_user_name = omega arith;
  default_user_organisation = omega arith;
  default_serial = omega arith;
  app_readme_file = omega arith;
  app_contact = omega arith;
  app_comments = omega arith;
  app_modify_path = omega arith;
  create_uninstall_registry_key = omega arith;
  uninstallable = omega arith;
  close_applications_filter = omega arith;
  setup_mutex = omega arith;
  changes_environment = omega arith;
  changes_associations = omega arith;
  license_text = omega arith;
  info_before = omega arith;
  info_after = omega arith;
  uninstaller_signature = omega arith;
  compiled_code = omega arith;
}

load_texts-store_example :
    Reads
      (load_texts same version_5_2_3)
      (store_texts version_5_2_3 texts)
      (kept_texts same version_5_2_3 texts)
load_texts-store_example = load_texts-store same version_5_2_3 texts texts-FitTexts
