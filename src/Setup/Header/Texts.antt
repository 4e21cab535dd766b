-- ===== src/Setup/Header/Texts.antt =====
-- The strings of the header (src/setup/header.hpp, src/setup/header.cpp).
use innoextract_wasm.Base.{ℕ, not, ◌&&◌, ◌||◌, leb, List, [], none, some}
use innoextract_wasm.Setup.Load.{
  Reader, give, ◌>>=◌, field_if, binary_string, encoded_string, Conversion,
}
use innoextract_wasm.Setup.Version.{Version, inno_version_ext, is_isx, at_least}

pub record HeaderTexts : Type 0 where
  pub app_name : List ℕ
  pub app_versioned_name : List ℕ
  pub app_id : List ℕ
  pub app_copyright : List ℕ
  pub app_publisher : List ℕ
  pub app_publisher_url : List ℕ
  pub app_support_phone : List ℕ
  pub app_support_url : List ℕ
  pub app_updates_url : List ℕ
  pub app_version : List ℕ
  pub default_dir_name : List ℕ
  pub default_group_name : List ℕ
  pub uninstall_icon_name : List ℕ
  pub base_filename : List ℕ
  pub uninstall_files_dir : List ℕ
  pub uninstall_name : List ℕ
  pub uninstall_icon : List ℕ
  pub app_mutex : List ℕ
  pub default_user_name : List ℕ
  pub default_user_organisation : List ℕ
  pub default_serial : List ℕ
  pub app_readme_file : List ℕ
  pub app_contact : List ℕ
  pub app_comments : List ℕ
  pub app_modify_path : List ℕ
  pub create_uninstall_registry_key : List ℕ
  pub uninstallable : List ℕ
  pub close_applications_filter : List ℕ
  pub setup_mutex : List ℕ
  pub changes_environment : List ℕ
  pub changes_associations : List ℕ
  pub license_text : List ℕ
  pub info_before : List ℕ
  pub info_after : List ℕ
  pub uninstaller_signature : List ℕ
  pub compiled_code : List ℕ

-- `ansi_string`: in code page 1252
abbrev pub ansi_string : Conversion → Reader (List ℕ)
ansi_string to_utf8 = encoded_string to_utf8 1252 none

-- The strings at the start of `header::load`. `license_text`, `info_before`, `info_after` and
-- `compiled_code` stand in one of two places.
unfoldable pub load_texts : Conversion → Version → Reader HeaderTexts
load_texts to_utf8 v = do
  let ansi = ansi_string to_utf8
  app_name ← binary_string
  app_versioned_name ← binary_string
  app_id ← field_if (at_least v 1 3 0) binary_string []
  app_copyright ← binary_string
  app_publisher ← field_if (at_least v 1 3 0) binary_string []
  app_publisher_url ← field_if (at_least v 1 3 0) binary_string []
  app_support_phone ← field_if (at_least v 5 1 13) binary_string []
  app_support_url ← field_if (at_least v 1 3 0) binary_string []
  app_updates_url ← field_if (at_least v 1 3 0) binary_string []
  app_version ← field_if (at_least v 1 3 0) binary_string []
  default_dir_name ← binary_string
  default_group_name ← binary_string
  uninstall_icon_name ← field_if (not (at_least v 3 0 0)) ansi []
  base_filename ← binary_string
  license_text ← field_if (at_least v 1 3 0 && not (at_least v 5 2 5)) ansi []
  info_before ← field_if (at_least v 1 3 0 && not (at_least v 5 2 5)) ansi []
  info_after ← field_if (at_least v 1 3 0 && not (at_least v 5 2 5)) ansi []
  uninstall_files_dir ← field_if (at_least v 1 3 3) binary_string []
  uninstall_name ← field_if (at_least v 1 3 6) binary_string []
  uninstall_icon ← field_if (at_least v 1 3 6) binary_string []
  app_mutex ← field_if (at_least v 1 3 14) binary_string []
  default_user_name ← field_if (at_least v 3 0 0) binary_string []
  default_user_organisation ← field_if (at_least v 3 0 0) binary_string []
  default_serial ←
      field_if (at_least v 4 0 0 || (is_isx v && leb (inno_version_ext 3 0 6 1) v.value))
        binary_string []
  compiled_code ←
      field_if ((at_least v 4 0 0 && not (at_least v 5 2 5)) || (is_isx v && at_least v 1 3 24))
        binary_string []
  app_readme_file ← field_if (at_least v 4 2 4) binary_string []
  app_contact ← field_if (at_least v 4 2 4) binary_string []
  app_comments ← field_if (at_least v 4 2 4) binary_string []
  app_modify_path ← field_if (at_least v 4 2 4) binary_string []
  create_uninstall_registry_key ← field_if (at_least v 5 3 8) binary_string []
  uninstallable ← field_if (at_least v 5 3 10) binary_string []
  close_applications_filter ← field_if (at_least v 5 5 0) binary_string []
  setup_mutex ← field_if (at_least v 5 5 6) binary_string []
  changes_environment ← field_if (at_least v 5 6 1) binary_string []
  changes_associations ← field_if (at_least v 5 6 1) binary_string []
  license_text ← field_if (at_least v 5 2 5) ansi license_text
  info_before ← field_if (at_least v 5 2 5) ansi info_before
  info_after ← field_if (at_least v 5 2 5) ansi info_after
  uninstaller_signature ← field_if (at_least v 5 2 1 && not (at_least v 5 3 10)) binary_string []
  compiled_code ← field_if (at_least v 5 2 5) binary_string compiled_code
  give (record {
    app_name = app_name;
    app_versioned_name = app_versioned_name;
    app_id = app_id;
    app_copyright = app_copyright;
    app_publisher = app_publisher;
    app_publisher_url = app_publisher_url;
    app_support_phone = app_support_phone;
    app_support_url = app_support_url;
    app_updates_url = app_updates_url;
    app_version = app_version;
    default_dir_name = default_dir_name;
    default_group_name = default_group_name;
    uninstall_icon_name = uninstall_icon_name;
    base_filename = base_filename;
    uninstall_files_dir = uninstall_files_dir;
    uninstall_name = uninstall_name;
    uninstall_icon = uninstall_icon;
    app_mutex = app_mutex;
    default_user_name = default_user_name;
    default_user_organisation = default_user_organisation;
    default_serial = default_serial;
    app_readme_file = app_readme_file;
    app_contact = app_contact;
    app_comments = app_comments;
    app_modify_path = app_modify_path;
    create_uninstall_registry_key = create_uninstall_registry_key;
    uninstallable = uninstallable;
    close_applications_filter = close_applications_filter;
    setup_mutex = setup_mutex;
    changes_environment = changes_environment;
    changes_associations = changes_associations;
    license_text = license_text;
    info_before = info_before;
    info_after = info_after;
    uninstaller_signature = uninstaller_signature;
    compiled_code = compiled_code;
  })

-- `header::decode`
pub decode : Conversion → ℕ → List ℕ → HeaderTexts → HeaderTexts
decode to_utf8 codepage lead_bytes t = record t {
  app_name = to_utf8 codepage none t.app_name;
  app_versioned_name = to_utf8 codepage none t.app_versioned_name;
  app_id = to_utf8 codepage none t.app_id;
  app_copyright = to_utf8 codepage none t.app_copyright;
  app_publisher = to_utf8 codepage none t.app_publisher;
  app_publisher_url = to_utf8 codepage none t.app_publisher_url;
  app_support_phone = to_utf8 codepage none t.app_support_phone;
  app_support_url = to_utf8 codepage none t.app_support_url;
  app_updates_url = to_utf8 codepage none t.app_updates_url;
  app_version = to_utf8 codepage none t.app_version;
  default_dir_name = to_utf8 codepage (some lead_bytes) t.default_dir_name;
  default_group_name = to_utf8 codepage none t.default_group_name;
  base_filename = to_utf8 codepage (some lead_bytes) t.base_filename;
  uninstall_files_dir = to_utf8 codepage (some lead_bytes) t.uninstall_files_dir;
  uninstall_name = to_utf8 codepage (some lead_bytes) t.uninstall_name;
  uninstall_icon = to_utf8 codepage (some lead_bytes) t.uninstall_icon;
  app_mutex = to_utf8 codepage (some lead_bytes) t.app_mutex;
  default_user_name = to_utf8 codepage none t.default_user_name;
  default_user_organisation = to_utf8 codepage none t.default_user_organisation;
  default_serial = to_utf8 codepage none t.default_serial;
  app_readme_file = to_utf8 codepage (some lead_bytes) t.app_readme_file;
  app_contact = to_utf8 codepage none t.app_contact;
  app_comments = to_utf8 codepage none t.app_comments;
  app_modify_path = to_utf8 codepage (some lead_bytes) t.app_modify_path;
  create_uninstall_registry_key =
      to_utf8 codepage (some lead_bytes) t.create_uninstall_registry_key;
  uninstallable = to_utf8 codepage none t.uninstallable;
  close_applications_filter = to_utf8 codepage none t.close_applications_filter;
  setup_mutex = to_utf8 codepage (some lead_bytes) t.setup_mutex;
  changes_environment = to_utf8 codepage none t.changes_environment;
  changes_associations = to_utf8 codepage none t.changes_associations;
}
