-- ===== src/Setup/Header/Stored.antt =====
-- The strings of the header as a version stores them (src/setup/header.cpp).
use innoextract_wasm.Base.{
  ℕ, ◌^◌, ◌<◌, not, ◌&&◌, ◌||◌, leb, List, [], ◌++◌, none, length, if◌then◌else◌,
}
use innoextract_wasm.Setup.Load.{Conversion}
use innoextract_wasm.Setup.Load.Codec.{Reads, store_if, store_string, encoded_string-Reads}
use innoextract_wasm.Setup.Version.{Version, inno_version_ext, is_isx, at_least}
use innoextract_wasm.Setup.Header.Texts.{HeaderTexts, ansi_string}

-- Every length fits the 32 bits that are stored of it.
pub record FitTexts (t : HeaderTexts) : Type 0 where
  pub app_name : length t.app_name < 2 ^ 32
  pub app_versioned_name : length t.app_versioned_name < 2 ^ 32
  pub app_id : length t.app_id < 2 ^ 32
  pub app_copyright : length t.app_copyright < 2 ^ 32
  pub app_publisher : length t.app_publisher < 2 ^ 32
  pub app_publisher_url : length t.app_publisher_url < 2 ^ 32
  pub app_support_phone : length t.app_support_phone < 2 ^ 32
  pub app_support_url : length t.app_support_url < 2 ^ 32
  pub app_updates_url : length t.app_updates_url < 2 ^ 32
  pub app_version : length t.app_version < 2 ^ 32
  pub default_dir_name : length t.default_dir_name < 2 ^ 32
  pub default_group_name : length t.default_group_name < 2 ^ 32
  pub uninstall_icon_name : length t.uninstall_icon_name < 2 ^ 32
  pub base_filename : length t.base_filename < 2 ^ 32
  pub uninstall_files_dir : length t.uninstall_files_dir < 2 ^ 32
  pub uninstall_name : length t.uninstall_name < 2 ^ 32
  pub uninstall_icon : length t.uninstall_icon < 2 ^ 32
  pub app_mutex : length t.app_mutex < 2 ^ 32
  pub default_user_name : length t.default_user_name < 2 ^ 32
  pub default_user_organisation : length t.default_user_organisation < 2 ^ 32
  pub default_serial : length t.default_serial < 2 ^ 32
  pub app_readme_file : length t.app_readme_file < 2 ^ 32
  pub app_contact : length t.app_contact < 2 ^ 32
  pub app_comments : length t.app_comments < 2 ^ 32
  pub app_modify_path : length t.app_modify_path < 2 ^ 32
  pub create_uninstall_registry_key : length t.create_uninstall_registry_key < 2 ^ 32
  pub uninstallable : length t.uninstallable < 2 ^ 32
  pub close_applications_filter : length t.close_applications_filter < 2 ^ 32
  pub setup_mutex : length t.setup_mutex < 2 ^ 32
  pub changes_environment : length t.changes_environment < 2 ^ 32
  pub changes_associations : length t.changes_associations < 2 ^ 32
  pub license_text : length t.license_text < 2 ^ 32
  pub info_before : length t.info_before < 2 ^ 32
  pub info_after : length t.info_after < 2 ^ 32
  pub uninstaller_signature : length t.uninstaller_signature < 2 ^ 32
  pub compiled_code : length t.compiled_code < 2 ^ 32

pub ansi_string-Reads :
    (to_utf8 : Conversion) (s : List ℕ)
    → length s < 2 ^ 32
    → Reads (ansi_string to_utf8) (store_string s) (to_utf8 1252 none s)
ansi_string-Reads to_utf8 s h = encoded_string-Reads to_utf8 1252 none s h

-- The strings as a version stores them.
abbrev pub store_texts : Version → HeaderTexts → List ℕ
store_texts v t =
    store_string t.app_name
    ++ (store_string t.app_versioned_name
        ++ (store_if (at_least v 1 3 0) (store_string t.app_id)
            ++ (store_string t.app_copyright
                ++ (store_if (at_least v 1 3 0) (store_string t.app_publisher)
                    ++ (store_if (at_least v 1 3 0) (store_string t.app_publisher_url)
                        ++ (store_if (at_least v 5 1 13) (store_string t.app_support_phone)
                            ++ (store_if (at_least v 1 3 0) (store_string t.app_support_url)
                                ++ (store_if (at_least v 1 3 0) (store_string t.app_updates_url)
                                    ++ (store_if (at_least v 1 3 0) (store_string t.app_version)
                                        ++ (store_string t.default_dir_name
                                            ++ (store_string t.default_group_name
                                                ++ (store_if (not (at_least v 3 0 0))
                                                      (store_string t.uninstall_icon_name)
                                                    ++ (store_string t.base_filename
                                                        ++ (store_if
                                                            (at_least v 1 3 0
                                                            && not (at_least v 5 2 5))
                                                            (store_string t.license_text)
                                                            ++ (store_if
                                                            (at_least v 1 3 0
                                                            && not (at_least v 5 2 5))
                                                            (store_string t.info_before)
                                                            ++ (store_if
                                                            (at_least v 1 3 0
                                                            && not (at_least v 5 2 5))
                                                            (store_string t.info_after)
                                                            ++ (store_if (at_least v 1 3 3)
                                                            (store_string t.uninstall_files_dir)
                                                            ++ (store_if (at_least v 1 3 6)
                                                            (store_string t.uninstall_name)
                                                            ++ (store_if (at_least v 1 3 6)
                                                            (store_string t.uninstall_icon)
                                                            ++ (store_if (at_least v 1 3 14)
                                                            (store_string t.app_mutex)
                                                            ++ (store_if (at_least v 3 0 0)
                                                            (store_string t.default_user_name)
                                                            ++ (store_if (at_least v 3 0 0) (
                                                            store_string
                                                            t.default_user_organisation)
                                                            ++ (store_if
                                                            (at_least v 4 0 0
                                                            || (is_isx v
                                                            && leb (inno_version_ext 3 0 6 1)
                                                            v.value))
                                                            (store_string t.default_serial)
                                                            ++ (store_if
                                                            ((at_least v 4 0 0
                                                            && not (at_least v 5 2 5))
                                                            || (is_isx v && at_least v 1 3 24))
                                                            (store_string t.compiled_code)
                                                            ++ (store_if (at_least v 4 2 4)
                                                            (store_string t.app_readme_file)
                                                            ++ (store_if (at_least v 4 2 4)
                                                            (store_string t.app_contact)
                                                            ++ (store_if (at_least v 4 2 4)
                                                            (store_string t.app_comments)
                                                            ++ (store_if (at_least v 4 2 4)
                                                            (store_string t.app_modify_path)
                                                            ++ (store_if (at_least v 5 3 8) (
                                                            store_string
                                                            t.create_uninstall_registry_key)
                                                            ++ (store_if (at_least v 5 3 10)
                                                            (store_string t.uninstallable)
                                                            ++ (store_if (at_least v 5 5 0) (
                                                            store_string
                                                            t.close_applications_filter)
                                                            ++ (store_if (at_least v 5 5 6)
                                                            (store_string t.setup_mutex)
                                                            ++ (store_if (at_least v 5 6 1)
                                                            (store_string t.changes_environment)
                                                            ++ (store_if (at_least v 5 6 1)
                                                            (store_string t.changes_associations)
                                                            ++ (store_if (at_least v 5 2 5)
                                                            (store_string t.license_text)
                                                            ++ (store_if (at_least v 5 2 5)
                                                            (store_string t.info_before)
                                                            ++ (store_if (at_least v 5 2 5)
                                                            (store_string t.info_after)
                                                            ++ (store_if
                                                            (at_least v 5 2 1
                                                            && not (at_least v 5 3 10))
                                                            (store_string t.uninstaller_signature)
                                                            ++ (store_if (at_least v 5 2 5) (
                                                            store_string
                                                            t.compiled_code))))))))))))))))))))))))))))))))))))))))

-- What a version keeps of them.
abbrev pub kept_texts : Conversion → Version → HeaderTexts → HeaderTexts
kept_texts to_utf8 v t = record {
  app_name = t.app_name;
  app_versioned_name = t.app_versioned_name;
  app_id = if at_least v 1 3 0 then t.app_id else [];
  app_copyright = t.app_copyright;
  app_publisher = if at_least v 1 3 0 then t.app_publisher else [];
  app_publisher_url = if at_least v 1 3 0 then t.app_publisher_url else [];
  app_support_phone = if at_least v 5 1 13 then t.app_support_phone else [];
  app_support_url = if at_least v 1 3 0 then t.app_support_url else [];
  app_updates_url = if at_least v 1 3 0 then t.app_updates_url else [];
  app_version = if at_least v 1 3 0 then t.app_version else [];
  default_dir_name = t.default_dir_name;
  default_group_name = t.default_group_name;
  uninstall_icon_name =
      if not (at_least v 3 0 0) then to_utf8 1252 none t.uninstall_icon_name else [];
  base_filename = t.base_filename;
  uninstall_files_dir = if at_least v 1 3 3 then t.uninstall_files_dir else [];
  uninstall_name = if at_least v 1 3 6 then t.uninstall_name else [];
  uninstall_icon = if at_least v 1 3 6 then t.uninstall_icon else [];
  app_mutex = if at_least v 1 3 14 then t.app_mutex else [];
  default_user_name = if at_least v 3 0 0 then t.default_user_name else [];
  default_user_organisation = if at_least v 3 0 0 then t.default_user_organisation else [];
  default_serial =
      if at_least v 4 0 0 || (is_isx v && leb (inno_version_ext 3 0 6 1) v.value)
      then t.default_serial
      else [];
  app_readme_file = if at_least v 4 2 4 then t.app_readme_file else [];
  app_contact = if at_least v 4 2 4 then t.app_contact else [];
  app_comments = if at_least v 4 2 4 then t.app_comments else [];
  app_modify_path = if at_least v 4 2 4 then t.app_modify_path else [];
  create_uninstall_registry_key = if at_least v 5 3 8 then t.create_uninstall_registry_key else [];
  uninstallable = if at_least v 5 3 10 then t.uninstallable else [];
  close_applications_filter = if at_least v 5 5 0 then t.close_applications_filter else [];
  setup_mutex = if at_least v 5 5 6 then t.setup_mutex else [];
  changes_environment = if at_least v 5 6 1 then t.changes_environment else [];
  changes_associations = if at_least v 5 6 1 then t.changes_associations else [];
  license_text =
      if at_least v 5 2 5
      then to_utf8 1252 none t.license_text
      else if at_least v 1 3 0 && not (at_least v 5 2 5)
      then to_utf8 1252 none t.license_text
      else [];
  info_before =
      if at_least v 5 2 5
      then to_utf8 1252 none t.info_before
      else if at_least v 1 3 0 && not (at_least v 5 2 5)
      then to_utf8 1252 none t.info_before
      else [];
  info_after =
      if at_least v 5 2 5
      then to_utf8 1252 none t.info_after
      else if at_least v 1 3 0 && not (at_least v 5 2 5)
      then to_utf8 1252 none t.info_after
      else [];
  uninstaller_signature =
      if at_least v 5 2 1 && not (at_least v 5 3 10) then t.uninstaller_signature else [];
  compiled_code =
      if at_least v 5 2 5
      then t.compiled_code
      else if (at_least v 4 0 0 && not (at_least v 5 2 5)) || (is_isx v && at_least v 1 3 24)
      then t.compiled_code
      else [];
}
