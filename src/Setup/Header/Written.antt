-- ===== src/Setup/Header/Written.antt =====
-- The strings of the header, written and read (src/setup/header.cpp).
use innoextract_wasm.Base.{not, ◌&&◌, ◌||◌, leb, [], none, if◌then◌else◌}
use innoextract_wasm.Setup.Load.{Conversion}
use innoextract_wasm.Setup.Load.Codec.{
  Reads, Reads->>=, Reads-give, field_if-Reads, binary_string-Reads,
}
use innoextract_wasm.Setup.Version.{Version, inno_version_ext, is_isx, at_least}
use innoextract_wasm.Setup.Header.Texts.{HeaderTexts, load_texts}
use innoextract_wasm.Setup.Header.Stored.{FitTexts, store_texts, kept_texts, ansi_string-Reads}

-- The strings of a header, written for a version, are read whole: each string as it was where the
-- version stores it, in one of its places, and empty otherwise; the texts in code page 1252 converted.
-- Every length fits the 32 bits that are stored of it.
pub load_texts-store :
    (to_utf8 : Conversion) (v : Version) (t : HeaderTexts)
    → FitTexts t
    → Reads (load_texts to_utf8 v) (store_texts v t) (kept_texts to_utf8 v t)
unfolding load_texts
load_texts-store to_utf8 v t h = Reads->>= _ (binary_string-Reads t.app_name (h.app_name)) (
    Reads->>= _ (binary_string-Reads t.app_versioned_name (h.app_versioned_name)) (
      Reads->>= _ (field_if-Reads (at_least v 1 3 0) [] (binary_string-Reads t.app_id (h.app_id))) (
        Reads->>= _ (binary_string-Reads t.app_copyright (h.app_copyright)) (
          Reads->>= _
            (field_if-Reads (at_least v 1 3 0) []
              (binary_string-Reads t.app_publisher (h.app_publisher)))
            (Reads->>= _
              (field_if-Reads (at_least v 1 3 0) []
                (binary_string-Reads t.app_publisher_url (h.app_publisher_url)))
              (Reads->>= _
                (field_if-Reads (at_least v 5 1 13) []
                  (binary_string-Reads t.app_support_phone (h.app_support_phone)))
                (Reads->>= _
                  (field_if-Reads (at_least v 1 3 0) []
                    (binary_string-Reads t.app_support_url (h.app_support_url)))
                  (Reads->>= _
                    (field_if-Reads (at_least v 1 3 0) []
                      (binary_string-Reads t.app_updates_url (h.app_updates_url)))
                    (Reads->>= _
                      (field_if-Reads (at_least v 1 3 0) []
                        (binary_string-Reads t.app_version (h.app_version)))
                      (Reads->>= _ (binary_string-Reads t.default_dir_name (h.default_dir_name)) (
                        Reads->>= _
                          (binary_string-Reads t.default_group_name (h.default_group_name))
                          (Reads->>= _
                            (field_if-Reads (not (at_least v 3 0 0)) [] (
                              ansi_string-Reads to_utf8 t.uninstall_icon_name
                                (h.uninstall_icon_name)))
                            (Reads->>= _ (binary_string-Reads t.base_filename (h.base_filename)) (
                              Reads->>= _
                                (field_if-Reads (at_least v 1 3 0 && not (at_least v 5 2 5)) []
                                  (ansi_string-Reads to_utf8 t.license_text (h.license_text)))
                                (Reads->>= _
                                  (field_if-Reads (at_least v 1 3 0 && not (at_least v 5 2 5)) []
                                    (ansi_string-Reads to_utf8 t.info_before (h.info_before)))
                                  (Reads->>= _
                                    (field_if-Reads (at_least v 1 3 0 && not (at_least v 5 2 5)) []
                                      (ansi_string-Reads to_utf8 t.info_after (h.info_after)))
                                    (Reads->>= _
                                      (field_if-Reads (at_least v 1 3 3) [] (
                                        binary_string-Reads t.uninstall_files_dir
                                          (h.uninstall_files_dir)))
                                      (Reads->>= _
                                        (field_if-Reads (at_least v 1 3 6) []
                                          (binary_string-Reads t.uninstall_name (h.uninstall_name)))
                                        (Reads->>= _
                                          (field_if-Reads (at_least v 1 3 6) [] (
                                            binary_string-Reads t.uninstall_icon
                                              (h.uninstall_icon)))
                                          (Reads->>= _
                                            (field_if-Reads (at_least v 1 3 14) []
                                              (binary_string-Reads t.app_mutex (h.app_mutex)))
                                            (Reads->>= _
                                              (field_if-Reads (at_least v 3 0 0) [] (
                                                binary_string-Reads t.default_user_name
                                                  (h.default_user_name)))
                                              (Reads->>= _
                                                (field_if-Reads (at_least v 3 0 0) [] (
                                                  binary_string-Reads t.default_user_organisation
                                                    (h.default_user_organisation)))
                                                (Reads->>= _
                                                  (field_if-Reads
                                                    (at_least v 4 0 0
                                                      || (is_isx v
                                                          && leb (inno_version_ext 3 0 6 1)
                                                            v.value))
                                                    []
                                                    (binary_string-Reads t.default_serial
                                                      (h.default_serial)))
                                                  (Reads->>= _
                                                    (field_if-Reads
                                                      ((at_least v 4 0 0 && not (at_least v 5 2 5))
                                                        || (is_isx v && at_least v 1 3 24))
                                                      []
                                                      (binary_string-Reads t.compiled_code
                                                        (h.compiled_code)))
                                                    (Reads->>= _
                                                      (field_if-Reads (at_least v 4 2 4) [] (
                                                        binary_string-Reads t.app_readme_file
                                                          (h.app_readme_file)))
                                                      (Reads->>= _
                                                        (field_if-Reads (at_least v 4 2 4) [] (
                                                          binary_string-Reads t.app_contact
                                                            (h.app_contact)))
                                                        (Reads->>= _
                                                          (field_if-Reads (at_least v 4 2 4) [] (
                                                            binary_string-Reads t.app_comments
                                                            (h.app_comments)))
                                                          (Reads->>= _
                                                            (field_if-Reads (at_least v 4 2 4) [] (
                                                            binary_string-Reads t.app_modify_path
                                                            (h.app_modify_path)))
                                                            (Reads->>= _
                                                            (field_if-Reads (at_least v 5 3 8) [] (
                                                            binary_string-Reads
                                                            t.create_uninstall_registry_key
                                                            (h.create_uninstall_registry_key)))
                                                            (Reads->>= _
                                                            (field_if-Reads (at_least v 5 3 10) [] (
                                                            binary_string-Reads t.uninstallable
                                                            (h.uninstallable)))
                                                            (Reads->>= _
                                                            (field_if-Reads (at_least v 5 5 0) [] (
                                                            binary_string-Reads
                                                            t.close_applications_filter
                                                            (h.close_applications_filter)))
                                                            (Reads->>= _
                                                            (field_if-Reads (at_least v 5 5 6) [] (
                                                            binary_string-Reads t.setup_mutex
                                                            (h.setup_mutex)))
                                                            (Reads->>= _
                                                            (field_if-Reads (at_least v 5 6 1) [] (
                                                            binary_string-Reads
                                                            t.changes_environment
                                                            (h.changes_environment)))
                                                            (Reads->>= _
                                                            (field_if-Reads (at_least v 5 6 1) [] (
                                                            binary_string-Reads
                                                            t.changes_associations
                                                            (h.changes_associations)))
                                                            (Reads->>= _
                                                            (field_if-Reads (at_least v 5 2 5)
                                                            (if at_least v 1 3 0
                                                            && not (at_least v 5 2 5)
                                                            then (to_utf8 1252 none t.license_text)
                                                            else [])
                                                            (ansi_string-Reads to_utf8
                                                            t.license_text (h.license_text)))
                                                            (Reads->>= _
                                                            (field_if-Reads (at_least v 5 2 5)
                                                            (if at_least v 1 3 0
                                                            && not (at_least v 5 2 5)
                                                            then (to_utf8 1252 none t.info_before)
                                                            else [])
                                                            (ansi_string-Reads to_utf8 t.info_before
                                                            (h.info_before)))
                                                            (Reads->>= _
                                                            (field_if-Reads (at_least v 5 2 5)
                                                            (if at_least v 1 3 0
                                                            && not (at_least v 5 2 5)
                                                            then (to_utf8 1252 none t.info_after)
                                                            else [])
                                                            (ansi_string-Reads to_utf8 t.info_after
                                                            (h.info_after)))
                                                            (Reads->>= _
                                                            (field_if-Reads
                                                            (at_least v 5 2 1
                                                            && not (at_least v 5 3 10))
                                                            []
                                                            (binary_string-Reads
                                                            t.uninstaller_signature
                                                            (h.uninstaller_signature)))
                                                            (Reads-give _ (
                                                            field_if-Reads (at_least v 5 2 5)
                                                            (if (at_least v 4 0 0
                                                            && not (at_least v 5 2 5))
                                                            || (is_isx v && at_least v 1 3 24)
                                                            then t.compiled_code
                                                            else [])
                                                            (binary_string-Reads t.compiled_code
                                                            (h.compiled_code))))))))))))))))))))))))
                                                            ))))))))))))))))))
