-- ===== src/Setup/Info/Wanted.antt =====
-- What is wanted of the entries does not change what is read (src/setup/info.cpp).
use innoextract_wasm.Base.{ℕ, Bool, not, List, [], map, ◌≡◌, subst}
use innoextract_wasm.Setup.Load.{◌>>=◌, Conversion}
use innoextract_wasm.Setup.Version.{Version, at_least}
use innoextract_wasm.Setup.Entry.Component.{load_component}
use innoextract_wasm.Setup.Entry.Delete.{load_delete}
use innoextract_wasm.Setup.Entry.Directory.{load_directory}
use innoextract_wasm.Setup.Entry.File.{load_file}
use innoextract_wasm.Setup.Entry.Icon.{load_icon}
use innoextract_wasm.Setup.Entry.Ini.{load_ini}
use innoextract_wasm.Setup.Entry.Languages.{LanguageEntry, load_language, decode_name}
use innoextract_wasm.Setup.Entry.Message.{load_message, load_permission}
use innoextract_wasm.Setup.Entry.Registry.{load_registry}
use innoextract_wasm.Setup.Entry.Run.{load_run}
use innoextract_wasm.Setup.Entry.Task.{load_task}
use innoextract_wasm.Setup.Entry.Types.{load_type}
use innoextract_wasm.Setup.Header.{Header, load_header}
use innoextract_wasm.Setup.Header.Options.{has, encryption_used}
use innoextract_wasm.Setup.Info.Codepage.{choose_codepage}
use innoextract_wasm.Setup.Info.Entries.{load_entries}
use innoextract_wasm.Setup.Info.Images.{
  EntryType, components, delete_entries, uninstall_delete_entries, directories, files, icons,
  ini_entries, languages, messages, permissions, registry_entries, run_entries,
  uninstall_run_entries, tasks, types, wants, no_images,
}
use innoextract_wasm.Setup.Info.Skip.{
  SameBytes, SameBytes-give, SameBytes->>=, SameBytes-under, SameBytes-field_if,
  load_wizard_and_decompressor-SameBytes, load_entries-SameBytes,
}
use innoextract_wasm.Setup.Info.{entry_info, decoded, check_is_end, load_others, load_primary}

load_others-SameBytes :
    (to_utf8 : Conversion) (v : Version) (force_codepage : ℕ) (entries entries' : List EntryType)
    (header : Header) (stored_languages : List LanguageEntry)
    → SameBytes
        (load_others to_utf8 v force_codepage entries header stored_languages)
        (load_others to_utf8 v force_codepage entries' header stored_languages)
unfolding load_others
load_others-SameBytes to_utf8 v force_codepage entries entries' header stored_languages =
    let count = header.counts in
    let codepage = choose_codepage v force_codepage (map (λ l. l.codepage) stored_languages) in
    let header' = decoded to_utf8 codepage header in
    let i = entry_info v codepage header' (map (decode_name to_utf8 codepage) stored_languages) in
    let images =
      load_wizard_and_decompressor-SameBytes v header'.settings.compression
        (has encryption_used header'.options) entries entries' in
    SameBytes->>= _ _ (SameBytes-field_if (not (at_least v 4 0 0)) no_images no_images images)
      (λ early early'.
        SameBytes->>= _ _
          (load_entries-SameBytes (wants messages entries) (wants messages entries')
            count.message_count (load_message to_utf8 i))
          (λ _ _.
            SameBytes->>= _ _
              (load_entries-SameBytes (wants permissions entries) (wants permissions entries')
                count.permission_count load_permission)
              (λ _ _.
                SameBytes->>= _ _
                  (load_entries-SameBytes (wants types entries) (wants types entries')
                    count.type_count (load_type to_utf8 i))
                  (λ _ _.
                    SameBytes->>= _ _
                      (load_entries-SameBytes (wants components entries) (wants components entries')
                        count.component_count (load_component to_utf8 i 0))
                      (λ _ _.
                        SameBytes->>= _ _
                          (load_entries-SameBytes (wants tasks entries) (wants tasks entries')
                            count.task_count (load_task to_utf8 i))
                          (λ _ _.
                            SameBytes->>= _ _
                              (load_entries-SameBytes (wants directories entries)
                                (wants directories entries') count.directory_count
                                (load_directory to_utf8 i))
                              (λ _ _.
                                SameBytes->>= _ _
                                  (load_entries-SameBytes (wants files entries)
                                    (wants files entries') count.file_count (load_file to_utf8 i))
                                  (λ _ _.
                                    SameBytes->>= _ _
                                      (load_entries-SameBytes (wants icons entries)
                                        (wants icons entries') count.icon_count
                                        (load_icon to_utf8 i))
                                      (λ _ _.
                                        SameBytes->>= _ _
                                          (load_entries-SameBytes (wants ini_entries entries)
                                            (wants ini_entries entries') count.ini_entry_count
                                            (load_ini to_utf8 i))
                                          (λ _ _.
                                            SameBytes->>= _ _
                                              (load_entries-SameBytes
                                                (wants registry_entries entries)
                                                (wants registry_entries entries')
                                                count.registry_entry_count
                                                (load_registry to_utf8 i))
                                              (λ _ _.
                                                SameBytes->>= _ _
                                                  (load_entries-SameBytes
                                                    (wants delete_entries entries)
                                                    (wants delete_entries entries')
                                                    count.delete_entry_count
                                                    (load_delete to_utf8 i))
                                                  (λ _ _.
                                                    SameBytes->>= _ _
                                                      (load_entries-SameBytes
                                                        (wants uninstall_delete_entries entries)
                                                        (wants uninstall_delete_entries entries')
                                                        count.uninstall_delete_entry_count
                                                        (load_delete to_utf8 i))
                                                      (λ _ _.
                                                        SameBytes->>= _ _
                                                          (load_entries-SameBytes
                                                            (wants run_entries entries)
                                                            (wants run_entries entries')
                                                            count.run_entry_count
                                                            (load_run to_utf8 i []))
                                                          (λ _ _.
                                                            SameBytes->>= _ _
                                                            (load_entries-SameBytes
                                                            (wants uninstall_run_entries entries)
                                                            (wants uninstall_run_entries entries')
                                                            count.uninstall_run_entry_count
                                                            (load_run to_utf8 i []))
                                                            (λ _ _.
                                                            SameBytes->>= _ _
                                                            (SameBytes-field_if (at_least v 4 0 0)
                                                            early early' images)
                                                            (λ _ _.
                                                            SameBytes-under _ _ check_is_end (λ _.
                                                            SameBytes-give _ _)))))))))))))))))

-- Two sets of wanted entries that agree on the languages: reading the primary block throws at the same
-- blocks.
pub load_primary-SameBytes :
    (to_utf8 : Conversion) (v : Version) (force_codepage : ℕ) (entries entries' : List EntryType)
    → wants languages entries ≡ wants languages entries'
    → SameBytes
        (load_primary to_utf8 v force_codepage entries)
        (load_primary to_utf8 v force_codepage entries')
unfolding load_primary
load_primary-SameBytes to_utf8 v force_codepage entries entries' same =
    SameBytes-under _ _ (load_header to_utf8 v) (λ h.
      let load_languages =
        λ (w : Bool). load_entries w h.counts.language_count (load_language to_utf8 v [] []) in
      subst
        (λ w.
          SameBytes
            (load_languages (wants languages entries) >>= λ ls.
              load_others to_utf8 v force_codepage entries h ls)
            (load_languages w >>= λ ls. load_others to_utf8 v force_codepage entries' h ls))
        same
        (SameBytes-under _ _ (load_languages (wants languages entries))
          (λ ls. load_others-SameBytes to_utf8 v force_codepage entries entries' h ls)))
