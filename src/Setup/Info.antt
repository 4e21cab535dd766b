-- ===== src/Setup/Info.antt =====
-- The setup data: the header, and the entries behind it (src/setup/info.hpp, src/setup/info.cpp).
-- A block of the file is opened by a parameter, which gives the bytes of the block: the parts of
-- src/stream/block.cpp are in Stream.Block.
pub mod Images
pub mod Entries
pub mod Skip
pub mod Codepage
pub mod Wanted
pub mod Retry
pub mod Tests
use innoextract_wasm.Base.{
  ℕ, zero, suc, Bool, true, false, not, ◌&&◌, ◌||◌, List, [], ◌∷◌, ◌++◌, Option, none, some, map,
  ◌==◌, if◌then◌else◌,
}
use innoextract_wasm.Setup.Load.{Reader, give, ◌>>=◌, field_if, Conversion}
use innoextract_wasm.Setup.Load.Flags.{contains}
use innoextract_wasm.Setup.Version.{Version, at_least}
use innoextract_wasm.Setup.Entry.Codepages.{cp_windows1252, cp_utf16le}
use innoextract_wasm.Setup.Header.{Header, load_header}
use innoextract_wasm.Setup.Header.Kinds.{CompressionMethod}
use innoextract_wasm.Setup.Header.Options.{has, encryption_used}
use innoextract_wasm.Setup.Header.Texts
use innoextract_wasm.Setup.Entry.{Info}
use innoextract_wasm.Setup.Entry.Component.{ComponentEntry, load_component}
use innoextract_wasm.Setup.Entry.Data.{Tm, DataEntry, load_data_entry}
use innoextract_wasm.Setup.Entry.Delete.{DeleteEntry, load_delete}
use innoextract_wasm.Setup.Entry.Directory.{DirectoryEntry, load_directory}
use innoextract_wasm.Setup.Entry.File.{FileEntry, load_file}
use innoextract_wasm.Setup.Entry.Icon.{IconEntry, load_icon}
use innoextract_wasm.Setup.Entry.Ini.{IniEntry, load_ini}
use innoextract_wasm.Setup.Entry.Languages.{LanguageEntry, load_language, decode_name}
use innoextract_wasm.Setup.Entry.Message.{MessageEntry, load_message, load_permission}
use innoextract_wasm.Setup.Entry.Registry.{RegistryEntry, load_registry}
use innoextract_wasm.Setup.Entry.Run.{RunEntry, load_run}
use innoextract_wasm.Setup.Entry.Task.{TaskEntry, load_task}
use innoextract_wasm.Setup.Entry.Types.{TypeEntry, load_type}
use innoextract_wasm.Setup.Info.Images.{
  EntryType, components, data_entries, delete_entries, uninstall_delete_entries, directories, files,
  icons, ini_entries, languages, messages, permissions, registry_entries, run_entries,
  uninstall_run_entries, tasks, types, no_skip, wants, InstallerImages, no_images,
  load_wizard_and_decompressor,
}
use innoextract_wasm.Setup.Info.Entries.{load_entries}
use innoextract_wasm.Setup.Info.Codepage.{choose_codepage}

pub record SetupInfo : Type 0 where
  pub codepage : ℕ
  pub header : Header
  pub language_list : List LanguageEntry
  pub images : InstallerImages
  pub message_list : List MessageEntry
  pub permission_list : List (List ℕ)
  pub type_list : List TypeEntry
  pub component_list : List ComponentEntry
  pub task_list : List TaskEntry
  pub directory_list : List DirectoryEntry
  pub file_list : List FileEntry
  pub icon_list : List IconEntry
  pub ini_list : List IniEntry
  pub registry_list : List RegistryEntry
  pub delete_list : List DeleteEntry
  pub uninstall_delete_list : List DeleteEntry
  pub run_list : List RunEntry
  pub uninstall_run_list : List RunEntry
  pub data_list : List DataEntry

-- `check_is_end`: throws where bytes are left.
unfoldable pub check_is_end : Reader (Unit {0})
check_is_end [] = some (tt, [])
check_is_end (b ∷ bytes) = none

-- What the loaders of the entries see of the setup data.
abbrev pub entry_info : Version → ℕ → Header → List LanguageEntry → Info
entry_info v codepage h language_list = record {
  version = v;
  codepage = codepage;
  lead_bytes = h.lead_bytes;
  codepages = map (λ l. l.codepage) language_list;
}

-- `if(entries & (Messages | NoSkip) || (!version.is_unicode() && !force_codepage))`
pub with_languages : Version → ℕ → List EntryType → List EntryType
with_languages v force_codepage entries =
    if wants messages entries
      || wants no_skip entries
      || (not v.variant.unicode && force_codepage == 0)
    then languages ∷ entries
    else entries

-- `header.decode`
abbrev pub decoded : Conversion → ℕ → Header → Header
decoded to_utf8 codepage h = record h { texts = Texts.decode to_utf8 codepage h.lead_bytes h.texts }

-- What the primary block holds behind the languages; the data entries are in the second one.
unfoldable pub load_others :
    Conversion → Version → ℕ → List EntryType → Header → List LanguageEntry → Reader SetupInfo
load_others to_utf8 v force_codepage entries h stored_languages = do
  let count = h.counts
  let codepage = choose_codepage v force_codepage (map (λ l. l.codepage) stored_languages)
  let header = decoded to_utf8 codepage h
  let language_list = map (decode_name to_utf8 codepage) stored_languages
  let i = entry_info v codepage header language_list
  let encrypted = has encryption_used header.options
  let load_images = load_wizard_and_decompressor v header.settings.compression encrypted entries
  early ← field_if (not (at_least v 4 0 0)) load_images no_images
  message_list ← load_entries (wants messages entries) count.message_count (load_message to_utf8 i)
  permission_list ← load_entries (wants permissions entries) count.permission_count load_permission
  type_list ← load_entries (wants types entries) count.type_count (load_type to_utf8 i)
  component_list ←
      load_entries (wants components entries) count.component_count (load_component to_utf8 i 0)
  task_list ← load_entries (wants tasks entries) count.task_count (load_task to_utf8 i)
  directory_list ←
      load_entries (wants directories entries) count.directory_count (load_directory to_utf8 i)
  file_list ← load_entries (wants files entries) count.file_count (load_file to_utf8 i)
  icon_list ← load_entries (wants icons entries) count.icon_count (load_icon to_utf8 i)
  ini_list ← load_entries (wants ini_entries entries) count.ini_entry_count (load_ini to_utf8 i)
  registry_list ←
      load_entries (wants registry_entries entries) count.registry_entry_count
        (load_registry to_utf8 i)
  delete_list ←
      load_entries (wants delete_entries entries) count.delete_entry_count (load_delete to_utf8 i)
  uninstall_delete_list ←
      load_entries (wants uninstall_delete_entries entries) count.uninstall_delete_entry_count
        (load_delete to_utf8 i)
  run_list ← load_entries (wants run_entries entries) count.run_entry_count (load_run to_utf8 i [])
  uninstall_run_list ←
      load_entries (wants uninstall_run_entries entries) count.uninstall_run_entry_count
        (load_run to_utf8 i [])
  late ← field_if (at_least v 4 0 0) load_images early
  end ← check_is_end
  give (record {
    codepage = codepage;
    header = header;
    language_list = language_list;
    images = late;
    message_list = message_list;
    permission_list = permission_list;
    type_list = type_list;
    component_list = component_list;
    task_list = task_list;
    directory_list = directory_list;
    file_list = file_list;
    icon_list = icon_list;
    ini_list = ini_list;
    registry_list = registry_list;
    delete_list = delete_list;
    uninstall_delete_list = uninstall_delete_list;
    run_list = run_list;
    uninstall_run_list = uninstall_run_list;
    data_list = [];
  })

-- What the primary block holds.
unfoldable pub load_primary : Conversion → Version → ℕ → List EntryType → Reader SetupInfo
load_primary to_utf8 v force_codepage entries = do
  h ← load_header to_utf8 v
  stored_languages ←
      load_entries (wants languages entries) h.counts.language_count (load_language to_utf8 v [] [])
  load_others to_utf8 v force_codepage entries h stored_languages

-- What the second block holds.
unfoldable pub load_secondary :
    (Tm → ℕ) → Version → CompressionMethod → ℕ → List EntryType → Reader (List DataEntry)
load_secondary parse_time v compression count entries = do
  data_list ←
      load_entries (wants data_entries entries) count (load_data_entry parse_time v compression)
  end ← check_is_end
  give data_list

-- A block is read by a reader of its own.
abbrev pub within : {A : Type 0} → Reader A → List ℕ → Reader A
within r block stream = elim (r block) [ none ↦ none | some (a, left) ↦ some (a, stream) ]

-- `info::try_load`. `open_block` opens the block that comes next: the bytes that it holds, and what
-- stands behind it.
unfoldable pub try_load :
    Conversion
    → (Tm → ℕ)
    → (Version → Reader (List ℕ))
    → Version
    → ℕ
    → List EntryType
    → Reader SetupInfo
try_load to_utf8 parse_time open_block v force_codepage entries = do
  let wanted = with_languages v force_codepage entries
  primary ← open_block v
  loaded ← within (load_primary to_utf8 v force_codepage wanted) primary
  secondary ← open_block v
  data_list ←
      within
        (load_secondary parse_time v loaded.header.settings.compression
          loaded.header.counts.data_entry_count wanted)
        secondary
  give (record loaded { data_list = data_list })
