-- ===== src/Setup/Entry/Written.antt =====
-- Entries written for a version of the setup data and read again (src/setup/item.cpp,
-- src/setup/delete.cpp, src/setup/directory.cpp).
use innoextract_wasm.Base.{
  ℕ, ◌-◌, ◌^◌, ◌<◌, Bool, not, true, false, ◌&&◌, ◌||◌, List, [], ◌∷◌, ◌++◌, none, some, length,
  get_or, if◌then◌else◌, arith,
}
use innoextract_wasm.Base.Words.{store32}
use innoextract_wasm.Setup.Load.{Conversion}
use innoextract_wasm.Setup.Load.Codec.{
  Reads, Reads->>=, Reads-give, store_if, field_if-Reads, load_u16-Reads, load_u32-Reads, store16,
  store_string, encoded_string-Reads, stored_enum-Reads, stored_flags-Reads, binary_string-Reads,
}
use innoextract_wasm.Setup.Load.Flags.{select, stored_flags}
use innoextract_wasm.Setup.Version.{Version, is_16_bit, is_isx, at_least}
use innoextract_wasm.Setup.Entry.{Info, Conditions, load_condition_data, skip_entry_size, path_text}
use innoextract_wasm.Setup.Entry.Stored.{
  store_range, kept_range, HasBuilds, load_version_range-store,
}
use innoextract_wasm.Setup.Entry.Delete.{DeleteEntry, files, delete_target_type_map, load_delete}
use innoextract_wasm.Setup.Entry.Directory.{
  DirectoryEntry, DirectoryFlag, directory_options_0, directory_options_1, load_directory,
}

-- A string whose length fits the 32 bits that are stored of it.
abbrev pub IsText : List ℕ → Type 0
IsText s = length s < 2 ^ 32

abbrev pub AreTexts : Conditions → Type 0
AreTexts c =
    IsText c.components
    × IsText c.tasks
    × IsText c.languages
    × IsText c.check
    × IsText c.after_install
    × IsText c.before_install

abbrev pub has_components : Version → Bool
has_components v = at_least v 2 0 0 || is_isx v && at_least v 1 3 8

abbrev pub has_tasks : Version → Bool
has_tasks v = at_least v 2 0 0 || is_isx v && at_least v 1 3 17

abbrev pub has_check : Version → Bool
has_check v = at_least v 4 0 0 || is_isx v && at_least v 1 3 24

abbrev pub store_conditions : Version → Conditions → List ℕ
store_conditions v c =
    store_if (has_components v) (store_string c.components)
    ++ (store_if (has_tasks v) (store_string c.tasks)
        ++ (store_if (at_least v 4 0 1) (store_string c.languages)
            ++ (store_if (has_check v) (store_string c.check)
                ++ (store_if (at_least v 4 1 0) (store_string c.after_install)
                    ++ store_if (at_least v 4 1 0) (store_string c.before_install)))))

-- What a version keeps of the strings, converted.
abbrev pub kept_conditions : Conversion → Info → Conditions → Conditions
kept_conditions to_utf8 i c =
    let v = i.version in
    let utf8 = to_utf8 i.codepage none in
    record {
      components = if has_components v then utf8 c.components else [];
      tasks = if has_tasks v then utf8 c.tasks else [];
      languages = if at_least v 4 0 1 then utf8 c.languages else [];
      check = if has_check v then utf8 c.check else [];
      after_install = if at_least v 4 1 0 then utf8 c.after_install else [];
      before_install = if at_least v 4 1 0 then utf8 c.before_install else [];
    }

pub load_condition_data-store :
    (to_utf8 : Conversion) (i : Info) (c : Conditions)
    → AreTexts c
    → Reads
        (load_condition_data to_utf8 i)
        (store_conditions i.version c)
        (kept_conditions to_utf8 i c)
unfolding load_condition_data
load_condition_data-store to_utf8 i c (p, q, r, s, t, u) =
    let v = i.version in
    Reads->>= _
      (field_if-Reads (has_components v) []
        (encoded_string-Reads to_utf8 i.codepage none c.components p))
      (Reads->>= _
        (field_if-Reads (has_tasks v) [] (encoded_string-Reads to_utf8 i.codepage none c.tasks q))
        (Reads->>= _
          (field_if-Reads (at_least v 4 0 1) []
            (encoded_string-Reads to_utf8 i.codepage none c.languages r))
          (Reads->>= _
            (field_if-Reads (has_check v) []
              (encoded_string-Reads to_utf8 i.codepage none c.check s))
            (Reads->>= _
              (field_if-Reads (at_least v 4 1 0) []
                (encoded_string-Reads to_utf8 i.codepage none c.after_install t))
              (Reads-give _ (
                field_if-Reads (at_least v 4 1 0) []
                  (encoded_string-Reads to_utf8 i.codepage none c.before_install u)))))))

-- The size of the entry, which is skipped.
abbrev pub store_size : Version → ℕ → List ℕ
store_size v size = store_if (not (at_least v 1 3 0)) (store32 size)

pub skip_entry_size-store :
    (v : Version) (size : ℕ) → size < 2 ^ 32 → Reads (skip_entry_size v) (store_size v size) tt
unfolding skip_entry_size
skip_entry_size-store v size h =
    Reads-give _ (field_if-Reads (not (at_least v 1 3 0)) 0 (load_u32-Reads size h))

pub path_text-store :
    (to_utf8 : Conversion) (i : Info) (s : List ℕ)
    → IsText s
    → Reads (path_text to_utf8 i) (store_string s) (to_utf8 i.codepage (some i.lead_bytes) s)
unfolding path_text
path_text-store to_utf8 i s h = encoded_string-Reads to_utf8 i.codepage (some i.lead_bytes) s h

-- `delete_entry` as it is stored: its size in old versions, and the number of its target type.
abbrev pub store_delete : Version → ℕ → ℕ → DeleteEntry → List ℕ
store_delete v size target d =
    store_size v size
    ++ (store_string d.name
        ++ (store_conditions v d.conditions ++ (store_range v d.winver ++ target ∷ [])))

-- A delete entry, written for a version of the setup data with the number of a target type, is read
-- whole, and as what that version keeps of it: its strings converted, and the target type with this
-- number, or `files` where there is none. The size of the entry and its fields fit their widths.
pub load_delete-store :
    (to_utf8 : Conversion) (i : Info) (d : DeleteEntry) (size target : ℕ)
    → size < 2 ^ 32
    → IsText d.name
    → AreTexts d.conditions
    → HasBuilds d.winver.first
    → HasBuilds d.winver.last
    → Reads (load_delete to_utf8 i) (store_delete i.version size target d) (record {
      name = to_utf8 i.codepage (some i.lead_bytes) d.name;
      conditions = kept_conditions to_utf8 i d.conditions;
      winver = kept_range i.version d.winver;
      target = get_or delete_target_type_map target files;
    })
unfolding load_delete
load_delete-store to_utf8 i d size target h n c first last =
    Reads->>= _ (skip_entry_size-store i.version size h) (
      Reads->>= _ (path_text-store to_utf8 i d.name n) (
        Reads->>= _ (load_condition_data-store to_utf8 i d.conditions c) (
          Reads->>= _ (load_version_range-store i.version d.winver first last)
            (Reads-give _ (stored_enum-Reads delete_target_type_map target files)))))

abbrev pub directory_options : Version → List DirectoryFlag
directory_options v = if at_least v 5 2 0 then directory_options_1 else directory_options_0

directory_options-Reads :
    (new wide : Bool) (flags : ℕ)
    → Reads
        (if new
          then stored_flags true directory_options_1
          else stored_flags wide directory_options_0)
        (flags ∷ [])
        (select flags 0 (if new then directory_options_1 else directory_options_0))
directory_options-Reads true wide flags = stored_flags-Reads true _ _ flags (omega arith)
directory_options-Reads false wide flags = stored_flags-Reads wide _ _ flags (omega arith)

abbrev pub has_permissions : Version → Bool
has_permissions v = at_least v 4 0 11 && not (at_least v 4 1 0)

-- `directory_entry` as it is stored: its size in old versions, and its flags as one byte.
abbrev pub store_directory : Version → ℕ → ℕ → DirectoryEntry → List ℕ
store_directory v size flags d =
    store_size v size
    ++ (store_string d.name
        ++ (store_conditions v d.conditions
            ++ (store_if (has_permissions v) (store_string d.permissions)
                ++ (store_if (at_least v 2 0 11) (store32 d.attributes)
                    ++ (store_range v d.winver
                        ++ (store_if (at_least v 4 1 0) (store16 d.permission) ++ flags ∷ []))))))

-- What a version keeps of the entry, its strings converted.
abbrev pub kept_directory : Conversion → Info → ℕ → DirectoryEntry → DirectoryEntry
kept_directory to_utf8 i flags d =
    let v = i.version in
    record {
      name = to_utf8 i.codepage (some i.lead_bytes) d.name;
      conditions = kept_conditions to_utf8 i d.conditions;
      permissions = if has_permissions v then d.permissions else [];
      attributes = if at_least v 2 0 11 then d.attributes else 0;
      winver = kept_range v d.winver;
      permission = if at_least v 4 1 0 then d.permission else 2 ^ 16 - 1;
      options = select flags 0 (directory_options v);
    }

-- The lengths and numbers of the entry fit what is stored of them.
abbrev pub FitsDirectory : DirectoryEntry → Type 0
FitsDirectory d =
    IsText d.name
    × AreTexts d.conditions
    × IsText d.permissions
    × (d.attributes < 2 ^ 32)
    × HasBuilds d.winver.first
    × HasBuilds d.winver.last
    × (d.permission < 2 ^ 16)

-- A directory entry, written for a version of the setup data with a byte of flags, is read whole, and
-- as what that version keeps of it: its strings converted, the flags as the options of that version
-- whose bits are set, and a default for each field that the version does not store. The size of the
-- entry and its fields fit their widths.
pub load_directory-store :
    (to_utf8 : Conversion) (i : Info) (d : DirectoryEntry) (size flags : ℕ)
    → size < 2 ^ 32
    → FitsDirectory d
    → Reads
        (load_directory to_utf8 i)
        (store_directory i.version size flags d)
        (kept_directory to_utf8 i flags d)
unfolding load_directory
load_directory-store to_utf8 i d size flags h (n, c, p, a, first, last, q) =
    let v = i.version in
    Reads->>= _ (skip_entry_size-store v size h) (
      Reads->>= _ (path_text-store to_utf8 i d.name n) (
        Reads->>= _ (load_condition_data-store to_utf8 i d.conditions c) (
          Reads->>= _ (field_if-Reads (has_permissions v) [] (binary_string-Reads d.permissions p))
            (Reads->>= _ (field_if-Reads (at_least v 2 0 11) 0 (load_u32-Reads d.attributes a)) (
              Reads->>= _ (load_version_range-store v d.winver first last) (
                Reads->>= _
                  (field_if-Reads (at_least v 4 1 0) (2 ^ 16 - 1) (load_u16-Reads d.permission q))
                  (Reads-give _
                    (directory_options-Reads (at_least v 5 2 0) (not (is_16_bit v)) flags))))))))
