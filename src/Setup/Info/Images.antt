-- ===== src/Setup/Info/Images.antt =====
-- The images and libraries among the entries, and which entries are wanted (src/setup/info.hpp,
-- src/setup/info.cpp).
use innoextract_wasm.Base.{
  ℕ, zero, suc, Bool, true, false, not, ◌&&◌, ◌||◌, List, [], ◌∷◌, ◌==◌, if◌then◌else◌,
}
use innoextract_wasm.Setup.Load.{
  Reader, give, ◌>>=◌, field_if, load_u32, binary_string, skip_string,
}
use innoextract_wasm.Setup.Load.Flags.{contains}
use innoextract_wasm.Setup.Version.{Version, inno_version, is_isx, at_least}
use innoextract_wasm.Setup.Header.Kinds.{
  CompressionMethod, stored, zlib, bzip2, lzma1, lzma2, unknown_compression,
}

-- `info::entry_types`
pub data EntryType : Type 0 where
  components : EntryType
  data_entries : EntryType
  delete_entries : EntryType
  uninstall_delete_entries : EntryType
  directories : EntryType
  files : EntryType
  icons : EntryType
  ini_entries : EntryType
  languages : EntryType
  messages : EntryType
  permissions : EntryType
  registry_entries : EntryType
  run_entries : EntryType
  uninstall_run_entries : EntryType
  tasks : EntryType
  types : EntryType
  wizard_images : EntryType
  decompressor_dll : EntryType
  decrypt_dll : EntryType
  no_skip : EntryType
  no_unknown_version : EntryType

-- The place of a type in the enumeration.
unfoldable pub entry_type_index : EntryType → ℕ
entry_type_index components = 0
entry_type_index data_entries = 1
entry_type_index delete_entries = 2
entry_type_index uninstall_delete_entries = 3
entry_type_index directories = 4
entry_type_index files = 5
entry_type_index icons = 6
entry_type_index ini_entries = 7
entry_type_index languages = 8
entry_type_index messages = 9
entry_type_index permissions = 10
entry_type_index registry_entries = 11
entry_type_index run_entries = 12
entry_type_index uninstall_run_entries = 13
entry_type_index tasks = 14
entry_type_index types = 15
entry_type_index wizard_images = 16
entry_type_index decompressor_dll = 17
entry_type_index decrypt_dll = 18
entry_type_index no_skip = 19
entry_type_index no_unknown_version = 20

-- `entries & entry_type`
unfoldable pub wants : EntryType → List EntryType → Bool
wants = contains entry_type_index

-- A string, or nothing where it is skipped.
unfoldable pub string_or_skip : Bool → Reader (List ℕ)
string_or_skip true = binary_string
string_or_skip false = do skipped ← skip_string; give []

-- The loops of `load_wizard_images`: the images, or nothing where they are skipped.
unfoldable pub load_images : Bool → ℕ → Reader (List (List ℕ))
load_images wanted zero = give []
load_images wanted (suc n) = do
  image ← string_or_skip wanted
  images ← load_images wanted n
  give (if wanted then image ∷ images else [])

-- `images[0].empty()`
abbrev pub first_empty : List (List ℕ) → Bool
first_empty ([] ∷ images) = true
first_empty images = false

unfoldable pub load_wizard_images : Version → Bool → Reader (List (List ℕ))
load_wizard_images v wanted = do
  count ← field_if (at_least v 5 6 0) load_u32 1
  images ← load_images wanted count
  give (if not (at_least v 5 6 0) && first_empty images then [] else images)

pub record InstallerImages : Type 0 where
  pub wizard_images : List (List ℕ)
  pub wizard_images_small : List (List ℕ)
  pub decompressor_dll : List ℕ
  pub decrypt_dll : List ℕ

abbrev pub no_images : InstallerImages
no_images = record {
  wizard_images = [];
  wizard_images_small = [];
  decompressor_dll = [];
  decrypt_dll = [];
}

-- Which compression methods come with a library.
pub has_decompressor : Version → CompressionMethod → Bool
has_decompressor v stored = false
has_decompressor v zlib = at_least v 4 2 6
has_decompressor v bzip2 = true
has_decompressor v lzma1 = v.value == inno_version 4 1 5
has_decompressor v lzma2 = false
has_decompressor v unknown_compression = false

-- `load_wizard_and_decompressor`, for the compression method and the encryption that the header
-- names.
unfoldable pub load_wizard_and_decompressor :
    Version → CompressionMethod → Bool → List EntryType → Reader InstallerImages
load_wizard_and_decompressor v compression encrypted entries = do
  let wants_images = wants wizard_images entries || wants no_skip entries
  images ← load_wizard_images v wants_images
  small ← field_if (at_least v 2 0 0 || is_isx v) (load_wizard_images v wants_images) []
  decompressor ←
      field_if (has_decompressor v compression)
        (string_or_skip (wants decompressor_dll entries || wants no_skip entries)) []
  decrypt ←
      field_if encrypted (string_or_skip (wants decrypt_dll entries || wants no_skip entries)) []
  give (record {
    wizard_images = images;
    wizard_images_small = small;
    decompressor_dll = decompressor;
    decrypt_dll = decrypt;
  })
