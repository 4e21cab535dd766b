-- ===== src/Setup/Entry/Tests.antt =====
-- The theorems on entries at concrete inputs.
use innoextract_wasm.Base.{◌≡◌, [], ◌∷◌, true, some, get_or, arith}
use innoextract_wasm.Setup.Load.{Conversion}
use innoextract_wasm.Setup.Load.Codec.{Reads}
use innoextract_wasm.Setup.Version.{unicode_only, inno_version}
use innoextract_wasm.Setup.Entry.{Info, WindowsVersion, WindowsVersionRange, Conditions}
use innoextract_wasm.Setup.Entry.Stored.{kept_range}
use innoextract_wasm.Setup.Entry.Written.{
  store_directory, kept_directory, load_directory-store, store_delete, kept_conditions,
  load_delete-store,
}
use innoextract_wasm.Setup.Entry.Directory.{DirectoryEntry, never_uninstall, load_directory}
use innoextract_wasm.Setup.Entry.Codepages.{languages}
use innoextract_wasm.Setup.Entry.Languages.{default_codepage_for_language}
use innoextract_wasm.Setup.Entry.Languages.Lookup.{exact_codepage, default_codepage-exact}
use innoextract_wasm.Setup.Entry.Delete.{DeleteEntry, files, delete_target_type_map, load_delete}

default_codepage-exact_example :
    default_codepage_for_language 0x0415 ≡ exact_codepage languages 0x0415
default_codepage-exact_example = default_codepage-exact 0x0415

-- A conversion that keeps the bytes.
abbrev same : Conversion
same codepage lead_bytes s = s

abbrev setup_info : Info
setup_info = record {
  version = record { value = inno_version 5 5 0; variant = unicode_only; known = true };
  codepage = 1200;
  lead_bytes = [];
  codepages = [];
}

abbrev windows : WindowsVersion
windows = record {
  win_version = record { major = 4; minor = 1; build = 1998 };
  nt_version = record { major = 5; minor = 0; build = 2195 };
  nt_service_pack = record { major = 1; minor = 2 };
}

abbrev range : WindowsVersionRange
range = record { first = windows; last = windows }

abbrev texts : Conditions
texts = record {
  components = b'c' ∷ [];
  tasks = [];
  languages = [];
  check = [];
  after_install = [];
  before_install = [];
}

abbrev directory : DirectoryEntry
directory = record {
  name = b'd' ∷ [];
  conditions = texts;
  permissions = [];
  attributes = 16;
  winver = range;
  permission = 7;
  options = never_uninstall ∷ [];
}

abbrev deletion : DeleteEntry
deletion = record { name = b'd' ∷ []; conditions = texts; winver = range; target = files }

load_directory-store_example :
    Reads
      (load_directory same setup_info)
      (store_directory setup_info.version 100 9 directory)
      (kept_directory same setup_info 9 directory)
load_directory-store_example = load_directory-store same setup_info directory 100 9 (omega arith) (
  omega arith,
  (omega arith, omega arith, omega arith, omega arith, omega arith, omega arith),
  omega arith,
  omega arith,
  (omega arith, omega arith),
  (omega arith, omega arith),
  omega arith,
)

load_delete-store_example :
    Reads (load_delete same setup_info) (store_delete setup_info.version 100 2 deletion) (record {
      name = same setup_info.codepage (some setup_info.lead_bytes) deletion.name;
      conditions = kept_conditions same setup_info deletion.conditions;
      winver = kept_range setup_info.version deletion.winver;
      target = get_or delete_target_type_map 2 files;
    })
load_delete-store_example =
    load_delete-store same setup_info deletion 100 2 (omega arith) (omega arith)
      (omega arith, omega arith, omega arith, omega arith, omega arith, omega arith)
      (omega arith, omega arith) (omega arith, omega arith)
