-- ===== src/Setup/Entry/Task.antt =====
-- Setup tasks (src/setup/task.cpp, src/setup/task.hpp).
use innoextract_wasm.Base.{ℕ, Bool, true, ◌&&◌, ◌||◌, List, [], ◌∷◌, ◌++◌}
use innoextract_wasm.Setup.Load.{Reader, give, ◌>>=◌, field_if, load_u32, load_bool, Conversion}
use innoextract_wasm.Setup.Load.Flags.{flag_reader, flag_if}
use innoextract_wasm.Setup.Version.{Version, is_isx, at_least}
use innoextract_wasm.Setup.Entry.{Info, WindowsVersionRange, load_version_range, text}

pub data TaskFlag : Type 0 where
  exclusive : TaskFlag
  unchecked : TaskFlag
  restart : TaskFlag
  checked_once : TaskFlag
  dont_inherit_check : TaskFlag

pub record TaskEntry : Type 0 where
  pub name : List ℕ
  pub description : List ℕ
  pub group_description : List ℕ
  pub components : List ℕ
  pub languages : List ℕ
  pub check : List ℕ
  pub level : ℕ
  pub used : Bool
  pub winver : WindowsVersionRange
  pub options : List TaskFlag

-- The flags that are added to the reader.
abbrev pub task_flags : Version → List TaskFlag
task_flags v =
    exclusive ∷ unchecked ∷ []
    ++ flag_if (at_least v 2 0 5) restart
    ++ flag_if (at_least v 2 0 6) checked_once
    ++ flag_if (at_least v 4 2 3) dont_inherit_check

unfoldable pub load_task : Conversion → Info → Reader TaskEntry
load_task to_utf8 i = do
  let v = i.version
  name ← text to_utf8 i
  description ← text to_utf8 i
  group ← text to_utf8 i
  components ← text to_utf8 i
  languages ← field_if (at_least v 4 0 1) (text to_utf8 i) []
  check ← field_if (at_least v 4 0 0 || is_isx v && at_least v 1 3 24) (text to_utf8 i) []
  level ← field_if (at_least v 4 0 0 || is_isx v && at_least v 3 0 3) load_u32 0
  used ← field_if (at_least v 4 0 0 || is_isx v && at_least v 3 0 4) load_bool true
  winver ← load_version_range v
  options ← flag_reader true (task_flags v)
  give (record {
    name = name;
    description = description;
    group_description = group;
    components = components;
    languages = languages;
    check = check;
    level = level;
    used = used;
    winver = winver;
    options = options;
  })
