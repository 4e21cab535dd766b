-- ===== src/Setup/Entry/Run.antt =====
-- Programs to run (src/setup/run.cpp, src/setup/run.hpp).
use innoextract_wasm.Base.{ℕ, not, ◌&&◌, ◌||◌, List, [], ◌∷◌, ◌++◌}
use innoextract_wasm.Setup.Load.{
  Reader, give, ◌>>=◌, ◌>>◌, field_if, load_u32, stored_enum, Conversion,
}
use innoextract_wasm.Setup.Load.Flags.{flag_reader, flag_if}
use innoextract_wasm.Setup.Version.{Version, is_16_bit, is_isx, at_least}
use innoextract_wasm.Setup.Entry.{
  Info, Conditions, WindowsVersionRange, load_condition_data, load_version_range, skip_entry_size,
  text, path_text,
}

pub data RunFlag : Type 0 where
  shell_exec : RunFlag
  skip_if_doesnt_exist : RunFlag
  post_install : RunFlag
  unchecked : RunFlag
  skip_if_silent : RunFlag
  skip_if_not_silent : RunFlag
  hide_wizard : RunFlag
  bits32 : RunFlag
  bits64 : RunFlag
  run_as_original_user : RunFlag
  dont_log_parameters : RunFlag

pub data WaitCondition : Type 0 where
  wait_until_terminated : WaitCondition
  no_wait : WaitCondition
  wait_until_idle : WaitCondition

-- The description is not stored by the oldest versions; `load` then leaves it as it is.
pub record RunEntry : Type 0 where
  pub name : List ℕ
  pub parameters : List ℕ
  pub working_dir : List ℕ
  pub run_once_id : List ℕ
  pub status_message : List ℕ
  pub verb : List ℕ
  pub description : List ℕ
  pub conditions : Conditions
  pub winver : WindowsVersionRange
  pub show_command : ℕ
  pub wait : WaitCondition
  pub options : List RunFlag

abbrev pub stored_run_wait_condition : List WaitCondition
stored_run_wait_condition = wait_until_terminated ∷ no_wait ∷ wait_until_idle ∷ []

-- The flags that are added to the reader.
abbrev pub run_flags : Version → List RunFlag
run_flags v =
    flag_if (at_least v 1 2 3) shell_exec
    ++ flag_if (at_least v 1 3 9 || is_isx v && at_least v 1 3 8) skip_if_doesnt_exist
    ++ flag_if (at_least v 2 0 0) post_install
    ++ flag_if (at_least v 2 0 0) unchecked
    ++ flag_if (at_least v 2 0 0) skip_if_silent
    ++ flag_if (at_least v 2 0 0) skip_if_not_silent
    ++ flag_if (at_least v 2 0 8) hide_wizard
    ++ flag_if (at_least v 5 1 10) bits32
    ++ flag_if (at_least v 5 1 10) bits64
    ++ flag_if (at_least v 5 2 0) run_as_original_user
    ++ flag_if (at_least v 6 1 0) dont_log_parameters

-- The entry is read into an object whose description was `old_description`.
unfoldable pub load_run : Conversion → Info → List ℕ → Reader RunEntry
load_run to_utf8 i old_description = do
  let v = i.version
  skip_entry_size v
  name ← path_text to_utf8 i
  parameters ← path_text to_utf8 i
  working_dir ← path_text to_utf8 i
  run_once_id ← field_if (at_least v 1 3 9) (text to_utf8 i) []
  status_message ← field_if (at_least v 2 0 2) (text to_utf8 i) []
  verb ← field_if (at_least v 5 1 13) (text to_utf8 i) []
  description ← field_if (at_least v 2 0 0 || is_isx v) (text to_utf8 i) old_description
  conditions ← load_condition_data to_utf8 i
  winver ← load_version_range v
  show ← field_if (at_least v 1 3 24) load_u32 0
  wait ← stored_enum stored_run_wait_condition wait_until_terminated
  options ← flag_reader (not (is_16_bit v)) (run_flags v)
  give (record {
    name = name;
    parameters = parameters;
    working_dir = working_dir;
    run_once_id = run_once_id;
    status_message = status_message;
    verb = verb;
    description = description;
    conditions = conditions;
    winver = winver;
    show_command = show;
    wait = wait;
    options = options;
  })
