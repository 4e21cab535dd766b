-- ===== src/Setup/Entry/Registry.antt =====
-- Registry entries (src/setup/registry.cpp, src/setup/registry.hpp).
use innoextract_wasm.Base.{ℕ, ◌^◌, ◌%◌, ◌-◌, true, not, ◌&&◌, List, [], ◌∷◌, ◌++◌, if◌then◌else◌}
use innoextract_wasm.Setup.Load.{
  Reader, give, ◌>>=◌, ◌>>◌, field_if, load_u32, load_i32, binary_string, stored_enum, Conversion,
}
use innoextract_wasm.Setup.Load.Flags.{flag_reader, flag_if}
use innoextract_wasm.Setup.Version.{Version, is_16_bit, at_least}
use innoextract_wasm.Setup.Entry.{
  Info, Conditions, WindowsVersionRange, load_condition_data, load_version_range, skip_entry_size,
  text, path_text,
}

pub data RegistryFlag : Type 0 where
  create_value_if_doesnt_exist : RegistryFlag
  unins_delete_value : RegistryFlag
  unins_clear_value : RegistryFlag
  unins_delete_entire_key : RegistryFlag
  unins_delete_entire_key_if_empty : RegistryFlag
  preserve_string_type : RegistryFlag
  delete_key : RegistryFlag
  delete_value : RegistryFlag
  no_error : RegistryFlag
  dont_create_key : RegistryFlag
  bits32 : RegistryFlag
  bits64 : RegistryFlag

pub data ValueType : Type 0 where
  no_value : ValueType
  string : ValueType
  expand_string : ValueType
  dword : ValueType
  binary : ValueType
  multi_string : ValueType
  qword : ValueType

-- `hive` holds the number of a `hive_name`, which is not checked where it is read.
pub record RegistryEntry : Type 0 where
  pub key : List ℕ
  pub name : List ℕ
  pub value : List ℕ
  pub conditions : Conditions
  pub permissions : List ℕ
  pub winver : WindowsVersionRange
  pub hive : ℕ
  pub permission : ℕ
  pub value_type : ValueType
  pub options : List RegistryFlag

-- `hive_name::Unset`
abbrev pub hive_unset : ℕ
hive_unset = 7

-- 16-bit
abbrev pub entry_type_0 : List ValueType
entry_type_0 = no_value ∷ string ∷ []

abbrev pub entry_type_1 : List ValueType
entry_type_1 = entry_type_0 ++ expand_string ∷ dword ∷ binary ∷ multi_string ∷ []

-- starting with version 5.2.5
abbrev pub entry_type_2 : List ValueType
entry_type_2 = entry_type_1 ++ qword ∷ []

abbrev pub value_types : Version → List ValueType
value_types v =
    if at_least v 5 2 5 then entry_type_2 else if is_16_bit v then entry_type_0 else entry_type_1

-- The flags that are added to the reader.
abbrev pub registry_flags : Version → List RegistryFlag
registry_flags v =
    flag_if (not (is_16_bit v)) create_value_if_doesnt_exist
    ++ flag_if (not (is_16_bit v)) unins_delete_value
    ++ unins_clear_value ∷ unins_delete_entire_key ∷ unins_delete_entire_key_if_empty ∷ []
    ++ flag_if (at_least v 1 2 6) preserve_string_type
    ++ flag_if (at_least v 1 3 9) delete_key
    ++ flag_if (at_least v 1 3 9) delete_value
    ++ flag_if (at_least v 1 3 12) no_error
    ++ flag_if (at_least v 1 3 16) dont_create_key
    ++ flag_if (at_least v 5 1 0) bits32
    ++ flag_if (at_least v 5 1 0) bits64

-- `& ~0x80000000` clears the highest bit.
unfoldable pub load_hive : Reader ℕ
load_hive = do n ← load_u32; give (n % 2 ^ 31)

-- -1 is `2 ^ 32 - 1`; a stored permission of 16 bits is extended to 32.
unfoldable pub load_permission_index : Reader ℕ
load_permission_index = load_i32 true

unfoldable pub load_registry : Conversion → Info → Reader RegistryEntry
load_registry to_utf8 i = do
  let v = i.version
  skip_entry_size v
  key ← path_text to_utf8 i
  name ← field_if (not (is_16_bit v)) (text to_utf8 i) []
  value ← binary_string
  conditions ← load_condition_data to_utf8 i
  permissions ← field_if (at_least v 4 0 11 && not (at_least v 4 1 0)) binary_string []
  winver ← load_version_range v
  hive ← field_if (not (is_16_bit v)) load_hive hive_unset
  permission ← field_if (at_least v 4 1 0) load_permission_index (2 ^ 32 - 1)
  kind ← stored_enum (value_types v) no_value
  options ← flag_reader (not (is_16_bit v)) (registry_flags v)
  give (record {
    key = key;
    name = name;
    value = value;
    conditions = conditions;
    permissions = permissions;
    winver = winver;
    hive = hive;
    permission = permission;
    value_type = kind;
    options = options;
  })
