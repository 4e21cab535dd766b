-- ===== src/Setup/Header/Kinds.antt =====
-- The enumerations of the header (src/setup/header.hpp, src/stream/chunk.hpp), and how versions
-- number them (src/setup/header.cpp).
use innoextract_wasm.Base.{List, [], ◌∷◌}

-- `stream::compression_method`
pub data CompressionMethod : Type 0 where
  stored : CompressionMethod
  zlib : CompressionMethod
  bzip2 : CompressionMethod
  lzma1 : CompressionMethod
  lzma2 : CompressionMethod
  unknown_compression : CompressionMethod

pub data Architecture : Type 0 where
  architecture_unknown : Architecture
  x86 : Architecture
  amd64 : Architecture
  ia64 : Architecture
  arm64 : Architecture

pub data PrivilegesRequiredOverride : Type 0 where
  commandline : PrivilegesRequiredOverride
  dialog : PrivilegesRequiredOverride

pub data Style : Type 0 where
  classic_style : Style
  modern_style : Style

pub data AlphaFormat : Type 0 where
  alpha_ignored : AlphaFormat
  alpha_defined : AlphaFormat
  alpha_premultiplied : AlphaFormat

pub data InstallVerbosity : Type 0 where
  normal_install_mode : InstallVerbosity
  silent_install_mode : InstallVerbosity
  very_silent_install_mode : InstallVerbosity

pub data LogMode : Type 0 where
  append_log : LogMode
  new_log : LogMode
  overwrite_log : LogMode

pub data AutoBool : Type 0 where
  is_auto : AutoBool
  is_no : AutoBool
  is_yes : AutoBool

pub data PrivilegeLevel : Type 0 where
  no_privileges : PrivilegeLevel
  power_user_privileges : PrivilegeLevel
  admin_priviliges : PrivilegeLevel
  lowest_privileges : PrivilegeLevel

pub data LanguageDetectionMethod : Type 0 where
  ui_language : LanguageDetectionMethod
  locale_language : LanguageDetectionMethod
  no_language_detection : LanguageDetectionMethod

abbrev pub stored_alpha_format : List AlphaFormat
stored_alpha_format = alpha_ignored ∷ alpha_defined ∷ alpha_premultiplied ∷ []

abbrev pub stored_install_verbosity : List InstallVerbosity
stored_install_verbosity = normal_install_mode ∷ silent_install_mode ∷ very_silent_install_mode ∷ []

abbrev pub stored_log_mode : List LogMode
stored_log_mode = append_log ∷ new_log ∷ overwrite_log ∷ []

abbrev pub stored_setup_style : List Style
stored_setup_style = classic_style ∷ modern_style ∷ []

abbrev pub stored_bool_auto_no_yes : List AutoBool
stored_bool_auto_no_yes = is_auto ∷ is_no ∷ is_yes ∷ []

abbrev pub stored_privileges_0 : List PrivilegeLevel
stored_privileges_0 = no_privileges ∷ power_user_privileges ∷ admin_priviliges ∷ []

abbrev pub stored_privileges_1 : List PrivilegeLevel
stored_privileges_1 =
    no_privileges ∷ power_user_privileges ∷ admin_priviliges ∷ lowest_privileges ∷ []

abbrev pub stored_bool_yes_no_auto : List AutoBool
stored_bool_yes_no_auto = is_yes ∷ is_no ∷ is_auto ∷ []

abbrev pub stored_language_detection_method : List LanguageDetectionMethod
stored_language_detection_method = ui_language ∷ locale_language ∷ no_language_detection ∷ []

abbrev pub stored_architectures_0 : List Architecture
stored_architectures_0 = architecture_unknown ∷ x86 ∷ amd64 ∷ ia64 ∷ []

abbrev pub stored_architectures_1 : List Architecture
stored_architectures_1 = architecture_unknown ∷ x86 ∷ amd64 ∷ ia64 ∷ arm64 ∷ []

abbrev pub stored_compression_method_0 : List CompressionMethod
stored_compression_method_0 = zlib ∷ bzip2 ∷ lzma1 ∷ []

abbrev pub stored_compression_method_1 : List CompressionMethod
stored_compression_method_1 = stored ∷ bzip2 ∷ lzma1 ∷ []

abbrev pub stored_compression_method_2 : List CompressionMethod
stored_compression_method_2 = stored ∷ zlib ∷ bzip2 ∷ lzma1 ∷ []

abbrev pub stored_compression_method_3 : List CompressionMethod
stored_compression_method_3 = stored ∷ zlib ∷ bzip2 ∷ lzma1 ∷ lzma2 ∷ []

abbrev pub stored_privileges_required_overrides : List PrivilegesRequiredOverride
stored_privileges_required_overrides = commandline ∷ dialog ∷ []
