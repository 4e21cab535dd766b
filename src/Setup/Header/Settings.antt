-- ===== src/Setup/Header/Settings.antt =====
-- The settings of the header between its counts and its options (src/setup/header.hpp,
-- src/setup/header.cpp).
use innoextract_wasm.Base.{
  ℕ, ◌+◌, ◌-◌, ◌^◌, Bool, true, not, ◌&&◌, ◌||◌, List, [], ◌∷◌, ◌++◌, ltb, ◌==◌, if◌then◌else◌,
}
use innoextract_wasm.Crypto.Checksum.{Checksum, crc32_sum, md5_sum, sha1_sum}
use innoextract_wasm.Setup.Load.{
  Reader, give, ◌>>=◌, field_if, read, load_u8, load_u32, load_u64, load_i32, stored_enum,
}
use innoextract_wasm.Setup.Load.Flags.{stored_flags}
use innoextract_wasm.Setup.Version.{Version, inno_version_ext, is_16_bit, is_isx, at_least}
use innoextract_wasm.Setup.Entry.{WindowsVersionRange, load_version_range}
use innoextract_wasm.Setup.Header.Kinds.{
  CompressionMethod, unknown_compression, Architecture, PrivilegesRequiredOverride, Style,
  classic_style, modern_style, AlphaFormat, alpha_ignored, InstallVerbosity, normal_install_mode,
  LogMode, append_log, new_log, AutoBool, is_auto, is_no, is_yes, PrivilegeLevel, no_privileges,
  LanguageDetectionMethod, ui_language, stored_alpha_format, stored_install_verbosity,
  stored_log_mode, stored_setup_style, stored_bool_auto_no_yes, stored_privileges_0,
  stored_privileges_1, stored_bool_yes_no_auto, stored_language_detection_method,
  stored_architectures_0, stored_architectures_1, stored_compression_method_0,
  stored_compression_method_1, stored_compression_method_2, stored_compression_method_3,
  stored_privileges_required_overrides,
}
use innoextract_wasm.Setup.Header.Options.{HeaderFlag, always_restart, restart_if_needed_by_run}

-- The sizes of the texts that the oldest versions store at the end.
pub record OldSizes : Type 0 where
  pub license_size : ℕ
  pub info_before_size : ℕ
  pub info_after_size : ℕ

-- `restarts` are the options that versions 3.0.0 to 3.0.2 store as a value of their own.
pub record HeaderSettings : Type 0 where
  pub winver : WindowsVersionRange
  pub back_color : ℕ
  pub back_color2 : ℕ
  pub image_back_color : ℕ
  pub small_image_back_color : ℕ
  pub wizard_style : Style
  pub wizard_resize_percent_x : ℕ
  pub wizard_resize_percent_y : ℕ
  pub image_alpha_format : AlphaFormat
  pub password : Checksum
  pub password_salt : List ℕ
  pub extra_disk_space_required : ℕ
  pub slices_per_disk : ℕ
  pub install_mode : InstallVerbosity
  pub uninstall_log_mode : LogMode
  pub uninstall_style : Style
  pub dir_exists_warning : AutoBool
  pub restarts : List HeaderFlag
  pub privileges_required : PrivilegeLevel
  pub privileges_required_override_allowed : List PrivilegesRequiredOverride
  pub show_language_dialog : AutoBool
  pub language_detection : LanguageDetectionMethod
  pub compression : CompressionMethod
  pub architectures_allowed : List Architecture
  pub architectures_installed_in_64bit_mode : List Architecture
  pub signed_uninstaller_original_size : ℕ
  pub signed_uninstaller_header_checksum : ℕ
  pub disable_dir_page : AutoBool
  pub disable_program_group_page : AutoBool
  pub uninstall_display_size : ℕ

unfoldable pub load_old_sizes : Version → Reader OldSizes
load_old_sizes v = do
  let size = field_if (not (at_least v 1 3 0)) (load_i32 (is_16_bit v)) 0
  license ← size
  before ← size
  after ← size
  give (record { license_size = license; info_before_size = before; info_after_size = after })

unfoldable pub load_password : Version → Reader Checksum
load_password v =
    if not (at_least v 4 2 0)
    then (do crc ← load_u32; give (crc32_sum crc))
    else if not (at_least v 5 3 9)
    then (do bytes ← read 16; give (md5_sum bytes))
    else (do bytes ← read 20; give (sha1_sum bytes))

-- "PasswordCheckHash"
abbrev pub password_check_hash : List ℕ
password_check_hash =
    80 ∷ 97 ∷ 115 ∷ 115 ∷ 119 ∷ 111 ∷ 114 ∷ 100 ∷ 67 ∷ 104 ∷ 101 ∷ 99 ∷ 107 ∷ 72 ∷ 97 ∷ 115 ∷ 104
    ∷ []

unfoldable pub load_salt : Version → Reader (List ℕ)
load_salt v = field_if (at_least v 4 2 2) (do salt ← read 8; give (password_check_hash ++ salt)) []

-- A negative number of 32 bits is extended to 64.
unfoldable pub load_disk_space : Version → Reader ℕ
load_disk_space v =
    if at_least v 4 0 0
    then load_u64
    else (do x ← load_u32; give (if ltb x (2 ^ 31) then x else x + 2 ^ 64 - 2 ^ 32))

unfoldable pub load_uninstall_style : Version → Reader Style
load_uninstall_style v =
    if at_least v 5 0 0
    then give modern_style
    else field_if (at_least v 2 0 0 || (is_isx v && at_least v 1 3 13))
        (stored_enum stored_setup_style classic_style) classic_style

abbrev pub restart_flags : AutoBool → List HeaderFlag
restart_flags is_yes = always_restart ∷ []
restart_flags is_auto = restart_if_needed_by_run ∷ []
restart_flags is_no = []

unfoldable pub load_restarts : Version → Reader (List HeaderFlag)
load_restarts v =
    field_if (at_least v 3 0 0 && not (at_least v 3 0 3))
      (do val ← stored_enum stored_bool_auto_no_yes is_auto; give (restart_flags val)) []

-- What is not stored is set behind the options.
unfoldable pub load_privileges : Version → Reader PrivilegeLevel
load_privileges v =
    if at_least v 5 3 7
    then stored_enum stored_privileges_1 no_privileges
    else field_if (at_least v 3 0 4 || (is_isx v && at_least v 3 0 3))
        (stored_enum stored_privileges_0 no_privileges) no_privileges

unfoldable pub load_compression : Version → Reader CompressionMethod
load_compression v =
    if at_least v 5 3 9
    then stored_enum stored_compression_method_3 unknown_compression
    else if at_least v 4 2 6
    then stored_enum stored_compression_method_2 unknown_compression
    else if at_least v 4 2 5
    then stored_enum stored_compression_method_1 unknown_compression
    else field_if (at_least v 4 1 5) (stored_enum stored_compression_method_0 unknown_compression)
        unknown_compression

unfoldable pub load_architectures : Version → Reader (List Architecture)
load_architectures v =
    if at_least v 5 6 0
    then stored_flags true stored_architectures_1
    else field_if (at_least v 5 1 0) (stored_flags true stored_architectures_0)
        stored_architectures_1

unfoldable pub load_display_size : Version → Reader ℕ
load_display_size v = if at_least v 5 5 0 then load_u64 else field_if (at_least v 5 3 6) load_u32 0

-- The versions that share their number with a variant that stores one byte more.
abbrev pub has_extra_byte : Version → Bool
has_extra_byte v =
    v.value == inno_version_ext 5 3 10 1
    || v.value == inno_version_ext 5 4 2 1
    || v.value == inno_version_ext 5 5 0 1

-- The part of `header::load` between the counts and the options.
unfoldable pub load_settings : Version → Reader HeaderSettings
load_settings v = do
  winver ← load_version_range v
  back_color ← load_u32
  back_color2 ← field_if (at_least v 1 3 3) load_u32 0
  image_back_color ← field_if (not (at_least v 5 5 7)) load_u32 0
  small_image ← field_if ((at_least v 2 0 0 && not (at_least v 5 0 4)) || is_isx v) load_u32 0
  style ← field_if (at_least v 6 0 0) (stored_enum stored_setup_style classic_style) classic_style
  percent_x ← field_if (at_least v 6 0 0) load_u32 0
  percent_y ← field_if (at_least v 6 0 0) load_u32 0
  alpha ← field_if (at_least v 5 5 7) (stored_enum stored_alpha_format alpha_ignored) alpha_ignored
  password ← load_password v
  salt ← load_salt v
  disk_space ← load_disk_space v
  slices ← field_if (at_least v 4 0 0) load_u32 1
  mode ←
      field_if ((at_least v 2 0 0 && not (at_least v 5 0 0)) || (is_isx v && at_least v 1 3 4))
        (stored_enum stored_install_verbosity normal_install_mode) normal_install_mode
  log ← field_if (at_least v 1 3 0) (stored_enum stored_log_mode append_log) new_log
  uninstall_style ← load_uninstall_style v
  warning ← field_if (at_least v 1 3 6) (stored_enum stored_bool_auto_no_yes is_auto) is_auto
  code_line_offset ← field_if (is_isx v && at_least v 2 0 10 && not (at_least v 3 0 0)) load_u32 0
  restarts ← load_restarts v
  privileges ← load_privileges v
  overrides ←
      field_if (at_least v 5 7 0) (stored_flags true stored_privileges_required_overrides) []
  language_dialog ← field_if (at_least v 4 0 10) (stored_enum stored_bool_yes_no_auto is_yes) is_yes
  detection ←
      field_if (at_least v 4 0 10) (stored_enum stored_language_detection_method ui_language)
        ui_language
  compression ← load_compression v
  allowed ← load_architectures v
  in_64bit_mode ← load_architectures v
  original_size ← field_if (at_least v 5 2 1 && not (at_least v 5 3 10)) load_u32 0
  header_checksum ← field_if (at_least v 5 2 1 && not (at_least v 5 3 10)) load_u32 0
  dir_page ← field_if (at_least v 5 3 3) (stored_enum stored_bool_auto_no_yes is_auto) is_auto
  group_page ← field_if (at_least v 5 3 3) (stored_enum stored_bool_auto_no_yes is_auto) is_auto
  display_size ← load_display_size v
  extra ← field_if (has_extra_byte v) load_u8 0
  give (record {
    winver = winver;
    back_color = back_color;
    back_color2 = back_color2;
    image_back_color = image_back_color;
    small_image_back_color = small_image;
    wizard_style = style;
    wizard_resize_percent_x = percent_x;
    wizard_resize_percent_y = percent_y;
    image_alpha_format = alpha;
    password = password;
    password_salt = salt;
    extra_disk_space_required = disk_space;
    slices_per_disk = slices;
    install_mode = mode;
    uninstall_log_mode = log;
    uninstall_style = uninstall_style;
    dir_exists_warning = warning;
    restarts = restarts;
    privileges_required = privileges;
    privileges_required_override_allowed = overrides;
    show_language_dialog = language_dialog;
    language_detection = detection;
    compression = compression;
    architectures_allowed = allowed;
    architectures_installed_in_64bit_mode = in_64bit_mode;
    signed_uninstaller_original_size = original_size;
    signed_uninstaller_header_checksum = header_checksum;
    disable_dir_page = dir_page;
    disable_program_group_page = group_page;
    uninstall_display_size = display_size;
  })
