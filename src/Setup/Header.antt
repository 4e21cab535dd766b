-- ===== src/Setup/Header.antt =====
-- The header of the setup data (src/setup/header.hpp, src/setup/header.cpp).
pub mod Kinds
pub mod Options
pub mod Texts
pub mod Counts
pub mod Settings
pub mod Counted
pub mod Stored
pub mod Written
pub mod Tests
use innoextract_wasm.Base.{ℕ, ◌^◌, not, ◌&&◌, List, [], ◌∷◌, ◌++◌, none, ltb, if◌then◌else◌}
use innoextract_wasm.Setup.Load.{Reader, give, ◌>>=◌, ◌>>◌, field_if, read, load_u32, Conversion}
use innoextract_wasm.Setup.Load.Flags.{flag_reader, flag_if, stored_char_set}
use innoextract_wasm.Setup.Version.{Version, is_16_bit, at_least}
use innoextract_wasm.Setup.Header.Kinds.{
  zlib, bzip2, is_no, is_yes, no_privileges, admin_priviliges, ui_language, locale_language,
}
use innoextract_wasm.Setup.Header.Options.{
  HeaderFlag, has, header_flags, allow_cancel_during_install, allow_network_drive,
  admin_privileges_required, show_language_dialog, detect_language_using_locale, bzip_used,
  disable_dir_page, disable_program_group_page,
}
use innoextract_wasm.Setup.Header.Texts
use innoextract_wasm.Setup.Header.Texts.{HeaderTexts, load_texts}
use innoextract_wasm.Setup.Header.Counts.{EntryCounts, load_counts}
use innoextract_wasm.Setup.Header.Settings.{OldSizes, HeaderSettings, load_old_sizes, load_settings}

pub record Header : Type 0 where
  pub texts : HeaderTexts
  pub lead_bytes : List ℕ
  pub counts : EntryCounts
  pub settings : HeaderSettings
  pub options : List HeaderFlag

-- `options`: what the settings imply, what is set for versions that do not store it, and what the
-- flag reader finds.
abbrev pub implied : Version → List HeaderFlag
implied v =
    flag_if (not (at_least v 4 0 9)) allow_cancel_during_install
    ++ flag_if (not (at_least v 5 5 0)) allow_network_drive

-- HeaderSettings that older versions store as options.
pub derive : Version → List HeaderFlag → HeaderSettings → HeaderSettings
derive v options s = record s {
  privileges_required =
      if not (at_least v 3 0 4)
      then (if has admin_privileges_required options then admin_priviliges else no_privileges)
      else s.privileges_required;
  show_language_dialog =
      if not (at_least v 4 0 10)
      then (if has show_language_dialog options then is_yes else is_no)
      else s.show_language_dialog;
  language_detection =
      if not (at_least v 4 0 10)
      then (if has detect_language_using_locale options then locale_language else ui_language)
      else s.language_detection;
  compression =
      if not (at_least v 4 1 5)
      then (if has bzip_used options then bzip2 else zlib)
      else s.compression;
  disable_dir_page =
      if not (at_least v 5 3 3)
      then (if has disable_dir_page options then is_yes else is_no)
      else s.disable_dir_page;
  disable_program_group_page =
      if not (at_least v 5 3 3)
      then (if has disable_program_group_page options then is_yes else is_no)
      else s.disable_program_group_page;
}

-- One of the texts at the end, of a signed size: `otherwise` where this is not positive.
unfoldable pub load_old_text : Conversion → ℕ → List ℕ → Reader (List ℕ)
load_old_text to_utf8 size otherwise =
    field_if (ltb 0 size && ltb size (2 ^ 31)) (do s ← read size; give (to_utf8 1252 none s))
      otherwise

-- `header::load`; the sizes are 0 from version 1.3.0 on.
unfoldable pub load_header : Conversion → Version → Reader Header
load_header to_utf8 v = do
  uncompressed_size ← field_if (not (at_least v 1 3 0)) load_u32 0
  texts ← load_texts to_utf8 v
  lead_bytes ← field_if (at_least v 2 0 6 && not v.variant.unicode) stored_char_set []
  counts ← load_counts v
  sizes ← load_old_sizes v
  settings ← load_settings v
  stored_options ← flag_reader (not (is_16_bit v)) (header_flags v)
  license ← load_old_text to_utf8 sizes.license_size texts.license_text
  before ← load_old_text to_utf8 sizes.info_before_size texts.info_before
  after ← load_old_text to_utf8 sizes.info_after_size texts.info_after
  let options = settings.restarts ++ implied v ++ stored_options
  give (record {
    texts = record texts { license_text = license; info_before = before; info_after = after };
    lead_bytes = lead_bytes;
    counts = counts;
    settings = derive v options settings;
    options = options;
  })
