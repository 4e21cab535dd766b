-- ===== src/Setup/Header/Options.antt =====
-- The options of the header and the versions that store them (src/setup/header.hpp,
-- src/setup/header.cpp).
use innoextract_wasm.Base.{ℕ, Bool, not, ◌&&◌, ◌||◌, List, [], ◌∷◌, ◌++◌}
use innoextract_wasm.Setup.Load.Flags.{flag_if, contains}
use innoextract_wasm.Setup.Version.{Version, is_16_bit, is_isx, at_least}

-- `header::flags`
pub data HeaderFlag : Type 0 where
  disable_startup_prompt : HeaderFlag
  create_app_dir : HeaderFlag
  allow_no_icons : HeaderFlag
  always_restart : HeaderFlag
  always_use_personal_group : HeaderFlag
  window_visible : HeaderFlag
  window_show_caption : HeaderFlag
  window_resizable : HeaderFlag
  window_start_maximized : HeaderFlag
  enable_dir_doesnt_exist_warning : HeaderFlag
  password_flag : HeaderFlag
  allow_root_directory : HeaderFlag
  disable_finished_page : HeaderFlag
  changes_associations : HeaderFlag
  use_previous_app_dir : HeaderFlag
  back_color_horizontal : HeaderFlag
  use_previous_group : HeaderFlag
  update_uninstall_log_app_name : HeaderFlag
  use_previous_setup_type : HeaderFlag
  disable_ready_memo : HeaderFlag
  always_show_components_list : HeaderFlag
  flat_components_list : HeaderFlag
  show_component_sizes : HeaderFlag
  use_previous_tasks : HeaderFlag
  disable_ready_page : HeaderFlag
  always_show_dir_on_ready_page : HeaderFlag
  always_show_group_on_ready_page : HeaderFlag
  allow_unc_path : HeaderFlag
  user_info_page : HeaderFlag
  use_previous_user_info : HeaderFlag
  uninstall_restart_computer : HeaderFlag
  restart_if_needed_by_run : HeaderFlag
  show_tasks_tree_lines : HeaderFlag
  allow_cancel_during_install : HeaderFlag
  wizard_image_stretch : HeaderFlag
  append_default_dir_name : HeaderFlag
  append_default_group_name : HeaderFlag
  encryption_used : HeaderFlag
  changes_environment : HeaderFlag
  show_undisplayable_languages : HeaderFlag
  setup_logging : HeaderFlag
  signed_uninstaller : HeaderFlag
  use_previous_language : HeaderFlag
  disable_welcome_page : HeaderFlag
  close_applications : HeaderFlag
  restart_applications : HeaderFlag
  allow_network_drive : HeaderFlag
  force_close_applications : HeaderFlag
  app_name_has_consts : HeaderFlag
  use_previous_privileges : HeaderFlag
  wizard_resizable : HeaderFlag
  uninstallable : HeaderFlag
  disable_dir_page : HeaderFlag
  disable_program_group_page : HeaderFlag
  disable_append_dir : HeaderFlag
  admin_privileges_required : HeaderFlag
  always_create_uninstall_icon : HeaderFlag
  create_uninstall_reg_key : HeaderFlag
  bzip_used : HeaderFlag
  show_language_dialog : HeaderFlag
  detect_language_using_locale : HeaderFlag
  disable_dir_exists_warning : HeaderFlag
  back_solid : HeaderFlag
  overwrite_uninst_reg_entries : HeaderFlag

-- The place of a flag in the enumeration.
pub flag_index : HeaderFlag → ℕ
flag_index disable_startup_prompt = 0
flag_index create_app_dir = 1
flag_index allow_no_icons = 2
flag_index always_restart = 3
flag_index always_use_personal_group = 4
flag_index window_visible = 5
flag_index window_show_caption = 6
flag_index window_resizable = 7
flag_index window_start_maximized = 8
flag_index enable_dir_doesnt_exist_warning = 9
flag_index password_flag = 10
flag_index allow_root_directory = 11
flag_index disable_finished_page = 12
flag_index changes_associations = 13
flag_index use_previous_app_dir = 14
flag_index back_color_horizontal = 15
flag_index use_previous_group = 16
flag_index update_uninstall_log_app_name = 17
flag_index use_previous_setup_type = 18
flag_index disable_ready_memo = 19
flag_index always_show_components_list = 20
flag_index flat_components_list = 21
flag_index show_component_sizes = 22
flag_index use_previous_tasks = 23
flag_index disable_ready_page = 24
flag_index always_show_dir_on_ready_page = 25
flag_index always_show_group_on_ready_page = 26
flag_index allow_unc_path = 27
flag_index user_info_page = 28
flag_index use_previous_user_info = 29
flag_index uninstall_restart_computer = 30
flag_index restart_if_needed_by_run = 31
flag_index show_tasks_tree_lines = 32
flag_index allow_cancel_during_install = 33
flag_index wizard_image_stretch = 34
flag_index append_default_dir_name = 35
flag_index append_default_group_name = 36
flag_index encryption_used = 37
flag_index changes_environment = 38
flag_index show_undisplayable_languages = 39
flag_index setup_logging = 40
flag_index signed_uninstaller = 41
flag_index use_previous_language = 42
flag_index disable_welcome_page = 43
flag_index close_applications = 44
flag_index restart_applications = 45
flag_index allow_network_drive = 46
flag_index force_close_applications = 47
flag_index app_name_has_consts = 48
flag_index use_previous_privileges = 49
flag_index wizard_resizable = 50
flag_index uninstallable = 51
flag_index disable_dir_page = 52
flag_index disable_program_group_page = 53
flag_index disable_append_dir = 54
flag_index admin_privileges_required = 55
flag_index always_create_uninstall_icon = 56
flag_index create_uninstall_reg_key = 57
flag_index bzip_used = 58
flag_index show_language_dialog = 59
flag_index detect_language_using_locale = 60
flag_index disable_dir_exists_warning = 61
flag_index back_solid = 62
flag_index overwrite_uninst_reg_entries = 63

-- `options & flag`
pub has : HeaderFlag → List HeaderFlag → Bool
has = contains flag_index

-- The flags that are added to the reader.
abbrev pub header_flags : Version → List HeaderFlag
header_flags v =
    disable_startup_prompt ∷ []
    ++ flag_if (not (at_least v 5 3 10)) uninstallable
    ++ create_app_dir ∷ []
    ++ flag_if (not (at_least v 5 3 3)) disable_dir_page
    ++ flag_if (not (at_least v 1 3 6)) disable_dir_exists_warning
    ++ flag_if (not (at_least v 5 3 3)) disable_program_group_page
    ++ allow_no_icons ∷ []
    ++ flag_if (not (at_least v 3 0 0) || at_least v 3 0 3) always_restart
    ++ flag_if (not (at_least v 1 3 3)) back_solid
    ++ always_use_personal_group ∷ []
    ++ window_visible ∷ []
    ++ window_show_caption ∷ []
    ++ window_resizable ∷ []
    ++ window_start_maximized ∷ []
    ++ enable_dir_doesnt_exist_warning ∷ []
    ++ flag_if (not (at_least v 4 1 2)) disable_append_dir
    ++ password_flag ∷ []
    ++ flag_if (at_least v 1 2 6) allow_root_directory
    ++ flag_if (at_least v 1 2 14) disable_finished_page
    ++ flag_if (not (is_16_bit v) && not (at_least v 3 0 4)) admin_privileges_required
    ++ flag_if (not (is_16_bit v) && not (at_least v 3 0 0)) always_create_uninstall_icon
    ++ flag_if (not (is_16_bit v) && not (at_least v 1 3 6)) overwrite_uninst_reg_entries
    ++ flag_if (not (is_16_bit v) && not (at_least v 5 6 1)) changes_associations
    ++ flag_if (at_least v 1 3 0 && not (at_least v 5 3 8)) create_uninstall_reg_key
    ++ flag_if (at_least v 1 3 1) use_previous_app_dir
    ++ flag_if (at_least v 1 3 3) back_color_horizontal
    ++ flag_if (at_least v 1 3 10) use_previous_group
    ++ flag_if (at_least v 1 3 20) update_uninstall_log_app_name
    ++ flag_if (at_least v 2 0 0 || (is_isx v && at_least v 1 3 10)) use_previous_setup_type
    ++ flag_if (at_least v 2 0 0) disable_ready_memo
    ++ flag_if (at_least v 2 0 0) always_show_components_list
    ++ flag_if (at_least v 2 0 0) flat_components_list
    ++ flag_if (at_least v 2 0 0) show_component_sizes
    ++ flag_if (at_least v 2 0 0) use_previous_tasks
    ++ flag_if (at_least v 2 0 0) disable_ready_page
    ++ flag_if (at_least v 2 0 7) always_show_dir_on_ready_page
    ++ flag_if (at_least v 2 0 7) always_show_group_on_ready_page
    ++ flag_if (at_least v 2 0 17 && not (at_least v 4 1 5)) bzip_used
    ++ flag_if (at_least v 2 0 18) allow_unc_path
    ++ flag_if (at_least v 3 0 0) user_info_page
    ++ flag_if (at_least v 3 0 0) use_previous_user_info
    ++ flag_if (at_least v 3 0 1) uninstall_restart_computer
    ++ flag_if (at_least v 3 0 3) restart_if_needed_by_run
    ++ flag_if (at_least v 4 0 0 || (is_isx v && at_least v 3 0 3)) show_tasks_tree_lines
    ++ flag_if (at_least v 4 0 0 && not (at_least v 4 0 10)) show_language_dialog
    ++ flag_if (at_least v 4 0 1 && not (at_least v 4 0 10)) detect_language_using_locale
    ++ flag_if (at_least v 4 0 9) allow_cancel_during_install
    ++ flag_if (at_least v 4 1 3) wizard_image_stretch
    ++ flag_if (at_least v 4 1 8) append_default_dir_name
    ++ flag_if (at_least v 4 1 8) append_default_group_name
    ++ flag_if (at_least v 4 2 2) encryption_used
    ++ flag_if (at_least v 5 0 4 && not (at_least v 5 6 1)) changes_environment
    ++ flag_if (at_least v 5 1 7 && not v.variant.unicode) show_undisplayable_languages
    ++ flag_if (at_least v 5 1 13) setup_logging
    ++ flag_if (at_least v 5 2 1) signed_uninstaller
    ++ flag_if (at_least v 5 3 8) use_previous_language
    ++ flag_if (at_least v 5 3 9) disable_welcome_page
    ++ flag_if (at_least v 5 5 0) close_applications
    ++ flag_if (at_least v 5 5 0) restart_applications
    ++ flag_if (at_least v 5 5 0) allow_network_drive
    ++ flag_if (at_least v 5 5 7) force_close_applications
    ++ flag_if (at_least v 6 0 0) app_name_has_consts
    ++ flag_if (at_least v 6 0 0) use_previous_privileges
    ++ flag_if (at_least v 6 0 0) wizard_resizable
