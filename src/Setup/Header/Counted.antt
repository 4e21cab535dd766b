-- ===== src/Setup/Header/Counted.antt =====
-- The numbers of entries, written and read (src/setup/header.cpp).
use innoextract_wasm.Base.{ℕ, ◌^◌, ◌<◌, Bool, true, false, ◌&&◌, ◌||◌, List, ◌++◌, if◌then◌else◌}
use innoextract_wasm.Base.Words.{store32}
use innoextract_wasm.Setup.Load.{load_bits}
use innoextract_wasm.Setup.Load.Codec.{
  Reads, Reads->>=, Reads-give, store_if, field_if-Reads, load_u16-Reads, load_u32-Reads, store16,
}
use innoextract_wasm.Setup.Version.{Version, is_16_bit, is_isx, at_least}
use innoextract_wasm.Setup.Header.Counts.{EntryCounts, load_counts}

-- A number as builds of 16 bits or of 32 store it.
abbrev pub store_bits : Bool → ℕ → List ℕ
store_bits true n = store16 n
store_bits false n = store32 n

abbrev pub FitsBits : Bool → ℕ → Type 0
FitsBits true n = n < 2 ^ 16
FitsBits false n = n < 2 ^ 32

pub load_bits-Reads :
    (narrow : Bool) (n : ℕ) → FitsBits narrow n → Reads (load_bits narrow) (store_bits narrow n) n
unfolding load_bits
load_bits-Reads true n h = load_u16-Reads n h
load_bits-Reads false n h = load_u32-Reads n h

-- The counts as a version stores them.
abbrev pub store_counts : Version → EntryCounts → List ℕ
store_counts v c =
    store_if (at_least v 4 0 0) (store32 c.language_count)
    ++ (store_if (at_least v 4 2 1) (store32 c.message_count)
        ++ (store_if (at_least v 4 1 0) (store32 c.permission_count)
            ++ (store_if (at_least v 2 0 0 || is_isx v) (store32 c.type_count)
                ++ (store_if (at_least v 2 0 0 || is_isx v) (store32 c.component_count)
                    ++ (store_if (at_least v 2 0 0 || (is_isx v && at_least v 1 3 17))
                          (store32 c.task_count)
                        ++ (store_bits (is_16_bit v) c.directory_count
                            ++ (store_bits (is_16_bit v) c.file_count
                                ++ (store_bits (is_16_bit v) c.data_entry_count
                                    ++ (store_bits (is_16_bit v) c.icon_count
                                        ++ (store_bits (is_16_bit v) c.ini_entry_count
                                            ++ (store_bits (is_16_bit v) c.registry_entry_count
                                                ++ (store_bits (is_16_bit v) c.delete_entry_count
                                                    ++ (store_bits (is_16_bit v)
                                                          c.uninstall_delete_entry_count
                                                        ++ (store_bits (is_16_bit v)
                                                            c.run_entry_count
                                                            ++ (store_bits (is_16_bit v)
                                                            c.uninstall_run_entry_count)))))))))))))))

-- What a version keeps of them.
abbrev pub kept_counts : Version → EntryCounts → EntryCounts
kept_counts v c = record {
  language_count =
      if at_least v 4 0 0 then c.language_count else (if at_least v 2 0 1 then 1 else 0);
  message_count = if at_least v 4 2 1 then c.message_count else 0;
  permission_count = if at_least v 4 1 0 then c.permission_count else 0;
  type_count = if at_least v 2 0 0 || is_isx v then c.type_count else 0;
  component_count = if at_least v 2 0 0 || is_isx v then c.component_count else 0;
  task_count = if at_least v 2 0 0 || (is_isx v && at_least v 1 3 17) then c.task_count else 0;
  directory_count = c.directory_count;
  file_count = c.file_count;
  data_entry_count = c.data_entry_count;
  icon_count = c.icon_count;
  ini_entry_count = c.ini_entry_count;
  registry_entry_count = c.registry_entry_count;
  delete_entry_count = c.delete_entry_count;
  uninstall_delete_entry_count = c.uninstall_delete_entry_count;
  run_entry_count = c.run_entry_count;
  uninstall_run_entry_count = c.uninstall_run_entry_count;
}

-- Every count fits what is stored of it.
abbrev pub FitCounts : Version → EntryCounts → Type 0
FitCounts v c =
    (c.language_count < 2 ^ 32)
    × (c.message_count < 2 ^ 32)
    × (c.permission_count < 2 ^ 32)
    × (c.type_count < 2 ^ 32)
    × (c.component_count < 2 ^ 32)
    × (c.task_count < 2 ^ 32)
    × FitsBits (is_16_bit v) c.directory_count
    × FitsBits (is_16_bit v) c.file_count
    × FitsBits (is_16_bit v) c.data_entry_count
    × FitsBits (is_16_bit v) c.icon_count
    × FitsBits (is_16_bit v) c.ini_entry_count
    × FitsBits (is_16_bit v) c.registry_entry_count
    × FitsBits (is_16_bit v) c.delete_entry_count
    × FitsBits (is_16_bit v) c.uninstall_delete_entry_count
    × FitsBits (is_16_bit v) c.run_entry_count
    × FitsBits (is_16_bit v) c.uninstall_run_entry_count

-- The counts of a header, written for a version, are read whole: each as it was where the version
-- stores it, and otherwise as its default, which is 1 for the languages from 2.0.1 on and 0 for all
-- else. The counts fit the 32 bits, or the 16 of a build of 16 bits, that are stored of them.
pub load_counts-store :
    (v : Version) (c : EntryCounts)
    → FitCounts v c
    → Reads (load_counts v) (store_counts v c) (kept_counts v c)
unfolding load_counts
load_counts-store v c (h0, h1, h2, h3, h4, h5, h6, h7, h8, h9, h10, h11, h12, h13, h14, h15) =
    Reads->>= _
      (field_if-Reads (at_least v 4 0 0) (if at_least v 2 0 1 then 1 else 0)
        (load_u32-Reads c.language_count h0))
      (Reads->>= _ (field_if-Reads (at_least v 4 2 1) 0 (load_u32-Reads c.message_count h1)) (
        Reads->>= _ (field_if-Reads (at_least v 4 1 0) 0 (load_u32-Reads c.permission_count h2)) (
          Reads->>= _
            (field_if-Reads (at_least v 2 0 0 || is_isx v) 0 (load_u32-Reads c.type_count h3))
            (Reads->>= _
              (field_if-Reads (at_least v 2 0 0 || is_isx v) 0
                (load_u32-Reads c.component_count h4))
              (Reads->>= _
                (field_if-Reads (at_least v 2 0 0 || (is_isx v && at_least v 1 3 17)) 0
                  (load_u32-Reads c.task_count h5))
                (Reads->>= _ (load_bits-Reads (is_16_bit v) c.directory_count h6) (
                  Reads->>= _ (load_bits-Reads (is_16_bit v) c.file_count h7) (
                    Reads->>= _ (load_bits-Reads (is_16_bit v) c.data_entry_count h8) (
                      Reads->>= _ (load_bits-Reads (is_16_bit v) c.icon_count h9) (
                        Reads->>= _ (load_bits-Reads (is_16_bit v) c.ini_entry_count h10) (
                          Reads->>= _ (load_bits-Reads (is_16_bit v) c.registry_entry_count h11) (
                            Reads->>= _ (load_bits-Reads (is_16_bit v) c.delete_entry_count h12) (
                              Reads->>= _
                                (load_bits-Reads (is_16_bit v) c.uninstall_delete_entry_count h13)
                                (Reads->>= _ (load_bits-Reads (is_16_bit v) c.run_entry_count h14) (
                                  Reads-give _ (
                                    load_bits-Reads (is_16_bit v) c.uninstall_run_entry_count
                                      h15))))))))))))))))
