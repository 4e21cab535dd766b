-- ===== src/Setup/Info/Tests.antt =====
-- Reading the setup data at concrete inputs.
use innoextract_wasm.Base.{
  ℕ, ◌^◌, true, not, ◌&&◌, ◌||◌, List, [], ◌∷◌, ◌++◌, length, get_or, if◌then◌else◌, ◌==◌, ◌≡◌,
  refl, arith,
}
use innoextract_wasm.Setup.Load.{Conversion, load_u32}
use innoextract_wasm.Setup.Load.Codec.{Reads, load_u32-Reads}
use innoextract_wasm.Setup.Load.Flags.{contains}
use innoextract_wasm.Setup.Version.{Version, plain, inno_version, is_ambiguous}
use innoextract_wasm.Setup.Entry.Codepages.{cp_windows1252}
use innoextract_wasm.Setup.Info.{load_primary}
use innoextract_wasm.Setup.Info.Images.{
  EntryType, entry_type_index, files, icons, no_unknown_version, wants,
}
use innoextract_wasm.Setup.Info.Entries.{load_entries, all_bytes, all_values, load_entries-AllRead}
use innoextract_wasm.Setup.Info.Skip.{SameBytes}
use innoextract_wasm.Setup.Info.Wanted.{load_primary-SameBytes}
use innoextract_wasm.Setup.Info.Codepage.{choose_codepage, choose_codepage-languages}
use innoextract_wasm.Setup.Info.Retry.{Attempt, clean, failed, Outcome, rewound, all_entries, load}
use innoextract_wasm.Setup.Info.Retry.Done.{IsDone, load-IsDone}
use innoextract_wasm.Setup.Info.Retry.Settled.{
  candidates, first_clean, first_warned, settled, load-settled,
}

-- A conversion that keeps the bytes.
abbrev same : Conversion
same codepage lead_bytes s = s

abbrev version_5_5_7 : Version
version_5_5_7 = record { value = inno_version 5 5 7; variant = plain; known = true }

-- Two numbers and the bytes that store them.
abbrev two_numbers : List (List ℕ × ℕ)
two_numbers = (7 ∷ 0 ∷ 0 ∷ 0 ∷ [], 7) ∷ (1 ∷ 1 ∷ 0 ∷ 0 ∷ [], 257) ∷ []

load_entries-AllRead_example :
    Reads
      (load_entries true (length two_numbers) load_u32)
      (all_bytes two_numbers)
      (if true then all_values two_numbers else [])
load_entries-AllRead_example =
    load_entries-AllRead true load_u32 two_numbers
      (load_u32-Reads 7 (omega arith), (load_u32-Reads 257 (omega arith), tt))

load_primary-SameBytes_example :
    SameBytes
      (load_primary same version_5_5_7 0 (files ∷ []))
      (load_primary same version_5_5_7 0 (icons ∷ []))
unfolding wants entry_type_index contains
load_primary-SameBytes_example =
    load_primary-SameBytes same version_5_5_7 0 (files ∷ []) (icons ∷ []) refl

choose_codepage-languages_example :
    (choose_codepage version_5_5_7 0 ((932 ∷ []) ++ cp_windows1252 ∷ 1250 ∷ []) ≡ cp_windows1252)
    × (choose_codepage version_5_5_7 0 (932 ∷ []) ≡ get_or (932 ∷ []) 0 0)
choose_codepage-languages_example =
    choose_codepage-languages version_5_5_7 (932 ∷ []) (932 ∷ []) (1250 ∷ []) refl (omega arith)
      ((λ e. absurd (omega (arith, e))), tt)

-- The ambiguous 5.5.7 throws, and all later versions load.
abbrev later_only : List EntryType → Version → Attempt ℕ ℕ
later_only entries v = if v.value == inno_version 5 5 7 then failed 1 else clean v.value

load-settled_example : load later_only version_5_5_7 [] ≡ (
    if not version_5_5_7.known && wants no_unknown_version []
    then Outcome.unexpected_version
    else settled
        (later_only (all_entries version_5_5_7 []))
        (first_clean (later_only (all_entries version_5_5_7 [])) (
          candidates
            (2 ^ 32)
            version_5_5_7
            (not version_5_5_7.known || is_ambiguous version_5_5_7)))
        (first_warned (later_only (all_entries version_5_5_7 [])) (
          candidates
            (2 ^ 32)
            version_5_5_7
            (not version_5_5_7.known || is_ambiguous version_5_5_7)))
        (rewound version_5_5_7 (later_only (all_entries version_5_5_7 []) version_5_5_7)))
load-settled_example = load-settled later_only version_5_5_7 [] (omega arith)

load-IsDone_example : IsDone (load later_only version_5_5_7 [])
load-IsDone_example = load-IsDone later_only version_5_5_7 [] (omega arith)
