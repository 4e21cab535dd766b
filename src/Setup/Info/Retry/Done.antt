-- ===== src/Setup/Info/Retry/Done.antt =====
-- The end of `info::load` (src/setup/info.cpp).
use innoextract_wasm.Base.{
  ◌^◌, ◌<◌, Bool, true, false, not, ◌&&◌, List, Option, none, some, if◌then◌else◌, sym, subst,
}
use innoextract_wasm.Setup.Version.{Version}
use innoextract_wasm.Setup.Info.Images.{EntryType, no_unknown_version, wants}
use innoextract_wasm.Setup.Info.Retry.{
  Attempt, clean, warned, failed, Outcome, loaded, thrown, unexpected_version, partly_loaded,
  out_of_fuel, rewound, all_entries, load,
}
use innoextract_wasm.Setup.Info.Retry.Settled.{settled, load-settled}

-- A result that is a version with its data, or an exception.
abbrev pub IsDone : {A E : Type 0} → Outcome A E → Type 0
IsDone (loaded v a) = Unit {0}
IsDone (thrown e) = Unit {0}
IsDone unexpected_version = Unit {0}
IsDone (partly_loaded v) = ⊥
IsDone out_of_fuel = ⊥

rewound-IsDone : {A E : Type 0} (v : Version) (r : Attempt A E) → IsDone (rewound v r)
rewound-IsDone v (clean a) = tt
rewound-IsDone v (warned a) = tt
rewound-IsDone v (failed e) = tt

settled-IsDone :
    {A E : Type 0} (attempt : Version → Attempt A E) (first second : Option (Version × A))
    (otherwise : Outcome A E)
    → IsDone otherwise
    → IsDone (settled attempt first second otherwise)
settled-IsDone attempt (some (v, a)) second otherwise h = tt
settled-IsDone attempt none (some (v, a)) otherwise h = tt
settled-IsDone attempt none none otherwise h = h

if-IsDone :
    {A E : Type 0} (c : Bool) (r : Outcome A E)
    → IsDone r
    → IsDone (if c then unexpected_version else r)
if-IsDone true r h = tt
if-IsDone false r h = h

-- Trying versions of 32 bits comes to an end, whatever the attempts do, and never with what an attempt
-- left that threw.
pub load-IsDone :
    {A E : Type 0} (attempt : List EntryType → Version → Attempt A E) (v : Version)
    (entries : List EntryType)
    → v.value < 2 ^ 32
    → IsDone (load attempt v entries)
load-IsDone attempt v entries lt =
    let attempt' = attempt (all_entries v entries) in
    subst IsDone (sym (load-settled attempt v entries lt)) (
      if-IsDone (not v.known && wants no_unknown_version entries) _
        (settled-IsDone attempt' _ _ (rewound v (attempt' v)) (rewound-IsDone v (attempt' v))))
