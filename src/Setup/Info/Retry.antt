-- ===== src/Setup/Info/Retry.antt =====
-- The versions that `info::load` tries, and which of them it settles for (src/setup/info.cpp).
-- What `try_load` does for a version is a parameter: the stream is at its start again for every one.
pub mod Settled
pub mod Done
use innoextract_wasm.Base.{
  ℕ, zero, suc, ◌+◌, ◌-◌, ◌^◌, Bool, true, false, not, ◌&&◌, ◌||◌, List, [], ◌∷◌, ◌==◌,
  if◌then◌else◌,
}
use innoextract_wasm.Setup.Version.{Version, is_ambiguous, next}
use innoextract_wasm.Setup.Info.Images.{EntryType, no_skip, no_unknown_version, wants}

-- What `try_load` does: load without a warning or with one, or throw.
pub data Attempt (A E : Type 0) : Type 0 where
  clean : A → Attempt A E
  warned : A → Attempt A E
  failed : E → Attempt A E

-- What `info::load` does. `unexpected_version` is its own exception; `partly_loaded` would be a return
-- behind an attempt that threw.
pub data Outcome (A E : Type 0) : Type 0 where
  loaded : Version → A → Outcome A E
  thrown : E → Outcome A E
  unexpected_version : Outcome A E
  partly_loaded : Version → Outcome A E
  out_of_fuel : Outcome A E

-- `version.value = value`
abbrev pub set_value : Version → ℕ → Version
set_value v value = record v { value = value }

-- The attempt that is not caught, behind a rewind.
abbrev pub rewound : {A E : Type 0} → Version → Attempt A E → Outcome A E
rewound v (clean a) = loaded v a
rewound v (warned a) = loaded v a
rewound v (failed e) = thrown e

-- The end of the catch block where the version is the listed one.
abbrev pub reported : {A E : Type 0} → Version → Bool → Attempt A E → Outcome A E
reported v parsed (clean a) = loaded v a
reported v parsed (warned a) = loaded v a
reported v false (failed e) = thrown e
reported v true (failed e) = partly_loaded v

module _ {A E : Type 0} (attempt : Version → Attempt A E) where
  -- The catch block: `last` is what the attempt did, and `later` goes on with the next version.
  pub caught :
      (Version → Bool → ℕ → Bool → Outcome A E)
      → Version
      → Bool
      → ℕ
      → Bool
      → Attempt A E
      → Outcome A E
  caught later v ambiguous listed parsed last = elim (not ambiguous || next v == 0) [
    | true ↦ elim (v.value == listed) [
      | true ↦ reported v parsed last
      | false ↦ rewound (set_value v listed) (attempt (set_value v listed))
    ]
    | false ↦ (let w = set_value v (next v) in later w (is_ambiguous w) listed parsed)
  ]

  -- A round of the loop, behind the attempt: the first version with warnings only is listed.
  pub tried :
      (Version → Bool → ℕ → Bool → Outcome A E)
      → Version
      → Bool
      → ℕ
      → Bool
      → Attempt A E
      → Outcome A E
  tried later v ambiguous listed parsed (clean a) = loaded v a
  tried later v ambiguous listed parsed (warned a) =
      caught later v ambiguous (if parsed then listed else v.value) true (warned a)
  tried later v ambiguous listed parsed (failed e) =
      caught later v ambiguous listed parsed (failed e)

  -- The loop of `load`, with fuel for its rounds.
  pub load_loop : ℕ → Version → Bool → ℕ → Bool → Outcome A E
  load_loop zero v ambiguous listed parsed = out_of_fuel
  load_loop (suc fuel) v ambiguous listed parsed =
      tried (load_loop fuel) v ambiguous listed parsed (attempt v)

-- `entries |= NoSkip`
pub all_entries : Version → List EntryType → List EntryType
all_entries v entries = if is_ambiguous v then no_skip ∷ entries else entries

-- `info::load` behind `version.load`. Every round goes to a higher version of 32 bits.
pub load :
    {A E : Type 0}
    → (List EntryType → Version → Attempt A E)
    → Version
    → List EntryType
    → Outcome A E
load attempt v entries =
    if not v.known && wants no_unknown_version entries
    then unexpected_version
    else load_loop (attempt (all_entries v entries)) (2 ^ 32) v (not v.known || is_ambiguous v)
        v.value false
