-- ===== src/Setup/Info/Entries.antt =====
-- Entries of one type: `info::load_entries` (src/setup/info.cpp).
use innoextract_wasm.Base.{
  ℕ, zero, suc, Bool, true, false, List, [], ◌∷◌, ◌++◌, length, All, if◌then◌else◌,
}
use innoextract_wasm.Setup.Load.{Reader, give, ◌>>=◌}
use innoextract_wasm.Setup.Load.Codec.{Reads, Reads->>=, Reads-give, give-Reads}

-- The loop over the entries; those that are not wanted are read and dropped.
unfoldable pub load_entries : {A : Type 0} → Bool → ℕ → Reader A → Reader (List A)
load_entries wanted zero load = give []
load_entries wanted (suc count) load = do
  entry ← load
  entries ← load_entries wanted count load
  give (if wanted then entry ∷ entries else [])

abbrev pub all_bytes : {A : Type 0} → List (List ℕ × A) → List ℕ
all_bytes [] = []
all_bytes (e ∷ es) = e.0 ++ all_bytes es

abbrev pub all_values : {A : Type 0} → List (List ℕ × A) → List A
all_values [] = []
all_values (e ∷ es) = e.1 ∷ all_values es

-- Each of these bytes are read as the value beside them.
abbrev pub AllRead : {A : Type 0} → Reader A → List (List ℕ × A) → Type 0
AllRead load = All (λ e. Reads load e.0 e.1)

-- Entries that are stored one behind the other are all read, in this order, where entries of their
-- type are wanted; otherwise their bytes are read, and no entry is kept.
pub load_entries-AllRead :
    {A : Type 0} (wanted : Bool) (load : Reader A) (entries : List (List ℕ × A))
    → AllRead load entries
    → Reads
        (load_entries wanted (length entries) load)
        (all_bytes entries)
        (if wanted then all_values entries else [])
unfolding load_entries
load_entries-AllRead true load [] h = give-Reads []
load_entries-AllRead false load [] h = give-Reads []
load_entries-AllRead true load (e ∷ es) h =
    Reads->>= _ h.0 (Reads-give _ (load_entries-AllRead true load es h.1))
load_entries-AllRead false load (e ∷ es) h =
    Reads->>= _ h.0 (Reads-give _ (load_entries-AllRead false load es h.1))
