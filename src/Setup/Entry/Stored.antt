-- ===== src/Setup/Entry/Stored.antt =====
-- Entries written and read again (src/setup/windows.cpp, src/setup/item.cpp).
use innoextract_wasm.Base.{ℕ, ◌^◌, ◌<◌, List, [], ◌∷◌, ◌++◌, if◌then◌else◌}
use innoextract_wasm.Setup.Load.Codec.{
  Reads, Reads->>=, Reads-give, give-Reads, store_if, field_if-Reads, load_u8-Reads, load_u16-Reads,
  store16,
}
use innoextract_wasm.Setup.Version.{Version, at_least}
use innoextract_wasm.Setup.Entry.{
  WindowsData, ServicePack, WindowsVersion, WindowsVersionRange, load_data, load_service_pack,
  load_windows_version, load_version_range,
}

-- `windows_version::data` as it is stored
abbrev pub store_data : Version → WindowsData → List ℕ
store_data v d = store_if (at_least v 1 3 19) (store16 d.build) ++ d.minor ∷ d.major ∷ []

-- What a version keeps of it.
abbrev pub kept_data : Version → WindowsData → WindowsData
kept_data v d = record d { build = if at_least v 1 3 19 then d.build else 0 }

pub load_data-store :
    (v : Version) (d : WindowsData)
    → d.build < 2 ^ 16
    → Reads (load_data v) (store_data v d) (kept_data v d)
unfolding load_data
load_data-store v d h =
    Reads->>= _ (field_if-Reads (at_least v 1 3 19) 0 (load_u16-Reads d.build h))
      (Reads->>= _ (load_u8-Reads d.minor) (Reads->>= _ (load_u8-Reads d.major) (give-Reads _)))

-- `windows_version` as it is stored
abbrev pub store_windows : Version → WindowsVersion → List ℕ
store_windows v w =
    store_data v w.win_version
    ++ (store_data v w.nt_version
        ++ store_if (at_least v 1 3 19) (w.nt_service_pack.minor ∷ w.nt_service_pack.major ∷ []))

abbrev pub kept_windows : Version → WindowsVersion → WindowsVersion
kept_windows v w = record {
  win_version = kept_data v w.win_version;
  nt_version = kept_data v w.nt_version;
  nt_service_pack =
      if at_least v 1 3 19 then w.nt_service_pack else record { major = 0; minor = 0 };
}

-- The builds fit the 16 bits that are stored of them.
abbrev pub HasBuilds : WindowsVersion → Type 0
HasBuilds w = (w.win_version.build < 2 ^ 16) × (w.nt_version.build < 2 ^ 16)

load_service_pack-store : (p : ServicePack) → Reads load_service_pack (p.minor ∷ p.major ∷ []) p
unfolding load_service_pack
load_service_pack-store p =
    Reads->>= _ (load_u8-Reads p.minor) (Reads->>= _ (load_u8-Reads p.major) (give-Reads _))

pub load_windows_version-store :
    (v : Version) (w : WindowsVersion)
    → HasBuilds w
    → Reads (load_windows_version v) (store_windows v w) (kept_windows v w)
unfolding load_windows_version
load_windows_version-store v w (p, q) = Reads->>= _ (load_data-store v w.win_version p) (
    Reads->>= _ (load_data-store v w.nt_version q) (
      Reads-give _
        (field_if-Reads (at_least v 1 3 19) _ (load_service_pack-store w.nt_service_pack))))

abbrev pub store_range : Version → WindowsVersionRange → List ℕ
store_range v r = store_windows v r.first ++ store_windows v r.last

abbrev pub kept_range : Version → WindowsVersionRange → WindowsVersionRange
kept_range v r = record { first = kept_windows v r.first; last = kept_windows v r.last }

-- A range of Windows versions, written for a version of the setup data, is read as what that version
-- keeps of it: all but the builds and the service packs before 1.3.19. The builds have 16 bits.
pub load_version_range-store :
    (v : Version) (r : WindowsVersionRange)
    → HasBuilds r.first
    → HasBuilds r.last
    → Reads (load_version_range v) (store_range v r) (kept_range v r)
unfolding load_version_range
load_version_range-store v r p q =
    Reads->>= _ (load_windows_version-store v r.first p)
      (Reads-give _ (load_windows_version-store v r.last q))
