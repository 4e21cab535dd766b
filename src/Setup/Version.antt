-- ===== src/Setup/Version.antt =====
-- Versions of the setup data (src/setup/version.hpp, src/setup/version.cpp).
mod Known
pub mod Next
pub mod Tests
pub use Known.{
  Variant, plain, bits16_only, unicode_only, isx_only, inno_version_ext, inno_version, KnownVersion,
}
unfoldable pub use Known.{legacy_versions, versions}
use innoextract_wasm.Base.{
  ℕ, ◌+◌, ◌*◌, ◌^◌, Bool, true, false, not, ◌&&◌, ◌||◌, List, [], ◌∷◌, Option, none, some, ltb, leb,
  ◌==◌, if◌then◌else◌,
}

pub record Version : Type 0 where
  pub value : ℕ
  pub variant : Variant
  pub known : Bool

-- `bits() == 16`
abbrev pub is_16_bit : Version → Bool
is_16_bit v = v.variant.bits16

abbrev pub is_isx : Version → Bool
is_isx v = v.variant.isx

-- `version >= INNO_VERSION(a, b, c)`: versions compare by their numbers alone.
abbrev pub at_least : Version → ℕ → ℕ → ℕ → Bool
at_least v a b c = leb (inno_version a b c) v.value

pub is_ambiguous : Version → Bool
is_ambiguous v =
    v.value == inno_version 1 3 21
    || v.value == inno_version 2 0 1
    || v.value == inno_version 3 0 3
    || v.value == inno_version 4 2 3
    || v.value == inno_version 5 3 10
    || v.value == inno_version 5 4 2
    || v.value == inno_version 5 5 0
    || v.value == inno_version 5 5 7
    || v.value == inno_version_ext 5 5 7 1

bool_eq : Bool → Bool → Bool
bool_eq true b = b
bool_eq false b = not b

pub same_variant : Variant → Variant → Bool
unfolding bool_eq
same_variant s t = bool_eq s.bits16 t.bits16 && bool_eq s.unicode t.unicode && bool_eq s.isx t.isx

-- `std::upper_bound` on a range in order of the versions: the part above the value.
pub upper_bound : ℕ → List KnownVersion → List KnownVersion
upper_bound value [] = []
upper_bound value (k ∷ ks) = if ltb value k.version then k ∷ ks else upper_bound value ks

-- `while(result != end && result->variant != variant) result++`
pub skip_variants : Variant → List KnownVersion → Option ℕ
skip_variants t [] = none
skip_variants t (k ∷ ks) = if same_variant k.variant t then some k.version else skip_variants t ks

-- the first result, else the second, else 0
abbrev pub first_found : Option ℕ → Option ℕ → ℕ
first_found (some n) other = n
first_found none (some n) = n
first_found none none = 0

pub next : Version → ℕ
next v =
    first_found (skip_variants v.variant (upper_bound v.value legacy_versions))
      (skip_variants v.variant (upper_bound v.value versions))
