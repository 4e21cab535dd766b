-- ===== src/Setup/Version/Known.antt =====
-- The versions that are recognised by their names (src/setup/version.cpp).
-- A name is padded with zero bytes to 64 in the file; an empty name is never compared.
use Prim.Native.String.{String}
use innoextract_wasm.Base.{ℕ, ◌+◌, ◌*◌, ◌^◌, Bool, true, false, List, [], ◌∷◌}

-- `version::flags`
pub record Variant : Type 0 where
  pub bits16 : Bool
  pub unicode : Bool
  pub isx : Bool

abbrev pub plain : Variant
plain = record { bits16 = false; unicode = false; isx = false }

abbrev pub bits16_only : Variant
bits16_only = record { bits16 = true; unicode = false; isx = false }

abbrev pub unicode_only : Variant
unicode_only = record { bits16 = false; unicode = true; isx = false }

abbrev pub isx_only : Variant
isx_only = record { bits16 = false; unicode = false; isx = true }

-- `INNO_VERSION_EXT` on components below 256
abbrev pub inno_version_ext : ℕ → ℕ → ℕ → ℕ → ℕ
inno_version_ext a b c d = a * 2 ^ 24 + b * 2 ^ 16 + c * 2 ^ 8 + d

abbrev pub inno_version : ℕ → ℕ → ℕ → ℕ
inno_version a b c = inno_version_ext a b c 0

pub record KnownVersion : Type 0 where
  pub name : String
  pub version : ℕ
  pub variant : Variant

abbrev known : String → ℕ → Variant → KnownVersion
known n v t = record { name = n; version = v; variant = t }

unfoldable pub legacy_versions : List KnownVersion
legacy_versions =
    known "i1.2.10--16\u{1a}" (inno_version 1 2 10) bits16_only
    ∷ known "i1.2.10--32\u{1a}" (inno_version 1 2 10) plain
    ∷ []

unfoldable pub versions : List KnownVersion
versions =
    known "Inno Setup Setup Data (1.3.3)" (inno_version_ext 1 3 3 0) plain
    ∷ known "Inno Setup Setup Data (1.3.9)" (inno_version_ext 1 3 9 0) plain
    ∷ known "Inno Setup Setup Data (1.3.10)" (inno_version_ext 1 3 10 0) plain
    ∷ known "Inno Setup Setup Data (1.3.10) with ISX (1.3.10)" (inno_version_ext 1 3 10 0) isx_only
    ∷ known "Inno Setup Setup Data (1.3.12) with ISX (1.3.12.1)" (inno_version_ext 1 3 12 1)
        isx_only
    ∷ known "Inno Setup Setup Data (1.3.21)" (inno_version_ext 1 3 21 0) plain
    ∷ known "Inno Setup Setup Data (1.3.21) with ISX (1.3.17)" (inno_version_ext 1 3 21 0) isx_only
    ∷ known "Inno Setup Setup Data (1.3.24)" (inno_version_ext 1 3 24 0) plain
    ∷ known "Inno Setup Setup Data (1.3.21) with ISX (1.3.24)" (inno_version_ext 1 3 24 0) isx_only
    ∷ known "Inno Setup Setup Data (1.3.25)" (inno_version_ext 1 3 25 0) plain
    ∷ known "Inno Setup Setup Data (1.3.25) with ISX (1.3.25)" (inno_version_ext 1 3 25 0) isx_only
    ∷ known "Inno Setup Setup Data (2.0.0)" (inno_version_ext 2 0 0 0) plain
    ∷ known "Inno Setup Setup Data (2.0.1)" (inno_version_ext 2 0 1 0) plain
    ∷ known "Inno Setup Setup Data (2.0.2)" (inno_version_ext 2 0 2 0) plain
    ∷ known "Inno Setup Setup Data (2.0.5)" (inno_version_ext 2 0 5 0) plain
    ∷ known "Inno Setup Setup Data (2.0.6a)" (inno_version_ext 2 0 6 0) plain
    ∷ known "Inno Setup Setup Data (2.0.6a) with ISX (2.0.3)" (inno_version_ext 2 0 6 0) isx_only
    ∷ known "Inno Setup Setup Data (2.0.7)" (inno_version_ext 2 0 7 0) plain
    ∷ known "Inno Setup Setup Data (2.0.8)" (inno_version_ext 2 0 8 0) plain
    ∷ known "Inno Setup Setup Data (2.0.8) with ISX (2.0.3)" (inno_version_ext 2 0 8 0) isx_only
    ∷ known "Inno Setup Setup Data (2.0.8) with ISX (2.0.10)" (inno_version_ext 2 0 10 0) isx_only
    ∷ known "Inno Setup Setup Data (2.0.11)" (inno_version_ext 2 0 11 0) plain
    ∷ known "Inno Setup Setup Data (2.0.11) with ISX (2.0.11)" (inno_version_ext 2 0 11 0) isx_only
    ∷ known "Inno Setup Setup Data (2.0.17)" (inno_version_ext 2 0 17 0) plain
    ∷ known "Inno Setup Setup Data (2.0.17) with ISX (2.0.11)" (inno_version_ext 2 0 17 0) isx_only
    ∷ known "Inno Setup Setup Data (2.0.18)" (inno_version_ext 2 0 18 0) plain
    ∷ known "Inno Setup Setup Data (2.0.18) with ISX (2.0.11)" (inno_version_ext 2 0 18 0) isx_only
    ∷ known "Inno Setup Setup Data (3.0.0a)" (inno_version_ext 3 0 0 0) plain
    ∷ known "Inno Setup Setup Data (3.0.1)" (inno_version_ext 3 0 1 0) plain
    ∷ known "Inno Setup Setup Data (3.0.1) with ISX (3.0.0)" (inno_version_ext 3 0 1 0) isx_only
    ∷ known "Inno Setup Setup Data (3.0.3)" (inno_version_ext 3 0 3 0) plain
    ∷ known "Inno Setup Setup Data (3.0.3) with ISX (3.0.3)" (inno_version_ext 3 0 3 0) isx_only
    ∷ known "Inno Setup Setup Data (3.0.4)" (inno_version_ext 3 0 4 0) plain
    ∷ known "My Inno Setup Extensions Setup Data (3.0.4)" (inno_version_ext 3 0 4 0) isx_only
    ∷ known "Inno Setup Setup Data (3.0.5)" (inno_version_ext 3 0 5 0) plain
    ∷ known "My Inno Setup Extensions Setup Data (3.0.6.1)" (inno_version_ext 3 0 6 1) isx_only
    ∷ known "Inno Setup Setup Data (4.0.0a)" (inno_version_ext 4 0 0 0) plain
    ∷ known "Inno Setup Setup Data (4.0.1)" (inno_version_ext 4 0 1 0) plain
    ∷ known "Inno Setup Setup Data (4.0.3)" (inno_version_ext 4 0 3 0) plain
    ∷ known "Inno Setup Setup Data (4.0.5)" (inno_version_ext 4 0 5 0) plain
    ∷ known "Inno Setup Setup Data (4.0.9)" (inno_version_ext 4 0 9 0) plain
    ∷ known "Inno Setup Setup Data (4.0.10)" (inno_version_ext 4 0 10 0) plain
    ∷ known "Inno Setup Setup Data (4.0.11)" (inno_version_ext 4 0 11 0) plain
    ∷ known "Inno Setup Setup Data (4.1.0)" (inno_version_ext 4 1 0 0) plain
    ∷ known "Inno Setup Setup Data (4.1.2)" (inno_version_ext 4 1 2 0) plain
    ∷ known "Inno Setup Setup Data (4.1.3)" (inno_version_ext 4 1 3 0) plain
    ∷ known "Inno Setup Setup Data (4.1.4)" (inno_version_ext 4 1 4 0) plain
    ∷ known "Inno Setup Setup Data (4.1.5)" (inno_version_ext 4 1 5 0) plain
    ∷ known "Inno Setup Setup Data (4.1.6)" (inno_version_ext 4 1 6 0) plain
    ∷ known "Inno Setup Setup Data (4.1.8)" (inno_version_ext 4 1 8 0) plain
    ∷ known "Inno Setup Setup Data (4.2.0)" (inno_version_ext 4 2 0 0) plain
    ∷ known "Inno Setup Setup Data (4.2.1)" (inno_version_ext 4 2 1 0) plain
    ∷ known "Inno Setup Setup Data (4.2.2)" (inno_version_ext 4 2 2 0) plain
    ∷ known "Inno Setup Setup Data (4.2.3)" (inno_version_ext 4 2 3 0) plain
    ∷ known "Inno Setup Setup Data (4.2.4)" (inno_version_ext 4 2 4 0) plain
    ∷ known "Inno Setup Setup Data (4.2.5)" (inno_version_ext 4 2 5 0) plain
    ∷ known "Inno Setup Setup Data (4.2.6)" (inno_version_ext 4 2 6 0) plain
    ∷ known "Inno Setup Setup Data (5.0.0)" (inno_version_ext 5 0 0 0) plain
    ∷ known "Inno Setup Setup Data (5.0.1)" (inno_version_ext 5 0 1 0) plain
    ∷ known "Inno Setup Setup Data (5.0.3)" (inno_version_ext 5 0 3 0) plain
    ∷ known "Inno Setup Setup Data (5.0.4)" (inno_version_ext 5 0 4 0) plain
    ∷ known "Inno Setup Setup Data (5.1.0)" (inno_version_ext 5 1 0 0) plain
    ∷ known "Inno Setup Setup Data (5.1.2)" (inno_version_ext 5 1 2 0) plain
    ∷ known "Inno Setup Setup Data (5.1.7)" (inno_version_ext 5 1 7 0) plain
    ∷ known "Inno Setup Setup Data (5.1.10)" (inno_version_ext 5 1 10 0) plain
    ∷ known "Inno Setup Setup Data (5.1.13)" (inno_version_ext 5 1 13 0) plain
    ∷ known "Inno Setup Setup Data (5.2.0)" (inno_version_ext 5 2 0 0) plain
    ∷ known "Inno Setup Setup Data (5.2.1)" (inno_version_ext 5 2 1 0) plain
    ∷ known "Inno Setup Setup Data (5.2.3)" (inno_version_ext 5 2 3 0) plain
    ∷ known "Inno Setup Setup Data (5.2.5)" (inno_version_ext 5 2 5 0) plain
    ∷ known "Inno Setup Setup Data (5.2.5) (u)" (inno_version_ext 5 2 5 0) unicode_only
    ∷ known "Inno Setup Setup Data (5.3.0)" (inno_version_ext 5 3 0 0) plain
    ∷ known "Inno Setup Setup Data (5.3.0) (u)" (inno_version_ext 5 3 0 0) unicode_only
    ∷ known "Inno Setup Setup Data (5.3.3)" (inno_version_ext 5 3 3 0) plain
    ∷ known "Inno Setup Setup Data (5.3.3) (u)" (inno_version_ext 5 3 3 0) unicode_only
    ∷ known "Inno Setup Setup Data (5.3.5)" (inno_version_ext 5 3 5 0) plain
    ∷ known "Inno Setup Setup Data (5.3.5) (u)" (inno_version_ext 5 3 5 0) unicode_only
    ∷ known "Inno Setup Setup Data (5.3.6)" (inno_version_ext 5 3 6 0) plain
    ∷ known "Inno Setup Setup Data (5.3.6) (u)" (inno_version_ext 5 3 6 0) unicode_only
    ∷ known "Inno Setup Setup Data (5.3.7)" (inno_version_ext 5 3 7 0) plain
    ∷ known "Inno Setup Setup Data (5.3.7) (u)" (inno_version_ext 5 3 7 0) unicode_only
    ∷ known "Inno Setup Setup Data (5.3.8)" (inno_version_ext 5 3 8 0) plain
    ∷ known "Inno Setup Setup Data (5.3.8) (u)" (inno_version_ext 5 3 8 0) unicode_only
    ∷ known "Inno Setup Setup Data (5.3.9)" (inno_version_ext 5 3 9 0) plain
    ∷ known "Inno Setup Setup Data (5.3.9) (u)" (inno_version_ext 5 3 9 0) unicode_only
    ∷ known "Inno Setup Setup Data (5.3.10)" (inno_version_ext 5 3 10 0) plain
    ∷ known "Inno Setup Setup Data (5.3.10) (u)" (inno_version_ext 5 3 10 0) unicode_only
    ∷ known "" (inno_version_ext 5 3 10 1) plain
    ∷ known "" (inno_version_ext 5 3 10 1) unicode_only
    ∷ known "Inno Setup Setup Data (5.4.2)" (inno_version_ext 5 4 2 0) plain
    ∷ known "Inno Setup Setup Data (5.4.2) (u)" (inno_version_ext 5 4 2 0) unicode_only
    ∷ known "" (inno_version_ext 5 4 2 1) plain
    ∷ known "" (inno_version_ext 5 4 2 1) unicode_only
    ∷ known "Inno Setup Setup Data (5.5.0)" (inno_version_ext 5 5 0 0) plain
    ∷ known "Inno Setup Setup Data (5.5.0) (u)" (inno_version_ext 5 5 0 0) unicode_only
    ∷ known "" (inno_version_ext 5 5 0 1) plain
    ∷ known "" (inno_version_ext 5 5 0 1) unicode_only
    ∷ known "Inno Setup Setup Data (5.5.6)" (inno_version_ext 5 5 6 0) plain
    ∷ known "Inno Setup Setup Data (5.5.6) (u)" (inno_version_ext 5 5 6 0) unicode_only
    ∷ known "Inno Setup Setup Data (5.5.7)" (inno_version_ext 5 5 7 0) plain
    ∷ known "Inno Setup Setup Data (5.5.7) (u)" (inno_version_ext 5 5 7 0) unicode_only
    ∷ known "Inno Setup Setup Data (5.5.7) (U)" (inno_version_ext 5 5 7 0) unicode_only
    ∷ known "Inno Setup Setup Data (5.5.8) (u)" (inno_version_ext 5 5 7 0) unicode_only
    ∷ known "" (inno_version_ext 5 5 7 1) plain
    ∷ known "" (inno_version_ext 5 5 7 1) unicode_only
    ∷ known "Inno Setup Setup Data (5.6.0)" (inno_version_ext 5 6 0 0) plain
    ∷ known "Inno Setup Setup Data (5.6.0) (u)" (inno_version_ext 5 6 0 0) unicode_only
    ∷ known "Inno Setup Setup Data (5.6.2)" (inno_version_ext 5 6 2 0) plain
    ∷ known "Inno Setup Setup Data (5.6.2) (u)" (inno_version_ext 5 6 2 0) unicode_only
    ∷ known "Inno Setup Setup Data (6.0.0) (u)" (inno_version_ext 6 0 0 0) unicode_only
    ∷ known "Inno Setup Setup Data (6.1.0) (u)" (inno_version_ext 6 1 0 0) unicode_only
    ∷ []
