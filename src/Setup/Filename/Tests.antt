-- ===== src/Setup/Filename/Tests.antt =====
-- The theorems on file names at concrete inputs.
use innoextract_wasm.Base.{ℕ, true, List, [], ◌∷◌, some, ◌≡◌, refl, All}
use innoextract_wasm.Setup.Filename.{FilenameMap, convert, shorten_path, is_unsafe_path_char}
use innoextract_wasm.Setup.Filename.Safe.{IsSafe}
use innoextract_wasm.Setup.Filename.Segments.{join, IsNormal}
use innoextract_wasm.Setup.Filename.Shorten.{normal, shorten_path-normal, convert-IsNormal}

-- "..\a/./b"
abbrev path : List ℕ
path = b'.' ∷ b'.' ∷ b'\\' ∷ b'a' ∷ b'/' ∷ b'.' ∷ b'/' ∷ b'b' ∷ []

-- "{app}\" with the value "x/y" of "app"
abbrev app_map : FilenameMap
app_map = record {
  entries = (b'a' ∷ b'p' ∷ b'p' ∷ [], b'x' ∷ b'/' ∷ b'y' ∷ []) ∷ [];
  lowercase = true;
  expand = true;
}

abbrev app_path : List ℕ
app_path = b'{' ∷ b'A' ∷ b'p' ∷ b'p' ∷ b'}' ∷ b'\\' ∷ path

shorten_path-normal_example :
    (shorten_path path ≡ some (join (normal path))) × All IsNormal (normal path)
shorten_path-normal_example = shorten_path-normal path

convert-IsNormal_example :
    (expanded : List ℕ) × IsSafe expanded
    × (convert app_map app_path ≡ some (join (normal expanded)))
    × All IsNormal (normal expanded)
unfolding is_unsafe_path_char
convert-IsNormal_example = convert-IsNormal app_map app_path refl ((refl, (refl, (refl, tt))), tt)
