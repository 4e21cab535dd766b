-- ===== src/Crypto/Adler32/Tests.antt =====
-- The theorems on the Adler-32 checksum at concrete inputs.
use innoextract_wasm.Base.{ℕ, List, [], ◌∷◌, ◌^◌, ◌≡◌, arith}
use innoextract_wasm.Base.Words.{IsBytes}
use innoextract_wasm.Crypto.Adler32.{update}
use innoextract_wasm.Crypto.Adler32.Growth.{reference}
use innoextract_wasm.Crypto.Adler32.Update.{halves, pack, update-reference}

abbrev adler_bytes : List ℕ
adler_bytes = 1 ∷ 255 ∷ 30 ∷ []

IsBytes-adler : IsBytes adler_bytes
IsBytes-adler = (omega arith, (omega arith, (omega arith, tt)))

update-reference_example : update (2 ^ 64) 1 adler_bytes ≡ pack (reference (halves 1) adler_bytes)
update-reference_example =
    update-reference (2 ^ 64) 1 adler_bytes (omega arith) (omega arith, omega arith) IsBytes-adler
