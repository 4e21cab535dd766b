-- ===== src/Setup/Load/Tests.antt =====
-- The theorems on reading at concrete inputs.
use innoextract_wasm.Base.{ℕ, List, [], ◌∷◌, true, ◌≡◌, arith}
use innoextract_wasm.Setup.Load.{read, binary_loop}
use innoextract_wasm.Setup.Load.Pieces.{binary_loop-read}
use innoextract_wasm.Setup.Load.Flags.{stored_flags, flag_reader}
use innoextract_wasm.Setup.Load.Flags.Agree.{flag_reader-stored_flags}

-- Seventeen flags, of three bytes and one of padding.
abbrev many : List ℕ
many = 0 ∷ 1 ∷ 2 ∷ 3 ∷ 4 ∷ 5 ∷ 6 ∷ 7 ∷ 8 ∷ 9 ∷ 10 ∷ 11 ∷ 12 ∷ 13 ∷ 14 ∷ 15 ∷ 16 ∷ []

abbrev flag_bytes : List ℕ
flag_bytes = 5 ∷ 130 ∷ 1 ∷ 0 ∷ []

flag_reader-stored_flags_example :
    flag_reader true many flag_bytes ≡ stored_flags true many flag_bytes
flag_reader-stored_flags_example =
    flag_reader-stored_flags true many flag_bytes (omega arith)
      (omega arith, (omega arith, (omega arith, (omega arith, tt))))

binary_loop-read_example : binary_loop 3 3 flag_bytes ≡ read 3 flag_bytes
binary_loop-read_example = binary_loop-read 3 3 flag_bytes (omega arith)
