-- ===== src/Stream/Slice/Tests.antt =====
-- Reads across slices at concrete files.
use innoextract_wasm.Base.{
  ℕ, ◌+◌, true, false, List, [], ◌∷◌, Option, none, some, length, ◌≡◌, refl, arith,
}
use innoextract_wasm.Crypto.Checksum.{bytes_eq}
use innoextract_wasm.Stream.Slice.{
  SliceReader, ok, open_slice, find_slice, open_file, slice_filename, read, digits, check_size,
  is_slice_id,
}
use innoextract_wasm.Stream.Slice.Places.{at_place, advanced}
use innoextract_wasm.Stream.Slice.Reads.{Holds, IsRead, Returns, read-Holds}

-- A slice with these bytes behind its header.
abbrev slice_of : List ℕ → List ℕ
slice_of bytes =
    b'i' ∷ b'd' ∷ b's' ∷ b'k' ∷ b'a' ∷ b'3' ∷ b'2' ∷ 0x1a ∷ (length bytes + 12) ∷ 0 ∷ 0 ∷ 0 ∷ bytes

-- The second slice of the setup is the only file.
abbrev file : List ℕ → Option (List ℕ)
file name = elim (bytes_eq name (b's' ∷ b'-' ∷ b'2' ∷ b'.' ∷ b'b' ∷ b'i' ∷ b'n' ∷ [])) [
  | true ↦ some (slice_of (4 ∷ 5 ∷ []))
  | false ↦ none
]

-- A reader with one byte of the first slice left.
abbrev reader : SliceReader
reader = record {
  data_offset = 0;
  base_file = b's' ∷ [];
  base_file2 = [];
  slices_per_disk = 1;
  current_slice = 0;
  slice_size = 14;
  embedded = false;
  stream = some (record { content = slice_of (2 ∷ 3 ∷ []); pos = 13; failed = false });
}

second_open :
    open_slice file [] bytes_eq (at_place reader [] 0) 1
    ≡ ok (at_place (advanced reader 14) (slice_of (4 ∷ 5 ∷ [])) 12)
unfolding open_slice find_slice open_file slice_filename digits check_size is_slice_id bytes_eq
second_open = refl

reader-Holds : Holds file [] bytes_eq reader 1 (3 ∷ 4 ∷ 5 ∷ [])
reader-Holds = record {
  content = slice_of (2 ∷ 3 ∷ []);
  pos = 13;
  slices = (4 ∷ 5 ∷ []) ∷ [];
  opened = refl;
  place = record { before = omega arith; inside = omega arith; small = omega arith };
  count = refl;
  following = (
    14,
    slice_of (4 ∷ 5 ∷ []),
    second_open,
    record { before = omega arith; inside = omega arith; small = omega arith },
    refl,
    tt,
  );
  data_left = refl;
  external = refl;
}

read-Holds_example :
    IsRead file [] bytes_eq 2 1 (3 ∷ 4 ∷ 5 ∷ []) (read file [] bytes_eq 3 2 reader)
    × Returns file [] bytes_eq 2 (read file [] bytes_eq 3 2 reader)
read-Holds_example =
    read-Holds file [] bytes_eq 3 2 1 reader (3 ∷ 4 ∷ 5 ∷ []) reader-Holds (omega arith)
      (omega arith)
