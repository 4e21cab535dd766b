-- ===== src/Stream/Slice.antt =====
-- The slices of an installer: `slice_reader` (src/stream/slice.cpp, src/stream/slice.hpp). The files of
-- the directory and `boost::iequals` are parameters. An exception leaves no reader behind.
pub mod Places
pub mod Reads
pub mod Tests
use innoextract_wasm.Base.{
  ℕ, zero, suc, ◌+◌, ◌-◌, ◌/◌, ◌%◌, ◌^◌, min, Bool, true, false, not, ◌&&◌, ◌||◌, List, [], ◌∷◌,
  ◌++◌, Option, none, some, length, take, drop, ltb, ◌==◌, if◌then◌else◌,
}
use innoextract_wasm.Base.Words.{u8, u32, load32}
use innoextract_wasm.Crypto.Checksum.{bytes_eq}

pub data SliceError : Type 0 where
  cannot_change_slices : SliceError
  could_not_read_magic : SliceError
  could_not_read_size : SliceError
  bad_slice_size : SliceError
  zero_slices_per_disk : SliceError
  could_not_open_slice : SliceError

-- `unknown_magic` is a read past the end of `slice_ids`, which has no defined result.
pub data Result (A : Type 0) : Type 0 where
  ok : A → Result A
  throw : SliceError → Result A
  unknown_magic : Result A

-- An open file.
pub record Stream : Type 0 where
  pub content : List ℕ
  pub pos : ℕ
  pub failed : Bool

-- `embedded` tells that `is` is not `&ifs`; a closed `ifs` is `none`.
pub record SliceReader : Type 0 where
  pub data_offset : ℕ
  pub base_file : List ℕ
  pub base_file2 : List ℕ
  pub slices_per_disk : ℕ
  pub current_slice : ℕ
  pub slice_size : ℕ
  pub embedded : Bool
  pub stream : Option Stream

-- The constructor for data in the installer itself, which `seekg` finds there.
abbrev pub embedded_reader : List ℕ → ℕ → SliceReader
embedded_reader content offset = record {
  data_offset = offset;
  base_file = [];
  base_file2 = [];
  slices_per_disk = 1;
  current_slice = 0;
  slice_size = min (length content) (2 ^ 31 - 1);
  embedded = true;
  stream = some (record { content = content; pos = offset; failed = false });
}

-- The constructor for slices in files of their own.
abbrev pub external_reader : List ℕ → List ℕ → ℕ → SliceReader
external_reader basename basename2 disk_slice_count = record {
  data_offset = 0;
  base_file = basename;
  base_file2 = basename2;
  slices_per_disk = disk_slice_count;
  current_slice = 0;
  slice_size = 0;
  embedded = false;
  stream = none;
}

abbrev pub slice_ids : List (List ℕ)
slice_ids =
    (b'i' ∷ b'd' ∷ b's' ∷ b'k' ∷ b'a' ∷ b'1' ∷ b'6' ∷ 0x1a ∷ [])
    ∷ (b'i' ∷ b'd' ∷ b's' ∷ b'k' ∷ b'a' ∷ b'3' ∷ b'2' ∷ 0x1a ∷ [])
    ∷ []

pub is_slice_id : List ℕ → List (List ℕ) → Bool
is_slice_id magic [] = false
is_slice_id magic (id ∷ ids) = bytes_eq magic id || is_slice_id magic ids

-- The size of the slice, at place 8 of its file.
pub check_size : List ℕ → List ℕ → Result (Option (ℕ × List ℕ))
check_size content (x ∷ y ∷ z ∷ w ∷ rest) =
    let size = load32 x y z w in
    if ltb (length content) size || ltb size 12
    then throw bad_slice_size
    else ok (some (size, content))
check_size content bytes = throw could_not_read_size

-- `open_file`: the size of the slice and the file, or none where there is no such file.
pub open_file : Option (List ℕ) → Result (Option (ℕ × List ℕ))
open_file none = ok none
open_file (some content) =
    if ltb (length content) 8
    then throw could_not_read_magic
    else if is_slice_id (take 8 content) slice_ids
    then check_size content (drop 8 content)
    else unknown_magic

pub digits : ℕ → ℕ → List ℕ
digits zero n = []
digits (suc fuel) n =
    let higher = digits fuel (n / 10) in (if ltb n 10 then [] else higher) ++ (b'0' + n % 10) ∷ []

-- A number as it is printed.
abbrev pub decimal : ℕ → List ℕ
decimal n = digits (suc n) n

-- The name of a slice, with at least one slice on a disk.
pub slice_filename : List ℕ → ℕ → ℕ → List ℕ
slice_filename basename slice slices_per_disk =
    basename
    ++ b'-'
      ∷ (if slices_per_disk == 1
          then decimal (slice + 1)
          else decimal (slice / slices_per_disk + 1) ++ u8 (b'a' + slice % slices_per_disk) ∷ [])
    ++ b'.' ∷ b'b' ∷ b'i' ∷ b'n' ∷ []

-- The next attempt, where a file was not found.
abbrev pub or_else :
    Result (Option (ℕ × List ℕ)) → Result (Option (ℕ × List ℕ)) → Result (Option (ℕ × List ℕ))
or_else (ok none) second = second
or_else (ok (some found)) second = ok (some found)
or_else (throw e) second = throw e
or_else unknown_magic second = unknown_magic

abbrev pub map_ok : {A B : Type 0} → (A → B) → Result A → Result B
map_ok f (ok a) = ok (f a)
map_ok f (throw e) = throw e
map_ok f unknown_magic = unknown_magic

-- A slice that was found, open behind its header.
abbrev pub opened : SliceReader → ℕ → Result (Option (ℕ × List ℕ)) → Result SliceReader
opened r slice (ok none) = throw could_not_open_slice
opened r slice (ok (some (size, content))) = ok (record r {
  current_slice = slice;
  slice_size = size;
  embedded = false;
  stream = some (record { content = content; pos = 12; failed = false });
})
opened r slice (throw e) = throw e
opened r slice unknown_magic = unknown_magic

abbrev pub is_open : SliceReader → Bool
is_open r = r.embedded || elim r.stream [ none ↦ false | some s ↦ true ]

-- `tellg`, which is -1 behind a failure.
abbrev pub read_pos : Option Stream → ℕ
read_pos none = 2 ^ 32 - 1
read_pos (some s) = if s.failed then 2 ^ 32 - 1 else u32 s.pos

-- `seekg`, which does nothing behind a failure; it may go past the end.
abbrev pub seek_stream : SliceReader → ℕ → Option Stream → Bool × SliceReader
seek_stream r offset none = (false, r)
seek_stream r offset (some s) =
    if s.failed then (false, r) else (true, record r { stream = some (record s { pos = offset }) })

abbrev pub seek_within : ℕ → SliceReader → Bool × SliceReader
seek_within offset r =
    let offset' = u32 (offset + r.data_offset) in
    if ltb r.slice_size offset' then (false, r) else seek_stream r offset' r.stream

-- What `read` leaves: the bytes that it wrote, how many it did not, and the reader.
pub data Outcome : Type 0 where
  stopped : List ℕ → ℕ → SliceReader → Outcome
  thrown : SliceError → Outcome
  past_the_array : Outcome
  out_of_fuel : Outcome

-- `(nread != 0 || bytes == 0) ? nread : -1`, where `none` is -1
unfoldable pub returned : List ℕ → ℕ → Option ℕ
returned written left =
    if not (length written == 0) || (left == 0) then some (length written) else none

abbrev pub preceded : List ℕ → Outcome → Outcome
preceded bytes (stopped written left r) = stopped (bytes ++ written) left r
preceded bytes (thrown e) = thrown e
preceded bytes past_the_array = past_the_array
preceded bytes out_of_fuel = out_of_fuel

-- The read of a round, of at most `n` bytes.
unfoldable pub copied : (ℕ → SliceReader → Outcome) → ℕ → SliceReader → Option Stream → Outcome
copied later n r none = stopped [] n r
copied later n r (some s) =
    let toread = min (r.slice_size - read_pos (some s)) n in
    elim (ltb (length s.content) (s.pos + toread)) [
      | true ↦ stopped [] n (record r { stream = some (record s { failed = true }) })
      | false ↦
          preceded (take toread (drop s.pos s.content))
            (later (n - toread) (record r { stream = some (record s { pos = s.pos + toread }) }))
    ]

-- `if(read_pos > slice_size) break`
unfoldable pub within : (ℕ → SliceReader → Outcome) → ℕ → SliceReader → Outcome
within later n r = elim (ltb r.slice_size (read_pos r.stream)) [
  | true ↦ stopped [] n r
  | false ↦ copied later n r r.stream
]

unfoldable pub next : (ℕ → SliceReader → Outcome) → ℕ → Result SliceReader → Outcome
next later n (ok r) = within later n r
next later n (throw e) = thrown e
next later n unknown_magic = past_the_array

-- `file` opens a file of the directory, which has the files `names`.
module _ (file : List ℕ → Option (List ℕ)) (names : List (List ℕ))
    (iequals : List ℕ → List ℕ → Bool) where
  pub open_file_case_insensitive : List (List ℕ) → List ℕ → Result (Option (ℕ × List ℕ))
  open_file_case_insensitive [] filename = ok none
  open_file_case_insensitive (name ∷ more) filename =
      let rest = open_file_case_insensitive more filename in
      if iequals name filename then or_else (open_file (file name)) rest else rest

  -- The attempts of `open`, with the second name where it is another one.
  pub find_slice : List ℕ → List ℕ → Bool → Result (Option (ℕ × List ℕ))
  find_slice slice_file slice_file2 second = or_else (open_file (file slice_file)) (
      or_else (if second then open_file (file slice_file2) else ok none) (
        or_else (open_file_case_insensitive names slice_file)
          (if second then open_file_case_insensitive names slice_file2 else ok none)))

  unfoldable pub open_slice : SliceReader → ℕ → Result SliceReader
  open_slice r slice =
      let slice_file = slice_filename r.base_file slice r.slices_per_disk in
      let slice_file2 = slice_filename r.base_file2 slice r.slices_per_disk in
      if r.slices_per_disk == 0
      then throw zero_slices_per_disk
      else opened r slice (
          find_slice slice_file slice_file2
            (not (length r.base_file2 == 0) && not (bytes_eq slice_file2 slice_file)))

  -- `seek(slice)`
  unfoldable pub seek : SliceReader → ℕ → Result SliceReader
  seek r slice =
      if (slice == r.current_slice) && is_open r
      then ok r
      else if r.data_offset == 0
      then open_slice r slice
      else throw cannot_change_slices

  -- `seek(slice, offset)`
  pub seek_to : SliceReader → ℕ → ℕ → Result (Bool × SliceReader)
  seek_to r slice offset = map_ok (seek_within offset) (seek r slice)

  -- `while(bytes > 0)`, with fuel for its rounds: a round reads a byte, or opens a slice.
  unfoldable pub read_loop : ℕ → ℕ → SliceReader → Outcome
  read_loop fuel zero r = stopped [] zero r
  read_loop zero (suc n) r = out_of_fuel
  read_loop (suc fuel) (suc n) r = elim (r.slice_size == read_pos r.stream) [
    | true ↦ next (read_loop fuel) (suc n) (seek r (r.current_slice + 1))
    | false ↦ within (read_loop fuel) (suc n) r
  ]

  abbrev pub read_from : ℕ → ℕ → Result SliceReader → Outcome
  read_from fuel n (ok r) = read_loop fuel n r
  read_from fuel n (throw e) = thrown e
  read_from fuel n unknown_magic = past_the_array

  -- It returns what `returned` says of the bytes that it wrote and of the number that it did not.
  unfoldable pub read : ℕ → ℕ → SliceReader → Outcome
  read fuel n r = read_from fuel n (seek r r.current_slice)
