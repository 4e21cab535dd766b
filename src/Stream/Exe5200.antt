-- ===== src/Stream/Exe5200.antt =====
-- The decoder of executables of Inno Setup from 5.2.0 on: `inno_exe_decoder_5200`
-- (src/stream/exefilter.hpp).
pub mod Whole
pub mod State
pub mod Pending
pub mod Delivers
pub mod Reads
pub mod Tests
use innoextract_wasm.Base.{
  ℕ, zero, suc, ◌+◌, ◌-◌, ◌*◌, ◌/◌, ◌%◌, ◌^◌, Bool, true, false, not, ◌&&◌, ◌||◌, List, [], ◌∷◌,
  ◌++◌, Option, none, some, length, take, drop, leb, ltb, ◌==◌, if◌then◌else◌,
}
use innoextract_wasm.Base.Words.{u8, u32}
use innoextract_wasm.Stream.Exe4108.{Answer, byte, eof, would_block, is_call}

abbrev pub block_size : ℕ
block_size = 0x10000

-- `flush_bytes`: 0 is `initial`, -k is `address k`, and k is `flush k`.
pub data Phase : Type 0 where
  initial : Phase
  address : ℕ → Phase
  flush : ℕ → Phase

pub record Decoder : Type 0 where
  pub offset : ℕ
  pub phase : Phase
  pub buffer : List ℕ

-- `close`, which the constructor calls as well; it leaves the buffer as it is.
pub closed : List ℕ → Decoder
closed buffer = record { offset = 0; phase = initial; buffer = buffer }

-- Whether an instruction that starts with the byte before `offset` fits its block.
unfoldable pub fits_block : ℕ → Bool
fits_block offset = not (ltb (block_size - u32 (offset + 2 ^ 32 - 1) % block_size) 5)

-- The three low bytes of an address as a number.
abbrev pub load24 : ℕ → ℕ → ℕ → ℕ
load24 x y z = x + y * 2 ^ 8 + z * 2 ^ 16

-- The high byte, flipped where bit 23 is set.
unfoldable pub flipped : Bool → ℕ → ℕ → ℕ
flipped flip_high_byte rel w = if flip_high_byte && (rel / 2 ^ 23 % 2 == 1) then 255 - w else w

unfoldable pub relative : ℕ → ℕ → ℕ
relative offset absolute = u32 (absolute + 2 ^ 32 - offset % 2 ^ 24)

-- The four bytes in the buffer, at an offset behind them.
unfoldable pub transform : Bool → ℕ → List ℕ → List ℕ
transform flip_high_byte offset (x ∷ y ∷ z ∷ w ∷ []) =
    let rel = relative offset (load24 x y z) in
    if w == 0x00 || w == 0xff
    then u8 rel ∷ u8 (rel / 2 ^ 8) ∷ u8 (rel / 2 ^ 16) ∷ flipped flip_high_byte rel w ∷ []
    else x ∷ y ∷ z ∷ w ∷ []
transform flip_high_byte offset buffer = buffer

-- What `read` returns: a number of bytes, or `EOF`.
pub data Returned : Type 0 where
  count_of : ℕ → Returned
  end_of_file : Returned
  out_of_fuel : Returned

-- What `read` leaves behind, and what it wrote.
pub record Outcome (S : Type 0) : Type 0 where
  pub returned : Returned
  pub written : List ℕ
  pub decoder : Decoder
  pub source : S

-- `total_read ? total_read : EOF`
abbrev pub some_or_eof : ℕ → Returned
some_or_eof zero = end_of_file
some_or_eof (suc i) = count_of (suc i)

abbrev pub stopped : {S : Type 0} → Returned → Decoder → S → Outcome S
stopped count d src = record { returned = count; written = []; decoder = d; source = src }

abbrev pub preceded : {S : Type 0} → List ℕ → Outcome S → Outcome S
preceded bytes o = record o { written = bytes ++ o.written }

-- `flush(count)` with room for `room` bytes, of which `total` were written before: where the room does
-- not do, `read` returns; otherwise `later` goes on with the room that is left.
unfoldable pub flushed :
    {S : Type 0} → ℕ → ℕ → ℕ → Decoder → S → (ℕ → ℕ → Decoder → S → Outcome S) → Outcome S
flushed total room count d src later = elim (leb count room) [
  | true ↦
      preceded (take count d.buffer)
        (later (total + count) (room - count) (record d { phase = initial }) src)
  | false ↦ preceded (take room d.buffer) (
      stopped (count_of (total + room))
        (record d {
          phase = flush (count - room);
          buffer = take (count - room) (drop room d.buffer) ++ drop (count - room) d.buffer;
        })
        src)
]

-- The source has the `get` and the `read` of boost::iostreams; `none` is `EOF`.
module _ {S : Type 0} (get : S → Answer × S) (fetch : ℕ → S → Option (List ℕ) × S)
    (flip_high_byte : Bool) where
  -- Behind the attempt to read the `missing` bytes of an address. At an end of the file where none was
  -- read, nothing is flushed, and the phase stays.
  unfoldable pub address_read :
      (ℕ → ℕ → Decoder → S → Outcome S) → ℕ → ℕ → ℕ → Decoder → Option (List ℕ) → S → Outcome S
  address_read later total room missing d none src =
      if missing == 4
      then stopped (some_or_eof total) (record d { phase = address missing }) src
      else flushed total room (4 - missing) d src
          (λ total' room' d' src'. stopped (some_or_eof total') d' src')
  address_read later total room missing d (some bytes) src =
      let d' = record d {
        offset = u32 (d.offset + length bytes);
        buffer =
            take (4 - missing) d.buffer ++ (bytes ++ drop (4 - missing + length bytes) d.buffer);
      } in
      elim (length bytes == missing) [
        | true ↦
            flushed total room 4
              (record d' { buffer = transform flip_high_byte d'.offset d'.buffer }) src later
        | false ↦
            stopped (count_of total) (record d' { phase = address (missing - length bytes) }) src
      ]

  unfoldable pub address_phase :
      (ℕ → ℕ → Decoder → S → Outcome S) → ℕ → ℕ → ℕ → Decoder → S → Outcome S
  address_phase later total room missing d src =
      let (bytes, src') = fetch missing src in address_read later total room missing d bytes src'

  -- Behind the attempt to get a byte, with room for `suc room` bytes. The address is read in the same
  -- round, where there is room left or not.
  unfoldable pub initial_read :
      (ℕ → ℕ → Decoder → S → Outcome S) → ℕ → ℕ → Decoder → Answer → S → Outcome S
  initial_read later total room d eof src = stopped (some_or_eof total) d src
  initial_read later total room d would_block src = stopped (count_of total) d src
  initial_read later total room d (byte b) src =
      let d' = record d { offset = u32 (d.offset + 1) } in
      preceded (b ∷ []) (elim (is_call b && fits_block d'.offset) [
        | true ↦ address_phase later (total + 1) room 4 (record d' { phase = address 4 }) src
        | false ↦ later (total + 1) room d' src
      ])

  unfoldable pub round : (ℕ → ℕ → Decoder → S → Outcome S) → Phase → ℕ → ℕ → Decoder → S → Outcome S
  round later initial total room d src =
      let (answer, src') = get src in initial_read later total room d answer src'
  round later (address missing) total room d src =
      address_phase later total (suc room) missing d src
  round later (flush count) total room d src = stopped (count_of total) d src

  -- `while(dest != end)`: every round writes a byte, or returns. The phase is not `flush` here, which
  -- the assertion says.
  unfoldable pub read_loop : ℕ → ℕ → ℕ → Decoder → S → Outcome S
  read_loop fuel total zero d src = stopped (count_of total) d src
  read_loop zero total (suc room) d src = stopped out_of_fuel d src
  read_loop (suc fuel) total (suc room) d src = round (read_loop fuel) d.phase total room d src

  -- The flush before the loop.
  unfoldable pub begun : ℕ → Phase → Decoder → S → Outcome S
  begun n initial d src = read_loop n 0 n d src
  begun n (address missing) d src = read_loop n 0 n d src
  begun n (flush count) d src = flushed 0 n count d src (read_loop n)

  unfoldable pub read : ℕ → Decoder → S → Outcome S
  read n d src = begun n d.phase d src
