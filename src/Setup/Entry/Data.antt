-- ===== src/Setup/Entry/Data.antt =====
-- Locations of file data (src/setup/data.cpp, src/setup/data.hpp, src/stream/chunk.hpp,
-- src/stream/file.hpp, and `get_bits` of src/util/load.hpp).
pub mod Times
pub mod Tests
use innoextract_wasm.Base.{
  ℕ, ◌+◌, ◌-◌, ◌*◌, ◌/◌, ◌%◌, ◌^◌, Bool, true, false, not, ◌&&◌, ◌||◌, List, [], ◌∷◌, ◌++◌, bit_and,
  ltb, if◌then◌else◌,
}
use innoextract_wasm.Crypto.Checksum.{Checksum, adler32_sum, crc32_sum, md5_sum, sha1_sum}
use innoextract_wasm.Setup.Load.{
  Reader, give, ◌>>=◌, field_if, read, load_u16, load_u32, load_u64, load_bits,
}
use innoextract_wasm.Setup.Load.Flags.{flag_reader, flag_if, contains}
use innoextract_wasm.Setup.Version.{Version, is_16_bit, at_least}
use innoextract_wasm.Setup.Header.Kinds.{CompressionMethod, stored, bzip2}

-- `data_entry::flags`
pub data DataFlag : Type 0 where
  version_info_valid : DataFlag
  version_info_not_valid : DataFlag
  time_stamp_in_utc : DataFlag
  is_uninstaller_exe : DataFlag
  call_instruction_optimized : DataFlag
  touch : DataFlag
  chunk_encrypted : DataFlag
  chunk_compressed : DataFlag
  solid_break : DataFlag
  sign : DataFlag
  sign_once : DataFlag
  bzipped : DataFlag

-- The place of a flag in the enumeration.
pub data_flag_index : DataFlag → ℕ
data_flag_index version_info_valid = 0
data_flag_index version_info_not_valid = 1
data_flag_index time_stamp_in_utc = 2
data_flag_index is_uninstaller_exe = 3
data_flag_index call_instruction_optimized = 4
data_flag_index touch = 5
data_flag_index chunk_encrypted = 6
data_flag_index chunk_compressed = 7
data_flag_index solid_break = 8
data_flag_index sign = 9
data_flag_index sign_once = 10
data_flag_index bzipped = 11

-- `options & flag`
pub has : DataFlag → List DataFlag → Bool
has = contains data_flag_index

pub data EncryptionMethod : Type 0 where
  plaintext : EncryptionMethod
  arc4_md5 : EncryptionMethod
  arc4_sha1 : EncryptionMethod

pub data CompressionFilter : Type 0 where
  no_filter : CompressionFilter
  instruction_filter_4108 : CompressionFilter
  instruction_filter_5200 : CompressionFilter
  instruction_filter_5309 : CompressionFilter
  zlib_filter : CompressionFilter

-- `stream::chunk`
pub record Chunk : Type 0 where
  pub first_slice : ℕ
  pub last_slice : ℕ
  pub sort_offset : ℕ
  pub offset : ℕ
  pub size : ℕ
  pub compression : CompressionMethod
  pub encryption : EncryptionMethod

-- `stream::file`
pub record File : Type 0 where
  pub offset : ℕ
  pub size : ℕ
  pub checksum : Checksum
  pub filter : CompressionFilter

pub record Timestamp : Type 0 where
  pub timestamp : ℕ
  pub timestamp_nsec : ℕ

pub record DataEntry : Type 0 where
  pub chunk : Chunk
  pub file : File
  pub uncompressed_size : ℕ
  pub time : Timestamp
  pub file_version : ℕ
  pub options : List DataFlag

-- `get_bits` of an unsigned number: bits `first` to `last`
pub get_bits : ℕ → ℕ → ℕ → ℕ
get_bits number first last = bit_and (number / 2 ^ first) (2 ^ (last - first + 1) - 1)

-- `struct tm`, without the fields that stay 0
pub record Tm : Type 0 where
  pub tm_sec : ℕ
  pub tm_min : ℕ
  pub tm_hour : ℕ
  pub tm_mday : ℕ
  pub tm_mon : ℕ
  pub tm_year : ℕ

-- The FAT format of a time and a date; month 0 gives the bit pattern of -1.
pub fat_time : ℕ → ℕ → Tm
unfolding get_bits
fat_time time date = record {
  tm_sec = get_bits time 0 4 * 2;
  tm_min = get_bits time 5 10;
  tm_hour = get_bits time 11 15;
  tm_mday = get_bits date 0 4;
  tm_mon = (get_bits date 5 8 + 2 ^ 32 - 1) % 2 ^ 32;
  tm_year = get_bits date 9 15 + 1980 - 1900;
}

-- `FiletimeOffset`
abbrev pub filetime_offset : ℕ
filetime_offset = 0x19DB1DED53E8000

-- Division by ten million and its remainder, of a signed number: towards zero. The subtraction, whose
-- overflow C++ leaves undefined, wraps around here. The code logs a warning about a number that is
-- negative behind it.
pub from_filetime : ℕ → Timestamp
from_filetime filetime =
    let t = (filetime + 2 ^ 64 - filetime_offset) % 2 ^ 64 in
    if ltb t (2 ^ 63)
    then record { timestamp = t / 10000000; timestamp_nsec = t % 10000000 * 100 % 2 ^ 32 }
    else record {
      timestamp = (2 ^ 64 - (2 ^ 64 - t) / 10000000) % 2 ^ 64;
      timestamp_nsec = (2 ^ 32 - (2 ^ 64 - t) % 10000000) * 100 % 2 ^ 32;
    }

-- `parse_time` of src/util/time.cpp is the system's `timegm`.
unfoldable pub load_time : (Tm → ℕ) → Version → Reader Timestamp
load_time parse_time v =
    if is_16_bit v
    then (do
      time ← load_u16
      date ← load_u16
      give (record { timestamp = parse_time (fat_time time date); timestamp_nsec = 0 }))
    else (do filetime ← load_u64; give (from_filetime filetime))

unfoldable pub load_checksum : Version → Reader Checksum
load_checksum v =
    if at_least v 5 3 9
    then (do bytes ← read 20; give (sha1_sum bytes))
    else if at_least v 4 2 0
    then (do bytes ← read 16; give (md5_sum bytes))
    else if at_least v 4 0 1
    then (do crc ← load_u32; give (crc32_sum crc))
    else (do sum ← load_u32; give (adler32_sum sum))

-- Before version 4.0.0 slices are counted from 1.
pub from_one : Version → ℕ → ℕ → ℕ × ℕ
from_one v first last =
    if not (at_least v 4 0 0) && not (ltb first 1 || ltb last 1)
    then (first - 1, last - 1)
    else (first, last)

-- The flags that are added to the reader.
abbrev pub data_flags : Version → List DataFlag
data_flags v =
    version_info_valid ∷ []
    ++ version_info_not_valid ∷ []
    ++ flag_if (at_least v 2 0 17 && not (at_least v 4 0 1)) bzipped
    ++ flag_if (at_least v 4 0 10) time_stamp_in_utc
    ++ flag_if (at_least v 4 1 0) is_uninstaller_exe
    ++ flag_if (at_least v 4 1 8) call_instruction_optimized
    ++ flag_if (at_least v 4 2 0) touch
    ++ flag_if (at_least v 4 2 2) chunk_encrypted
    ++ flag_if (at_least v 4 2 5) chunk_compressed
    ++ flag_if (at_least v 5 1 13) solid_break
    ++ flag_if (at_least v 5 5 7) sign
    ++ flag_if (at_least v 5 5 7) sign_once

-- The options, with what is implied of versions that do not store it.
pub data_options : Version → List DataFlag → List DataFlag
data_options v stored_options =
    let options = flag_if (not (at_least v 4 2 5)) chunk_compressed ++ stored_options in
    if has bzipped options then chunk_compressed ∷ options else options

-- `header_compression` is the method that the header names.
pub chunk_compression : CompressionMethod → List DataFlag → CompressionMethod
chunk_compression header_compression options =
    if has bzipped options
    then bzip2
    else if has chunk_compressed options
    then header_compression
    else stored

pub chunk_encryption : Version → List DataFlag → EncryptionMethod
chunk_encryption v options =
    if has chunk_encrypted options
    then (if at_least v 5 3 9 then arc4_sha1 else arc4_md5)
    else plaintext

pub file_filter : Version → List DataFlag → CompressionFilter
file_filter v options =
    if has call_instruction_optimized options
    then (if not (at_least v 5 2 0)
        then instruction_filter_4108
        else if not (at_least v 5 3 9)
        then instruction_filter_5200
        else instruction_filter_5309)
    else no_filter

unfoldable pub load_data_entry : (Tm → ℕ) → Version → CompressionMethod → Reader DataEntry
load_data_entry parse_time v header_compression = do
  first_stored ← load_bits (is_16_bit v)
  last_stored ← load_bits (is_16_bit v)
  let slices = from_one v first_stored last_stored
  chunk_offset ← load_u32
  file_offset ← field_if (at_least v 4 0 1) load_u64 0
  file_size ← (if at_least v 4 0 0 then load_u64 else load_u32)
  chunk_size ← (if at_least v 4 0 0 then load_u64 else load_u32)
  sum ← load_checksum v
  time ← load_time parse_time v
  version_ms ← load_u32
  version_ls ← load_u32
  stored_options ← flag_reader (not (is_16_bit v)) (data_flags v)
  let options = data_options v stored_options
  give (record {
    chunk = record {
      first_slice = slices.0;
      last_slice = slices.1;
      sort_offset = chunk_offset;
      offset = chunk_offset;
      size = chunk_size;
      compression = chunk_compression header_compression options;
      encryption = chunk_encryption v options;
    };
    file = record {
      offset = file_offset;
      size = file_size;
      checksum = sum;
      filter = file_filter v options;
    };
    uncompressed_size = file_size;
    time = time;
    file_version = version_ms * 2 ^ 32 + version_ls;
    options = options;
  })
