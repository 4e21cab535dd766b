-- ===== src/Stream/Exe4108.antt =====
-- The decoder of executables of Inno Setup before 5.2.0: `inno_exe_decoder_4108`
-- (src/stream/exefilter.hpp).
pub mod Transform
pub mod Pieces
pub mod Tests
use innoextract_wasm.Base.{
  ℕ, zero, suc, ◌+◌, ◌-◌, ◌*◌, ◌/◌, ◌%◌, ◌^◌, Bool, true, false, ◌||◌, List, [], ◌∷◌, ◌++◌, Option,
  none, some, ◌==◌, if◌then◌else◌,
}
use innoextract_wasm.Base.Words.{u8, u32}

pub record Decoder : Type 0 where
  pub addr : ℕ
  pub addr_bytes_left : ℕ
  pub addr_offset : ℕ

-- `close`, which the constructor calls as well
abbrev pub closed : Decoder
closed = record { addr = 0; addr_bytes_left = 0; addr_offset = 5 }

-- The first byte of a CALL or a JMP.
abbrev pub is_call : ℕ → Bool
is_call byte = byte == 232 || byte == 233

-- One round of the loop of `read` that is given a byte: what it writes, and what it leaves behind,
-- the step of the offset included.
unfoldable pub decode_byte : Decoder → ℕ → ℕ × Decoder
decode_byte d byte = elim d.addr_bytes_left [
  | zero ↦ (
    byte,
    (if is_call byte
        then (record d {
          addr = u32 (2 ^ 32 - d.addr_offset);
          addr_bytes_left = 4;
          addr_offset = u32 (d.addr_offset + 1);
        })
        else record d { addr_offset = u32 (d.addr_offset + 1) }),
  )
  | suc left ↦ (
    u8 (u32 (d.addr + byte)),
    record {
      addr = u32 (d.addr + byte) / 2 ^ 8;
      addr_bytes_left = left;
      addr_offset = u32 (d.addr_offset + 1);
    },
  )
]

-- What `boost::iostreams::get` answers.
pub data Answer : Type 0 where
  byte : ℕ → Answer
  eof : Answer
  would_block : Answer

-- What `read` leaves behind: the number that it returns, `none` for `EOF`, and what it wrote.
pub record Outcome (S : Type 0) : Type 0 where
  pub returned : Option ℕ
  pub written : List ℕ
  pub decoder : Decoder
  pub source : S

abbrev pub some_or_eof : ℕ → Option ℕ
some_or_eof zero = none
some_or_eof (suc i) = some (suc i)

-- A round of the loop of `read`, of which `i` are done, with the answer of the source; `later` is the
-- rest of the loop.
abbrev pub round : {S : Type 0} → ℕ → Decoder → (Decoder → S → Outcome S) → Answer → S → Outcome S
round i d later eof src = record {
  returned = some_or_eof i;
  written = [];
  decoder = d;
  source = src;
}
round i d later would_block src = record {
  returned = some i;
  written = [];
  decoder = d;
  source = src;
}
round i d later (byte b) src =
    let step = decode_byte d b in
    let rest = later step.1 src in record rest { written = step.0 ∷ rest.written }

-- The source is a parameter: its `get` answers and moves on.
module _ {S : Type 0} (get : S → Answer × S) where
  -- The loop of `read`, of which `i` rounds are done and `left` are to come.
  unfoldable pub read_loop : ℕ → ℕ → Decoder → S → Outcome S
  read_loop i zero d src = record { returned = some i; written = []; decoder = d; source = src }
  read_loop i (suc left) d src =
      let (answer, src') = get src in round i d (read_loop (i + 1) left) answer src'

  unfoldable pub read : ℕ → Decoder → S → Outcome S
  read n d src = read_loop 0 n d src
