-- ===== src/Stream/Exe5200/State.antt =====
-- What is still to come of the decoder of src/stream/exefilter.hpp in a state. The source has all bytes
-- at hand, and gives fewer than it is asked for only at its end.
use innoextract_wasm.Base.{
  ℕ, ◌+◌, ◌-◌, ◌≤◌, ◌<◌, Bool, true, false, List, [], ◌∷◌, ◌++◌, length, take, drop, leb, ◌≡◌, ◌⊎◌,
}
use innoextract_wasm.Base.Words.{u32}
use innoextract_wasm.Stream.Exe4108.{Answer, byte, eof}
use innoextract_wasm.Stream.Exe5200.{
  Phase, initial, address, flush, Decoder, transform, Returned, count_of, end_of_file, out_of_fuel,
  Outcome,
}
use innoextract_wasm.Stream.Exe5200.Whole.{decode_file}

abbrev pub list_get : List ℕ → Answer × List ℕ
list_get [] = (eof, [])
list_get (b ∷ bytes) = (byte b, bytes)

-- What is still to come of a decoder with so many bytes of an address missing: the address, where the
-- source has them, and otherwise what there is of it.
unfoldable pub pending_address : Bool → ℕ → Decoder → List ℕ → List ℕ
pending_address flip missing d bytes =
    let known = take (4 - missing) d.buffer in
    let offset' = u32 (d.offset + missing) in
    elim (leb missing (length bytes)) [
      | true ↦
          transform flip offset' (known ++ take missing bytes)
          ++ decode_file flip offset' (drop missing bytes)
      | false ↦ known ++ bytes
    ]

unfoldable pub pending : Bool → Phase → Decoder → List ℕ → List ℕ
pending flip initial d bytes = decode_file flip d.offset bytes
pending flip (address missing) d bytes = pending_address flip missing d bytes
pending flip (flush count) d bytes = take count d.buffer ++ decode_file flip d.offset bytes

-- The buffer has four bytes, of which as many are missing or to be flushed.
abbrev pub IsPhase : Phase → Type 0
IsPhase initial = Unit {0}
IsPhase (address missing) = (0 < missing) × (missing ≤ 4)
IsPhase (flush count) = (0 < count) × (count ≤ 4)

abbrev pub IsDecoder : Decoder → Type 0
IsDecoder d = IsPhase d.phase × (length d.buffer ≡ 4)

-- The number of bytes, or `EOF` for none.
abbrev pub IsCount : ℕ → Returned → Type 0
IsCount n (count_of i) = i ≡ n
IsCount n end_of_file = n ≡ 0
IsCount n out_of_fuel = ⊥

-- With `total` bytes written before and room for `room` more: what was written, and what is still to
-- come, is what was to come; the room is filled, or the source at its end.
pub record Delivered (flip : Bool) (total room : ℕ) (to_come : List ℕ) (o : Outcome (List ℕ))
    : Type 0 where
  pub conserved : o.written ++ pending flip o.decoder.phase o.decoder o.source ≡ to_come
  pub fits : length o.written ≤ room
  pub counted : IsCount (total + length o.written) o.returned
  pub complete : (length o.written ≡ room) ⊎ (length o.source ≡ 0)
  pub valid : IsDecoder o.decoder
