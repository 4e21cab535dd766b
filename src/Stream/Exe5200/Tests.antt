-- ===== src/Stream/Exe5200/Tests.antt =====
-- The decoder of src/stream/exefilter.hpp at concrete bytes.
use innoextract_wasm.Base.{ℕ, true, false, List, [], ◌∷◌, ◌≡◌, refl, arith}
use innoextract_wasm.Stream.Block.Stored.{list_fetch}
use innoextract_wasm.Stream.Exe5200.{
  Decoder, closed, initial, transform, fits_block, relative, read, begun, read_loop, round,
  initial_read, address_phase, address_read, flushed,
}
use innoextract_wasm.Stream.Exe5200.Whole.{decode_file, encode_file, decode_file-encode_file}
use innoextract_wasm.Stream.Exe5200.State.{Delivered, list_get, pending}
use innoextract_wasm.Stream.Exe5200.Reads.{read-Delivered}

abbrev a_call : List ℕ
a_call = 0x90 ∷ 0xe8 ∷ 0x06 ∷ 0x10 ∷ 0 ∷ 0 ∷ 0xc3 ∷ []

abbrev new_decoder : Decoder
new_decoder = closed (0 ∷ 0 ∷ 0 ∷ 0 ∷ [])

-- The read ends within the four bytes behind the call.
short_read :
    (read list_get list_fetch false 4 new_decoder a_call).written ≡ 0x90 ∷ 0xe8 ∷ 0x00 ∷ 0x10 ∷ []
unfolding read begun read_loop round initial_read address_phase address_read flushed transform
    closed fits_block relative
short_read = refl

decode_file-encode_file_example : decode_file true 65530 (encode_file true 65530 a_call) ≡ a_call
decode_file-encode_file_example = decode_file-encode_file true 65530 a_call (
  omega arith,
  (omega arith, (omega arith, (omega arith, (omega arith, (omega arith, (omega arith, tt)))))),
)

read-Delivered_example :
    Delivered false 0 4
      (pending false initial new_decoder a_call)
      (read list_get list_fetch false 4 new_decoder a_call)
unfolding closed
read-Delivered_example = read-Delivered false 4 new_decoder a_call (tt, refl)
