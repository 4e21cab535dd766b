-- ===== src/Stream/Exe4108/Tests.antt =====
-- The theorems on the decoder of executables at concrete inputs.
use innoextract_wasm.Base.{ℕ, ◌+◌, List, [], ◌∷◌, some, length, suc, ◌≡◌, refl, arith}
use innoextract_wasm.Stream.Exe4108.{closed, Answer, byte, eof, some_or_eof, read}
use innoextract_wasm.Stream.Exe4108.Transform.{decode, encode, decode-encode}
use innoextract_wasm.Stream.Exe4108.Pieces.{Delivers, decoder_behind, read-decode, read-eof}

-- A source that is a list of bytes.
abbrev list_get : List ℕ → Answer × List ℕ
list_get [] = (eof, [])
list_get (b ∷ bytes) = (byte b, bytes)

abbrev call : List ℕ
call = 144 ∷ 232 ∷ 16 ∷ 0 ∷ 0 ∷ []

decode-encode_example : decode closed (encode 0 0 5 call) ≡ call
decode-encode_example =
    decode-encode call (omega arith, (omega arith, (omega arith, (omega arith, (omega arith, tt)))))

read-decode_example : read list_get (length call) closed call ≡ record {
  returned = some (length call);
  written = decode closed call;
  decoder = decoder_behind closed call;
  source = [];
}
unfolding Delivers
read-decode_example =
    read-decode list_get call closed call []
      (_, (refl, (_, (refl, (_, (refl, (_, (refl, (_, (refl, refl))))))))))

read-eof_example : read list_get (length call + suc 3) closed call ≡ record {
  returned = some_or_eof (length call);
  written = decode closed call;
  decoder = decoder_behind closed call;
  source = [];
}
unfolding Delivers
read-eof_example =
    read-eof list_get call 3 closed call [] []
      (_, (refl, (_, (refl, (_, (refl, (_, (refl, (_, (refl, refl)))))))))) refl
