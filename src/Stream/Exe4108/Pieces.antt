-- ===== src/Stream/Exe4108/Pieces.antt =====
-- What `read` of the decoder returns, of a source that delivers bytes and then ends.
use innoextract_wasm.Base.{
  ℕ, suc, ◌+◌, List, [], ◌∷◌, ◌++◌, some, length, ◌≡◌, ap, ap₂, ◌∙◌, append-nil, arith,
}
use innoextract_wasm.Stream.Exe4108.{
  Decoder, decode_byte, Answer, byte, eof, Outcome, some_or_eof, round, read_loop, read,
}
use innoextract_wasm.Stream.Exe4108.Transform.{decode}

-- The decoder behind these bytes.
pub decoder_behind : Decoder → List ℕ → Decoder
decoder_behind d [] = d
decoder_behind d (b ∷ bytes) = decoder_behind (decode_byte d b).1 bytes

abbrev pub prepend : {S : Type 0} → List ℕ → Outcome S → Outcome S
prepend bytes o = record o { written = bytes ++ o.written }

module _ {S : Type 0} (get : S → Answer × S) where
  -- The source answers with these bytes, one after the other, and is then the other source.
  unfoldable pub Delivers : S → List ℕ → S → Type 0
  Delivers src [] left = src ≡ left
  Delivers src (b ∷ bytes) left =
      (next : S) × ((get src ≡ (byte b, next)) × Delivers next bytes left)

  read_loop-byte :
      (b i k : ℕ) (d : Decoder) (src next : S)
      → get src ≡ (byte b, next)
      → read_loop get i (suc k) d src
        ≡ prepend ((decode_byte d b).0 ∷ []) (read_loop get (i + 1) k (decode_byte d b).1 next)
  unfolding read_loop
  read_loop-byte b i k d src next p = ap (λ a. round i d (read_loop get (i + 1) k) a.0 a.1) p

  read_loop-Delivers :
      (bytes : List ℕ) (i k : ℕ) (d : Decoder) (src left : S)
      → Delivers src bytes left
      → read_loop get i (length bytes + k) d src
        ≡ prepend
            (decode d bytes)
            (read_loop get (i + length bytes) k (decoder_behind d bytes) left)
  unfolding Delivers decode decoder_behind
  read_loop-Delivers [] i k d src left p =
      ap (λ n. read_loop get i n d src) {x = 0 + k} {y = k} (omega arith)
      ∙ ap (λ j. read_loop get j k d src) {x = i} {y = i + 0} (omega arith)
      ∙ ap (λ s. read_loop get (i + 0) k d s) p
  read_loop-Delivers (b ∷ bytes) i k d src left (next, (p, q)) =
      ap (λ n. read_loop get i n d src) {x = suc (length bytes) + k} {y = suc (length bytes + k)}
        (omega arith)
      ∙ read_loop-byte b i (length bytes + k) d src next p
      ∙ ap (λ o. prepend ((decode_byte d b).0 ∷ []) o)
          (read_loop-Delivers bytes (i + 1) k (decode_byte d b).1 next left q)
      ∙ ap
          (λ j.
            prepend (decode d (b ∷ bytes)) (read_loop get j k (decoder_behind d (b ∷ bytes)) left))
          {x = i + 1 + length bytes} {y = i + suc (length bytes)} (omega arith)

  -- Asked for as many bytes as the source delivers, `read` returns their number, has written what the
  -- decoder makes of them, and leaves the decoder behind them.
  pub read-decode :
      (bytes : List ℕ) (d : Decoder) (src left : S)
      → Delivers src bytes left
      → read get (length bytes) d src ≡ record {
        returned = some (length bytes);
        written = decode d bytes;
        decoder = decoder_behind d bytes;
        source = left;
      }
  unfolding read read_loop
  read-decode bytes d src left p =
      ap (λ n. read_loop get 0 n d src) {x = length bytes} {y = length bytes + 0} (omega arith)
      ∙ read_loop-Delivers bytes 0 0 d src left p
      ∙ ap₂
          (λ n l. record {
            returned = some n;
            written = l;
            decoder = decoder_behind d bytes;
            source = left;
          })
          {x = 0 + length bytes} {y = length bytes} (omega arith) (append-nil (decode d bytes))

  -- Asked for more bytes than the source delivers before it ends, `read` writes what the decoder makes
  -- of those that are there and returns their number, or `EOF` where there are none.
  pub read-eof :
      (bytes : List ℕ) (k : ℕ) (d : Decoder) (src left end : S)
      → Delivers src bytes left
      → get left ≡ (eof, end)
      → read get (length bytes + suc k) d src ≡ record {
        returned = some_or_eof (length bytes);
        written = decode d bytes;
        decoder = decoder_behind d bytes;
        source = end;
      }
  unfolding read read_loop
  read-eof bytes k d src left end p q =
      read_loop-Delivers bytes 0 (suc k) d src left p
      ∙ ap
          (λ a. prepend (decode d bytes) (
            round (0 + length bytes) (decoder_behind d bytes)
              (read_loop get (0 + length bytes + 1) k) a.0 a.1))
          q
      ∙ ap₂
          (λ n l. record {
            returned = some_or_eof n;
            written = l;
            decoder = decoder_behind d bytes;
            source = end;
          })
          {x = 0 + length bytes} {y = length bytes} (omega arith) (append-nil (decode d bytes))
