-- ===== src/Stream/Exe4108/Transform.antt =====
-- What the decoder undoes: the addresses of calls made absolute.
use innoextract_wasm.Base.{
  ◌||◌, ◌==◌, ℕ, zero, suc, ◌+◌, ◌-◌, ◌*◌, ◌/◌, ◌%◌, ◌^◌, ◌≤◌, ◌<◌, Bool, true, false, List, [],
  ◌∷◌, if◌then◌else◌, ◌≡◌, refl, ap, ap₂, ◌∙◌, arith, take,
}
use innoextract_wasm.Base.Words.{u8, u32, IsByte, IsBytes, load32, store32}
use innoextract_wasm.Stream.Exe4108.{Decoder, closed, decode_byte}

-- The decoder on a whole list of bytes.
unfoldable pub decode : Decoder → List ℕ → List ℕ
unfolding decode_byte
decode d [] = []
decode d (b ∷ bytes) = (decode_byte d b).0 ∷ decode (decode_byte d b).1 bytes

-- The opcodes of CALL and JMP with an address behind them.
abbrev pub starts_call : ℕ → Bool
starts_call b = b == 0xe8 || b == 0xe9

-- The transformation of the compiler, as the decoder's own automaton with the offset added: `carry`
-- is what is still to be added to the next `left` bytes of an address.
pub encode : (carry left offset : ℕ) → List ℕ → List ℕ
encode carry left offset [] = []
encode carry zero offset (b ∷ bytes) =
    b
    ∷ encode (if starts_call b then offset else 0) (if starts_call b then 4 else 0)
        (u32 (offset + 1)) bytes
encode carry (suc left) offset (b ∷ bytes) =
    u8 (carry + b) ∷ encode ((carry + b) / 2 ^ 8) left (u32 (offset + 1)) bytes

abbrev pub decoder_at : (addr left offset : ℕ) → Decoder
decoder_at addr left offset = record { addr = addr; addr_bytes_left = left; addr_offset = offset }

-- A decoder and an encoder at the same place: what the one still adds cancels what the other does,
-- up to the bytes that are left.
abbrev InStep : (addr carry left offset : ℕ) → Type 0
InStep addr carry left offset =
    (left ≤ 4) × (offset < 2 ^ 32) × ((addr + carry) % 2 ^ (8 * left) ≡ 0)

cancel :
    (left addr carry b : ℕ)
    → left ≤ 3
    → (addr + carry) % 2 ^ (8 * suc left) ≡ 0
    → IsByte b
    → (u8 (u32 (addr + u8 (carry + b))) ≡ b)
      × ((u32 (addr + u8 (carry + b)) / 2 ^ 8 + (carry + b) / 2 ^ 8) % 2 ^ (8 * left) ≡ 0)
cancel zero addr carry b h p q = (omega arith, omega arith)
cancel (suc zero) addr carry b h p q = (omega arith, omega arith)
cancel (suc (suc zero)) addr carry b h p q = (omega arith, omega arith)
cancel (suc (suc (suc zero))) addr carry b h p q = (omega arith, omega arith)
cancel (suc (suc (suc (suc left)))) addr carry b h p q = (ground arith, ground arith)

-- The offset where a call starts, cancelled by its own negation.
cancel_start : (offset : ℕ) → offset < 2 ^ 32 → (u32 (2 ^ 32 - offset) + offset) % 2 ^ (8 * 4) ≡ 0
cancel_start offset h = omega arith

-- The decoder behind a byte that is not part of an address.
behind : Bool → (addr offset : ℕ) → Decoder
behind true addr offset = decoder_at (u32 (2 ^ 32 - offset)) 4 (u32 (offset + 1))
behind false addr offset = decoder_at addr 0 (u32 (offset + 1))

decode_byte_plain :
    (addr offset b : ℕ)
    → decode_byte (decoder_at addr 0 offset) b ≡ (b, behind (starts_call b) addr offset)
unfolding decode_byte behind
decode_byte_plain addr offset b = ground arith

abbrev Undone : List ℕ → Type 0
Undone bytes =
    (addr carry left offset : ℕ)
    → IsBytes bytes
    → InStep addr carry left offset
    → decode (decoder_at addr left offset) (encode carry left offset bytes) ≡ bytes

decode-behind :
    (c : Bool) (bytes : List ℕ) (addr offset : ℕ)
    → IsBytes bytes
    → offset < 2 ^ 32
    → Undone bytes
    → decode
        (behind c addr offset)
        (encode (if c then offset else 0) (if c then 4 else 0) (u32 (offset + 1)) bytes)
      ≡ bytes
unfolding behind
decode-behind true bytes addr offset h s undone =
    undone (u32 (2 ^ 32 - offset)) offset 4 (u32 (offset + 1)) h
      (omega arith, omega arith, cancel_start offset s)
decode-behind false bytes addr offset h s undone =
    undone addr 0 0 (u32 (offset + 1)) h (omega arith, omega arith, omega arith)

decode-encode_from : (bytes : List ℕ) → Undone bytes
unfolding decode encode
decode-encode_from [] addr carry left offset h s = refl
decode-encode_from (b ∷ bytes) addr carry zero offset (hb, h) (q, s, t) =
    ap
      (λ step.
        step.0
        ∷ decode step.1 (
            encode (if starts_call b then offset else 0) (if starts_call b then 4 else 0)
              (u32 (offset + 1)) bytes))
      (decode_byte_plain addr offset b)
    ∙ ap (λ l. b ∷ l)
        (decode-behind (starts_call b) bytes addr offset h s (decode-encode_from bytes))
decode-encode_from (b ∷ bytes) addr carry (suc left) offset (hb, h) (q, s, t) =
    let (now, later) = cancel left addr carry b (omega arith) t hb in
    ap₂ ◌∷◌ now (
      decode-encode_from bytes (u32 (addr + u8 (carry + b)) / 2 ^ 8) ((carry + b) / 2 ^ 8) left
        (u32 (offset + 1)) h (omega arith, omega arith, later))

-- A file whose calls were made absolute is decoded to the file: the decoder, new or closed, undoes the
-- transformation of every list of bytes.
pub decode-encode : (bytes : List ℕ) → IsBytes bytes → decode closed (encode 0 0 5 bytes) ≡ bytes
decode-encode bytes h = decode-encode_from bytes 0 0 0 5 h (omega arith, omega arith, omega arith)

-- The four bytes behind the first byte of a call hold an absolute address, and become the address less
-- the offset of the decoder, modulo 2 ^ 32: outside an address, at an offset of 32 bits.
pub decode_call :
    (addr offset op w x y z : ℕ) (rest : List ℕ)
    → starts_call op ≡ true
    → offset < 2 ^ 32
    → IsBytes (w ∷ x ∷ y ∷ z ∷ [])
    → take 5 (decode (decoder_at addr 0 offset) (op ∷ w ∷ x ∷ y ∷ z ∷ rest))
      ≡ op ∷ store32 (u32 (load32 w x y z + 2 ^ 32 - offset))
unfolding decode decode_byte
decode_call addr offset op w x y z rest c h (hw, (hx, (hy, (hz, end)))) = rw c (
    ap (λ l. op ∷ l)
      (ap₂ ◌∷◌ (omega arith)
        (ap₂ ◌∷◌ (omega arith) (ap₂ ◌∷◌ (omega arith) (ap (λ n. n ∷ []) (omega arith))))))
