-- ===== src/Stream/Exe5200/Whole.antt =====
-- The decoder of src/stream/exefilter.hpp on a whole file, and the transformation that it undoes.
use innoextract_wasm.Base.{
  ℕ, ◌+◌, ◌*◌, ◌-◌, ◌/◌, ◌%◌, ◌^◌, ◌<◌, Bool, true, false, ◌&&◌, ◌||◌, List, [], ◌∷◌, ◌++◌, ◌==◌,
  leb, if◌then◌else◌, ◌≡◌, refl, sym, ap, ap₂, ◌∙◌, Bool-cases, inl, inr, arith,
}
use innoextract_wasm.Base.Words.{u8, u32, IsByte, IsBytes}
use innoextract_wasm.Stream.Exe4108.{is_call}
use innoextract_wasm.Stream.Exe5200.{fits_block, load24, flipped, relative, transform}

-- Whether an address follows this byte, before which so many were read.
abbrev pub has_address : ℕ → ℕ → Bool
has_address offset b = is_call b && fits_block (u32 (offset + 1))

-- The decoder on all bytes of a file from an offset on.
unfoldable pub decode_file : Bool → ℕ → List ℕ → List ℕ
decode_file flip offset (b ∷ x ∷ y ∷ z ∷ w ∷ rest) = elim (has_address offset b) [
  | true ↦
      b
      ∷ (transform flip (u32 (offset + 5)) (x ∷ y ∷ z ∷ w ∷ [])
          ++ decode_file flip (u32 (offset + 5)) rest)
  | false ↦ b ∷ decode_file flip (u32 (offset + 1)) (x ∷ y ∷ z ∷ w ∷ rest)
]
decode_file flip offset bytes = bytes

-- Whether the compiler takes the byte at this offset for the start of a call or a jump: all five bytes
-- lie in one block of 64 KiB.
abbrev pub starts_call : ℕ → ℕ → Bool
starts_call offset b = (b == 0xe8 || b == 0xe9) && leb (offset % 65536 + 5) 65536

-- A relative address of 24 bits and its absolute one.
abbrev pub relative_address : ℕ → ℕ → ℕ → ℕ
relative_address x y z = x + y * 256 + z * 65536

abbrev pub absolute : ℕ → ℕ → ℕ
absolute offset rel = (rel + offset % 2 ^ 24) % 2 ^ 24

-- The high byte of a negative relative address, inverted.
abbrev pub stored_high : Bool → ℕ → ℕ → ℕ
stored_high flip rel w = if flip && leb 0x800000 rel then 255 - w else w

-- What the compiler does to the four bytes behind a call, at an offset behind them.
abbrev pub make_absolute : Bool → ℕ → ℕ → ℕ → ℕ → ℕ → List ℕ
make_absolute flip offset x y z w =
    let rel = relative_address x y z in
    let addr = absolute offset rel in
    if w == 0x00 || w == 0xff
    then u8 addr ∷ u8 (addr / 2 ^ 8) ∷ u8 (addr / 2 ^ 16) ∷ stored_high flip rel w ∷ []
    else x ∷ y ∷ z ∷ w ∷ []

-- The addresses of calls made absolute, as the compiler does it.
pub encode_file : Bool → ℕ → List ℕ → List ℕ
encode_file flip offset (b ∷ x ∷ y ∷ z ∷ w ∷ rest) = elim (starts_call offset b) [
  | true ↦
      b
      ∷ (make_absolute flip (u32 (offset + 5)) x y z w ++ encode_file flip (u32 (offset + 5)) rest)
  | false ↦ b ∷ encode_file flip (u32 (offset + 1)) (x ∷ y ∷ z ∷ w ∷ rest)
]
encode_file flip offset bytes = bytes

fits_block-leb : (offset : ℕ) → fits_block (u32 (offset + 1)) ≡ leb (offset % 65536 + 5) 65536
unfolding fits_block
fits_block-leb offset =
    let place : u32 (u32 (offset + 1) + 2 ^ 32 - 1) % 65536 ≡ offset % 65536 = omega arith in
    ground (arith, place)

has_address-starts_call : (offset b : ℕ) → has_address offset b ≡ starts_call offset b
has_address-starts_call offset b = ap (λ c. (b == 0xe8 || b == 0xe9) && c) (fits_block-leb offset)

-- For an address of 24 bits, bit 23 is its sign.
flipped-stored_high :
    (flip : Bool) (rel w : ℕ) → rel < 2 ^ 24 → flipped flip rel w ≡ stored_high flip rel w
unfolding flipped
flipped-stored_high flip rel w h =
    let sign : (rel / 2 ^ 23 % 2 == 1) ≡ leb 0x800000 rel = ground arith in
    ap (λ c. if flip && c then 255 - w else w) sign

flipped_twice :
    (flip : Bool) (rel rel' w : ℕ)
    → w < 256
    → rel / 2 ^ 23 % 2 ≡ rel' / 2 ^ 23 % 2
    → flipped flip rel' (flipped flip rel w) ≡ w
unfolding flipped
flipped_twice false rel rel' w h e = refl
flipped_twice true rel rel' w h e = elim (Bool-cases (rel / 2 ^ 23 % 2 == 1)) [
  | inl one ↦
      (let same : (rel' / 2 ^ 23 % 2 == 1) ≡ true = ap (λ n. n == 1) (sym e) ∙ one in
        rw (one, same) (omega arith))
  | inr zero_bit ↦
      (let same : (rel' / 2 ^ 23 % 2 == 1) ≡ false = ap (λ n. n == 1) (sym e) ∙ zero_bit in
        rw (zero_bit, same) refl)
]

pub decode_plain :
    (flip : Bool) (offset b : ℕ) (l : List ℕ)
    → has_address offset b ≡ false
    → decode_file flip offset (b ∷ l) ≡ b ∷ decode_file flip (u32 (offset + 1)) l
unfolding decode_file
decode_plain flip offset b [] h = refl
decode_plain flip offset b (x ∷ []) h = refl
decode_plain flip offset b (x ∷ y ∷ []) h = refl
decode_plain flip offset b (x ∷ y ∷ z ∷ []) h = refl
decode_plain flip offset b (x ∷ y ∷ z ∷ w ∷ rest) h = rw (decode_file, h) refl

pub decode_call :
    (flip : Bool) (offset b x y z w : ℕ) (rest : List ℕ)
    → has_address offset b ≡ true
    → decode_file flip offset (b ∷ x ∷ y ∷ z ∷ w ∷ rest)
      ≡ b
        ∷ (transform flip (u32 (offset + 5)) (x ∷ y ∷ z ∷ w ∷ [])
            ++ decode_file flip (u32 (offset + 5)) rest)
unfolding decode_file
decode_call flip offset b x y z w rest h = rw (decode_file, h) refl

encode_plain :
    (flip : Bool) (offset b x y z w : ℕ) (rest : List ℕ)
    → starts_call offset b ≡ false
    → encode_file flip offset (b ∷ x ∷ y ∷ z ∷ w ∷ rest)
      ≡ b ∷ encode_file flip (u32 (offset + 1)) (x ∷ y ∷ z ∷ w ∷ rest)
unfolding encode_file
encode_plain flip offset b x y z w rest h = rw (encode_file, h) refl

encode_call :
    (flip : Bool) (offset b x y z w : ℕ) (rest : List ℕ)
    → starts_call offset b ≡ true
    → encode_file flip offset (b ∷ x ∷ y ∷ z ∷ w ∷ rest)
      ≡ b
        ∷ (make_absolute flip (u32 (offset + 5)) x y z w
            ++ encode_file flip (u32 (offset + 5)) rest)
unfolding encode_file
encode_call flip offset b x y z w rest h = rw (encode_file, h) refl

flipped_extreme :
    (flip : Bool) (rel w : ℕ)
    → (w == 0x00 || w == 0xff) ≡ true
    → (flipped flip rel w == 0x00 || flipped flip rel w == 0xff) ≡ true
unfolding flipped
flipped_extreme flip rel w h = elim (Bool-cases (flip && (rel / 2 ^ 23 % 2 == 1))) [
  | inl flips ↦ rw flips (ground arith)
  | inr stays ↦ rw stays h
]

relative-absolute :
    (offset x y z : ℕ)
    → IsByte x
    → IsByte y
    → IsByte z
    → let addr = absolute offset (load24 x y z) in
      relative offset (load24 (u8 addr) (u8 (addr / 2 ^ 8)) (u8 (addr / 2 ^ 16))) % 2 ^ 24
      ≡ load24 x y z
unfolding relative
relative-absolute offset x y z p q r = omega arith

-- The three low bytes and bit 23 depend on the number modulo 2 ^ 24 only.
low_bytes :
    (rel x y z : ℕ)
    → IsByte x
    → IsByte y
    → IsByte z
    → rel % 2 ^ 24 ≡ load24 x y z
    → (u8 rel ≡ x)
      × (u8 (rel / 2 ^ 8) ≡ y)
      × (u8 (rel / 2 ^ 16) ≡ z)
      × (load24 x y z / 2 ^ 23 % 2 ≡ rel / 2 ^ 23 % 2)
low_bytes rel x y z p q r e = (omega arith, omega arith, omega arith, omega arith)

transform_extreme :
    (flip : Bool) (offset x y z w : ℕ)
    → (w == 0x00 || w == 0xff) ≡ true
    → let rel = relative offset (load24 x y z) in
      transform flip offset (x ∷ y ∷ z ∷ w ∷ [])
      ≡ u8 rel ∷ u8 (rel / 2 ^ 8) ∷ u8 (rel / 2 ^ 16) ∷ flipped flip rel w ∷ []
unfolding transform
transform_extreme flip offset x y z w h = rw (transform, h) refl

transform_other :
    (flip : Bool) (offset x y z w : ℕ)
    → (w == 0x00 || w == 0xff) ≡ false
    → transform flip offset (x ∷ y ∷ z ∷ w ∷ []) ≡ x ∷ y ∷ z ∷ w ∷ []
unfolding transform
transform_other flip offset x y z w h = rw (transform, h) refl

-- The four bytes of an address, there and back.
same_bytes :
    (flip : Bool) (offset x y z w : ℕ)
    → IsByte x
    → IsByte y
    → IsByte z
    → IsByte w
    → (w == 0x00 || w == 0xff) ≡ true
    → let rel = relative_address x y z in
      let addr = absolute offset rel in
      transform flip offset
        (u8 addr ∷ u8 (addr / 2 ^ 8) ∷ u8 (addr / 2 ^ 16) ∷ stored_high flip rel w ∷ [])
      ≡ x ∷ y ∷ z ∷ w ∷ []
same_bytes flip offset x y z w p q r s h =
    let addr = absolute offset (load24 x y z) in
    let rel = relative offset (load24 (u8 addr) (u8 (addr / 2 ^ 8)) (u8 (addr / 2 ^ 16))) in
    let low = low_bytes rel x y z p q r (relative-absolute offset x y z p q r) in
    let sign = flipped-stored_high flip (load24 x y z) w (omega arith) in
    ap (λ n. transform flip offset (u8 addr ∷ u8 (addr / 2 ^ 8) ∷ u8 (addr / 2 ^ 16) ∷ n ∷ []))
      (sym sign)
    ∙ transform_extreme flip offset (u8 addr) (u8 (addr / 2 ^ 8)) (u8 (addr / 2 ^ 16))
        (flipped flip (load24 x y z) w) (flipped_extreme flip (load24 x y z) w h)
    ∙ ap₂ (λ a l. a ∷ l) low.0
        (ap₂ (λ a l. a ∷ l) low.1
          (ap₂ (λ a l. a ∷ l ∷ []) low.2 (flipped_twice flip (load24 x y z) rel w s low.3)))

call_back :
    (flip : Bool) (offset b x y z w : ℕ) (rest : List ℕ)
    → IsBytes (x ∷ y ∷ z ∷ w ∷ [])
    → has_address offset b ≡ true
    → decode_file flip offset (b ∷ (make_absolute flip (u32 (offset + 5)) x y z w ++ rest))
      ≡ b ∷ x ∷ y ∷ z ∷ w ∷ decode_file flip (u32 (offset + 5)) rest
call_back flip offset b x y z w rest (p, (q, (r, (s, t)))) h =
    let o = u32 (offset + 5) in
    let addr = absolute o (load24 x y z) in
    elim (Bool-cases (w == 0x00 || w == 0xff)) [
      | inl extreme ↦ rw extreme (
          decode_call flip offset b (u8 addr) (u8 (addr / 2 ^ 8)) (u8 (addr / 2 ^ 16))
            (stored_high flip (relative_address x y z) w) rest h
          ∙ ap (λ l. b ∷ (l ++ decode_file flip o rest))
              (same_bytes flip o x y z w p q r s extreme))
      | inr other ↦ rw other (
          decode_call flip offset b x y z w rest h
          ∙ ap (λ l. b ∷ (l ++ decode_file flip o rest)) (transform_other flip o x y z w other))
    ]

-- Decoding gives back every file of bytes in which the addresses of calls and jumps were made absolute,
-- from any offset on: of those within a block of 64 KiB whose high byte is 0 or 255, with the high byte
-- inverted for negative addresses or not.
pub decode_file-encode_file :
    (flip : Bool) (offset : ℕ) (bytes : List ℕ)
    → IsBytes bytes
    → decode_file flip offset (encode_file flip offset bytes) ≡ bytes
unfolding decode_file encode_file
decode_file-encode_file flip offset [] h = refl
decode_file-encode_file flip offset (b ∷ []) h = refl
decode_file-encode_file flip offset (b ∷ x ∷ []) h = refl
decode_file-encode_file flip offset (b ∷ x ∷ y ∷ []) h = refl
decode_file-encode_file flip offset (b ∷ x ∷ y ∷ z ∷ []) h = refl
decode_file-encode_file flip offset (b ∷ x ∷ y ∷ z ∷ w ∷ rest) (hb, (p, (q, (r, (s, t))))) =
    let o = u32 (offset + 5) in
    let same = has_address-starts_call offset b in
    elim (Bool-cases (starts_call offset b)) [
      | inl call ↦
          (ap (decode_file flip offset) (encode_call flip offset b x y z w rest call)
            ∙ call_back flip offset b x y z w (encode_file flip o rest) (p, (q, (r, (s, tt))))
                (same ∙ call)
            ∙ ap (λ l. b ∷ x ∷ y ∷ z ∷ w ∷ l) (decode_file-encode_file flip o rest t))
      | inr plain ↦
          (ap (decode_file flip offset) (encode_plain flip offset b x y z w rest plain)
            ∙ decode_plain flip offset b
                (encode_file flip (u32 (offset + 1)) (x ∷ y ∷ z ∷ w ∷ rest)) (same ∙ plain)
            ∙ ap (λ l. b ∷ l)
                (decode_file-encode_file flip (u32 (offset + 1)) (x ∷ y ∷ z ∷ w ∷ rest)
                  (p, (q, (r, (s, t))))))
    ]
