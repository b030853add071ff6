-- ===== src/Hex/Decoding.antt =====
-- `decode_hex` of src/desert_classes/security/sec_utils.cpp against the digits of bytes.
use rmw_desert.Prelude.{
  ℕ, ◌+◌, ◌*◌, ◌/◌, ◌%◌, ◌^◌, ◌<◌, ◌≡◌, refl, true, some, List, [], ◌∷◌, arith, ltb, bit_or,
  if◌then◌else◌, length, All,
}
use rmw_desert.Prelude.Bits.{bit_or-add}
use rmw_desert.Hex.{hex_value, skip_prefix, push_byte, decode_pairs, decode_hex}

-- The lower-case digit of a number below 16, and the digits of bytes.
abbrev pub digit : ℕ → ℕ
digit n = if ltb n 10 then 48 + n else 87 + n

abbrev pub digits_of : List ℕ → List ℕ
digits_of [] = []
digits_of (b ∷ bs) = digit (b / 16) ∷ digit (b % 16) ∷ digits_of bs

hex_value-digit : (n : ℕ) → n < 16 → hex_value (digit n) ≡ some n
unfolding hex_value
hex_value-digit n h = ground arith

byte_of_halves : (b : ℕ) → b < 256 → bit_or (b / 16 * 2 ^ 4) (b % 16) % 2 ^ 8 ≡ b
byte_of_halves b h = omega (arith, bit_or-add 4 (b / 16) (b % 16) (omega arith))

decode_pairs-digits_of :
    (bs : List ℕ) → All (λ b. b < 256) bs → decode_pairs (digits_of bs) ≡ some bs
unfolding decode_pairs push_byte
decode_pairs-digits_of [] h = refl
decode_pairs-digits_of (b ∷ bs) h = rw (
  hex_value-digit (b / 16) (omega arith),
  hex_value-digit (b % 16) (omega arith),
  decode_pairs-digits_of bs h.1,
  byte_of_halves b h.0,
)

length-digits_of : (bs : List ℕ) → length (digits_of bs) % 2 ≡ 0
length-digits_of [] = refl
length-digits_of (b ∷ bs) = omega (arith, length-digits_of bs)

skip_prefix-digits_of : (bs : List ℕ) → skip_prefix (digits_of bs) ≡ digits_of bs
unfolding skip_prefix
skip_prefix-digits_of [] = refl
skip_prefix-digits_of (b ∷ bs) = ground arith

-- The lower-case digits of any bytes are decoded to these bytes, with or without `0x` in front.
pub decode_hex-digits_of :
    (bs out : List ℕ)
    → All (λ b. b < 256) bs
    → (decode_hex (digits_of bs) out ≡ (true, bs))
      × (decode_hex (48 ∷ 120 ∷ digits_of bs) out ≡ (true, bs))
unfolding decode_hex
decode_hex-digits_of bs out h =
    let prefixed : skip_prefix (48 ∷ 120 ∷ digits_of bs) ≡ digits_of bs =
      unfold skip_prefix in refl in
    let even = length-digits_of bs in
    let decoded = decode_pairs-digits_of bs h in
    (rw (skip_prefix-digits_of bs, even, decoded), rw (prefixed, even, decoded))
