-- ===== src/Hex.antt =====
-- src/desert_classes/security/sec_utils.cpp: hexadecimal keys and identifiers. A string is the list of
-- its characters' codes.
pub mod Decoding
use rmw_desert.Prelude.{
  ℕ, ◌+◌, ◌-◌, ◌*◌, ◌%◌, ◌^◌, Bool, true, false, not, ◌&&◌, ◌||◌, Option, some, none, List, [], ◌∷◌,
  bit_or, leb, ◌==◌, if◌then◌else◌, length,
}

-- `none` is the code's -1.
unfoldable pub hex_value : ℕ → Option ℕ
hex_value c =
    if leb 48 c && leb c 57
    then some (c - 48)
    else if leb 97 c && leb c 102
    then some (10 + (c - 97))
    else if leb 65 c && leb c 70
    then some (10 + (c - 65))
    else none

-- What stands behind `0x` or `0X`, if the string starts so.
unfoldable pub skip_prefix : List ℕ → List ℕ
skip_prefix [] = []
skip_prefix (c ∷ []) = c ∷ []
skip_prefix (c ∷ x ∷ rest) = if c == 48 && (x == 120 || x == 88) then rest else c ∷ x ∷ rest

-- `static_cast<uint8_t>((hi << 4) | lo)` in front of the other bytes.
unfoldable pub push_byte : Option ℕ → Option ℕ → Option (List ℕ) → Option (List ℕ)
push_byte (some hi) (some lo) (some bytes) = some (bit_or (hi * 2 ^ 4) lo % 2 ^ 8 ∷ bytes)
push_byte _ _ _ = none

-- The loop over the pairs of digits, whose number `decode_hex` has tested to be even.
unfoldable pub decode_pairs : List ℕ → Option (List ℕ)
decode_pairs [] = some []
decode_pairs (hi ∷ []) = none
decode_pairs (hi ∷ lo ∷ rest) = push_byte (hex_value hi) (hex_value lo) (decode_pairs rest)

-- The result, and `out` after the call.
unfoldable pub decode_hex : List ℕ → List ℕ → Bool × List ℕ
decode_hex hex out =
    if not (length (skip_prefix hex) % 2 == 0)
    then (false, out)
    else elim (decode_pairs (skip_prefix hex)) [ some bytes ↦ (true, bytes) | none ↦ (false, []) ]
