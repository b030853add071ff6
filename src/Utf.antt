-- ===== src/Utf.antt =====
-- src/desert_classes/NanoCBorStream.cpp: `TxStream::toUTF8` and `RxStream::toUTF16`. A string is the
-- list of its bytes, a u16string the list of its 16-bit units. Both functions return the empty
-- string on malformed input: `none` stands for that early return here.
pub mod Point
pub mod Decoded
pub mod RoundTrip
pub mod Exchange
use rmw_desert.Prelude.{
  ℕ, zero, suc, ◌+◌, ◌-◌, ◌*◌, ◌/◌, ◌%◌, ◌^◌, Bool, true, false, not, ◌&&◌, ◌||◌, Option, some,
  none, List, [], ◌∷◌, ◌++◌, bit_and, bit_or, ltb, leb, ◌==◌, if◌then◌else◌, length,
}

-- `static_cast<char>(byte)`
abbrev pub append_byte : ℕ → ℕ
append_byte byte = byte % 2 ^ 8

-- The bytes that are appended for a code point. `x >> k` is `x / 2 ^ k`.
unfoldable pub append_code_point : ℕ → List ℕ
append_code_point cp =
    if leb cp 0x7f
    then append_byte cp ∷ []
    else if leb cp 0x7ff
    then append_byte (bit_or 0xc0 (cp / 2 ^ 6)) ∷ append_byte (bit_or 0x80 (bit_and cp 0x3f)) ∷ []
    else if leb cp 0xffff
    then append_byte (bit_or 0xe0 (cp / 2 ^ 12))
      ∷ append_byte (bit_or 0x80 (bit_and (cp / 2 ^ 6) 0x3f))
      ∷ append_byte (bit_or 0x80 (bit_and cp 0x3f))
      ∷ []
    else append_byte (bit_or 0xf0 (cp / 2 ^ 18))
      ∷ append_byte (bit_or 0x80 (bit_and (cp / 2 ^ 12) 0x3f))
      ∷ append_byte (bit_or 0x80 (bit_and (cp / 2 ^ 6) 0x3f))
      ∷ append_byte (bit_or 0x80 (bit_and cp 0x3f))
      ∷ []

unfoldable pub is_high : ℕ → Bool
is_high u = leb 0xd800 u && leb u 0xdbff

unfoldable pub is_low : ℕ → Bool
is_low u = leb 0xdc00 u && leb u 0xdfff

-- `0x10000 + ((cp - 0xD800) << 10) + (low - 0xDC00)` in a `uint32_t`.
abbrev pub pair_code_point : ℕ → ℕ → ℕ
pair_code_point u low = (0x10000 + (u - 0xd800) * 2 ^ 10 % 2 ^ 32 + (low - 0xdc00)) % 2 ^ 32

abbrev pub prepend : List ℕ → Option (List ℕ) → Option (List ℕ)
prepend front none = none
prepend front (some rest) = some (front ++ rest)

-- The loop of `toUTF8` over the units that are left.
unfoldable pub encode_loop : List ℕ → Option (List ℕ)
encode_loop [] = some []
encode_loop (u ∷ []) =
    if is_high u then none else if is_low u then none else some (append_code_point u ++ [])
encode_loop (u ∷ low ∷ rest) =
    let pair = encode_loop rest in
    let single = encode_loop (low ∷ rest) in
    if is_high u
    then if ltb low 0xdc00 || ltb 0xdfff low
      then none
      else prepend (append_code_point (pair_code_point u low)) pair
    else if is_low u
    then none
    else prepend (append_code_point u) single

abbrev pub or_empty : Option (List ℕ) → List ℕ
or_empty none = []
or_empty (some s) = s

unfoldable pub to_utf8 : List ℕ → List ℕ
to_utf8 source = or_empty (encode_loop source)

-- What the leading byte fixes: the first bits of the code point, the least code point that needs the
-- length, and the number of continuation bytes.
pub record Lead : Type 0 where
  pub cp : ℕ
  pub minimum : ℕ
  pub continuation_count : ℕ

unfoldable pub lead : ℕ → Option Lead
lead first =
    if leb first 0x7f
    then some (record { cp = first; minimum = 0; continuation_count = 0 })
    else if leb 0xc2 first && leb first 0xdf
    then some (record { cp = bit_and first 0x1f; minimum = 0x80; continuation_count = 1 })
    else if leb 0xe0 first && leb first 0xef
    then some (record { cp = bit_and first 0x0f; minimum = 0x800; continuation_count = 2 })
    else if leb 0xf0 first && leb first 0xf4
    then some (record { cp = bit_and first 0x07; minimum = 0x10000; continuation_count = 3 })
    else none

-- The loop over the continuation bytes: the code point and the bytes that are left.
-- `decode_point` has tested that there are enough of them.
unfoldable pub continuation : ℕ → ℕ → List ℕ → Option (ℕ × List ℕ)
continuation zero cp source = some (cp, source)
continuation (suc j) cp [] = none
continuation (suc j) cp (byte ∷ source) =
    let next = continuation j (bit_or (cp * 2 ^ 6 % 2 ^ 32) (bit_and byte 0x3f)) source in
    if not (bit_and byte 0xc0 == 0x80) then none else next

-- A code point below the least one of its length, above Unicode or among the surrogates is refused.
unfoldable pub check_point : ℕ → Option (ℕ × List ℕ) → Option (ℕ × List ℕ)
check_point minimum none = none
check_point minimum (some (cp, rest)) =
    if ltb cp minimum || ltb 0x10ffff cp || (leb 0xd800 cp && leb cp 0xdfff)
    then none
    else some (cp, rest)

-- One round of the loop of `toUTF16` up to the code point; the loop's test has the first byte there.
unfoldable pub decode_point : List ℕ → Option (ℕ × List ℕ)
decode_point [] = none
decode_point (first ∷ source) = elim (lead first) [
  | none ↦ none
  | some l ↦
      if ltb (length source) l.continuation_count
      then none
      else check_point l.minimum (continuation l.continuation_count l.cp source)
]

-- The units that are pushed for a code point.
unfoldable pub code_units : ℕ → List ℕ
code_units cp =
    if leb cp 0xffff
    then cp % 2 ^ 16 ∷ []
    else (0xd800 + (cp - 0x10000) / 2 ^ 10) % 2 ^ 16
      ∷ (0xdc00 + bit_and (cp - 0x10000) 0x3ff) % 2 ^ 16
      ∷ []

-- The loop of `toUTF16`. Each round takes a byte at least, so the length of the source is enough fuel.
unfoldable pub decode_loop : ℕ → List ℕ → Option (List ℕ)
decode_loop fuel [] = some []
decode_loop zero (b ∷ bs) = none
decode_loop (suc fuel) (b ∷ bs) = elim (decode_point (b ∷ bs)) [
  | none ↦ none
  | some (cp, rest) ↦ prepend (code_units cp) (decode_loop fuel rest)
]

unfoldable pub to_utf16 : List ℕ → List ℕ
to_utf16 source = or_empty (decode_loop (length source) source)
