-- ===== src/Tests/Utf.antt =====
-- UTF-8 and UTF-16 of src/desert_classes/NanoCBorStream.cpp on concrete texts.
use rmw_desert.Prelude.{ℕ, ◌≡◌, ◌≢◌, ◌↔◌, ◌⊎◌, none, refl, List, [], ◌∷◌, arith, length, All}
use rmw_desert.Utf.{
  to_utf8, to_utf16, encode_loop, append_code_point, is_high, is_low, decode_loop, decode_point,
  lead, continuation, check_point, code_units,
}
use rmw_desert.Utf.Decoded.{IsByte}
use rmw_desert.Utf.RoundTrip.{IsUnit16, TextOfUnits, TextOfBytes}
use rmw_desert.Utf.Exchange.{to_utf16-to_utf8, to_utf8-to_utf16, to_utf8_refuses, to_utf16_refuses}

to_utf8_emoji :
    to_utf8 (0x41 ∷ 0xe9 ∷ 0x20ac ∷ 0xd83d ∷ 0xde00 ∷ [])
    ≡ 0x41 ∷ 0xc3 ∷ 0xa9 ∷ 0xe2 ∷ 0x82 ∷ 0xac ∷ 0xf0 ∷ 0x9f ∷ 0x98 ∷ 0x80 ∷ []
unfolding to_utf8 encode_loop append_code_point is_high is_low
to_utf8_emoji = refl

-- é and an emoji, in both encodings.
abbrev units : List ℕ
units = 0xe9 ∷ 0xd83d ∷ 0xde00 ∷ []

abbrev bytes : List ℕ
bytes = 0xc3 ∷ 0xa9 ∷ 0xf0 ∷ 0x9f ∷ 0x98 ∷ 0x80 ∷ []

-- A surrogate with no partner, and the slash in two bytes.
abbrev lone : List ℕ
lone = 0xd83d ∷ 0x41 ∷ []

abbrev overlong : List ℕ
overlong = 0xc0 ∷ 0xaf ∷ []

units-IsUnit16 : All IsUnit16 units
units-IsUnit16 = (omega arith, (omega arith, (omega arith, tt)))

bytes-IsByte : All IsByte bytes
bytes-IsByte =
    (omega arith, (omega arith, (omega arith, (omega arith, (omega arith, (omega arith, tt))))))

units_accepted : encode_loop units ≢ none
unfolding encode_loop append_code_point is_high is_low
units_accepted e = cc

bytes_accepted : decode_loop (length bytes) bytes ≢ none
unfolding decode_loop decode_point lead continuation check_point code_units
bytes_accepted e = cc

to_utf16-to_utf8_example : to_utf16 (to_utf8 units) ≡ units
to_utf16-to_utf8_example = to_utf16-to_utf8 units units-IsUnit16 units_accepted

to_utf8-to_utf16_example : to_utf8 (to_utf16 bytes) ≡ bytes
to_utf8-to_utf16_example = to_utf8-to_utf16 bytes bytes-IsByte bytes_accepted

lone-IsUnit16 : All IsUnit16 lone
lone-IsUnit16 = (omega arith, (omega arith, tt))

overlong-IsByte : All IsByte overlong
overlong-IsByte = (omega arith, (omega arith, tt))

to_utf8_refuses_example : (to_utf8 lone ≡ []) ↔ ((lone ≡ []) ⊎ (¬ TextOfUnits lone))
to_utf8_refuses_example = to_utf8_refuses lone lone-IsUnit16

to_utf16_refuses_example : (to_utf16 overlong ≡ []) ↔ ((overlong ≡ []) ⊎ (¬ TextOfBytes overlong))
to_utf16_refuses_example = to_utf16_refuses overlong overlong-IsByte
