-- ===== src/Tests/Hex.antt =====
-- src/desert_classes/security/sec_utils.cpp on two bytes.
use rmw_desert.Prelude.{ℕ, ◌<◌, ◌≡◌, true, List, [], ◌∷◌, arith, All}
use rmw_desert.Hex.{decode_hex}
use rmw_desert.Hex.Decoding.{digits_of, decode_hex-digits_of}

abbrev key : List ℕ
key = 0x0f ∷ 0xa5 ∷ []

key_bytes : All (λ b. b < 256) key
key_bytes = (omega arith, (omega arith, tt))

decode_hex-digits_of_example :
    (decode_hex (digits_of key) (1 ∷ []) ≡ (true, key))
    × (decode_hex (48 ∷ 120 ∷ digits_of key) (1 ∷ []) ≡ (true, key))
decode_hex-digits_of_example = decode_hex-digits_of key (1 ∷ []) key_bytes
