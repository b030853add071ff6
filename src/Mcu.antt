-- ===== src/Mcu.antt =====
-- src/desert_classes/LibMcuCBorStream.cpp: the streams over the other CBOR library, chosen when the
-- program is built. That library, which the repository has a copy of, is the parameter `LibMcu`.
pub mod Tx
pub mod Rx
pub mod Interpret
pub mod Values
pub mod Fields
pub mod Exchange
pub mod Overruns
use rmw_desert.Prelude.{
  ℕ, ◌<◌, ◌≡◌, ◌^◌, Bool, true, false, List, [], ◌∷◌, ◌++◌, map, take, length, if◌then◌else◌, All,
}
use rmw_desert.Cbor.Tx.{TxStream}
use rmw_desert.Prelude.Int.{ℤ, negsuc, signed}

-- What the encoder is given; `nint n` is the integer -(n + 1), and `F` are the values of `float`.
pub data Item (F : Type 0) : Type 0 where
  uint : ℕ → Item F
  nint : ℕ → Item F
  float : F → Item F
  text : List ℕ → Item F
  boolean : Bool → Item F

-- An item with its type and what `cbor_decode` puts into the `_cbor_value`: its `i64`, the 32 bits of
-- its `i32`, its `str_copy` (the bytes of the item, whatever their number), or its `i8`.
pub data Decoded : Type 0 where
  integer : ℤ → Decoded
  float : ℕ → Decoded
  string : List ℕ → Decoded
  simple : ℕ → Decoded
  other : Decoded

abbrev pub IsItem : {F : Type 0} → Item F → Type 0
IsItem (Item.uint n) = n < 2 ^ 64
IsItem (Item.nint n) = n < 2 ^ 63
IsItem _ = Unit {0}

-- `put` is what the `cbor_encode_…` functions append; `parse` the items that `cbor_parse` finds in a
-- packet, at most the number given, each as `cbor_decode` decodes it. `bits` are those that a `float`
-- is encoded with, 16 or 32 of them; `of_half` and `of_bits` are the floats that 16 and 32 bits mean.
-- `cbor_encode_float` has no test of the room: `past_end` is what becomes of a stream when a float is
-- written beyond the end of its buffer.
pub record LibMcu (F : Type 0) : Type 0 where
  pub put : Item F → List ℕ
  pub parse : ℕ → List ℕ → List Decoded
  pub bits : F → ℕ
  pub of_half : ℕ → F
  pub of_bits : ℕ → F
  pub past_end : F → TxStream → TxStream

module _ {F : Type 0} (c : LibMcu F) where
  abbrev pub encoded : List (Item F) → List ℕ
  encoded [] = []
  encoded (i ∷ is) = c.put i ++ encoded is

  abbrev pub decoded : Item F → Decoded
  decoded (Item.uint n) = Decoded.integer (signed 64 n)
  decoded (Item.nint n) = Decoded.integer (negsuc n)
  decoded (Item.float f) = Decoded.float (c.bits f)
  decoded (Item.text s) = Decoded.string s
  decoded (Item.boolean b) = Decoded.simple (if b then 1 else 0)

  -- What is written is parsed and decoded, up to the number of items that there is space for, and takes
  -- a byte at least.
  pub record IsParser : Type 0 where
    pub parse-encoded :
        (max : ℕ) (items : List (Item F))
        → All IsItem items
        → c.parse max (encoded items) ≡ take max (map decoded items)
    pub put-pos : (i : Item F) → 0 < length (c.put i)
