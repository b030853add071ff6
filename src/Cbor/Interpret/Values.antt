-- ===== src/Cbor/Interpret/Values.antt =====
-- The typed writes of `TxStream` and the typed reads of `RxStream`, src/desert_classes/NanoCBorStream.cpp,
-- one against the other.
use rmw_desert.Prelude.{
  ℕ, ◌^◌, ◌<◌, ◌≡◌, ◌≢◌, refl, Bool, true, false, Option, some, none, List, [], ◌∷◌, All,
}
use rmw_desert.Prelude.Int.{ℤ, pos, negsuc, IsSigned}
use rmw_desert.Utf.{encode_loop, to_utf8}
use rmw_desert.Utf.RoundTrip.{IsUnit16}
use rmw_desert.Cbor.{Item, Nanocbor}
use rmw_desert.Cbor.Tx.{
  TxStream, write_item, write_uint64, write_uint32, write_uint16, write_uint8, write_int64,
  write_int32, write_int16, write_int8, write_char, write_string, write_u16string, write_float,
  write_bool,
}
use rmw_desert.Cbor.Rx.{
  RxStream, read_uint64, read_uint32, read_uint16, read_uint8, read_int64, read_int32, read_int16,
  read_int8, read_char, read_string, read_u16string, read_float, read_bool,
}

-- The values that the streams take, one constructor for each overload.
pub data Value (F : Type 0) : Type 0 where
  uint64 : ℕ → Value F
  uint32 : ℕ → Value F
  uint16 : ℕ → Value F
  uint8 : ℕ → Value F
  int64 : ℤ → Value F
  int32 : ℤ → Value F
  int16 : ℤ → Value F
  int8 : ℤ → Value F
  char : ℕ → Value F
  string : List ℕ → Value F
  u16string : List ℕ → Value F
  float : F → Value F
  bool : Bool → Value F

module _ {F : Type 0} where
  -- A value of its C++ type; a u16string is one that `toUTF8` does not refuse.
  abbrev pub IsValue : Value F → Type 0
  IsValue (Value.uint64 n) = n < 2 ^ 64
  IsValue (Value.uint32 n) = n < 2 ^ 32
  IsValue (Value.uint16 n) = n < 2 ^ 16
  IsValue (Value.uint8 n) = n < 2 ^ 8
  IsValue (Value.int64 z) = IsSigned 64 z
  IsValue (Value.int32 z) = IsSigned 32 z
  IsValue (Value.int16 z) = IsSigned 16 z
  IsValue (Value.int8 z) = IsSigned 8 z
  IsValue (Value.u16string u) = All IsUnit16 u × (encode_loop u ≢ none)
  IsValue _ = Unit {0}

  abbrev pub integer_item : ℤ → Item F
  integer_item (pos n) = Item.uint n
  integer_item (negsuc n) = Item.nint n

  abbrev pub item_of : Value F → Item F
  item_of (Value.uint64 n) = Item.uint n
  item_of (Value.uint32 n) = Item.uint n
  item_of (Value.uint16 n) = Item.uint n
  item_of (Value.uint8 n) = Item.uint n
  item_of (Value.int64 z) = integer_item z
  item_of (Value.int32 z) = integer_item z
  item_of (Value.int16 z) = integer_item z
  item_of (Value.int8 z) = integer_item z
  item_of (Value.char n) = Item.tstr (n ∷ [])
  item_of (Value.string s) = Item.tstr s
  item_of (Value.u16string u) = Item.tstr (to_utf8 u)
  item_of (Value.float f) = Item.float f
  item_of (Value.bool true) = Item.uint 1
  item_of (Value.bool false) = Item.uint 0

  -- `stream << value`
  abbrev pub write_value : Nanocbor F → Value F → TxStream → TxStream
  write_value c (Value.uint64 n) = write_uint64 c n
  write_value c (Value.uint32 n) = write_uint32 c n
  write_value c (Value.uint16 n) = write_uint16 c n
  write_value c (Value.uint8 n) = write_uint8 c n
  write_value c (Value.int64 z) = write_int64 c z
  write_value c (Value.int32 z) = write_int32 c z
  write_value c (Value.int16 z) = write_int16 c z
  write_value c (Value.int8 z) = write_int8 c z
  write_value c (Value.char n) = write_char c n
  write_value c (Value.string s) = write_string c s
  write_value c (Value.u16string u) = write_u16string c u
  write_value c (Value.float f) = write_float c f
  write_value c (Value.bool b) = write_bool c b

  abbrev pub tagged :
      {A : Type 0} → (A → Value F) → Option A × RxStream F → Option (Value F) × RxStream F
  tagged wrap (none, r) = (none, r)
  tagged wrap (some a, r) = (some (wrap a), r)

  -- `stream >> variable`, where the variable has the type of the value given.
  abbrev pub read_value : Value F → RxStream F → Option (Value F) × RxStream F
  read_value (Value.uint64 n) r = tagged Value.uint64 (read_uint64 r)
  read_value (Value.uint32 n) r = tagged Value.uint32 (read_uint32 r)
  read_value (Value.uint16 n) r = tagged Value.uint16 (read_uint16 r)
  read_value (Value.uint8 n) r = tagged Value.uint8 (read_uint8 r)
  read_value (Value.int64 z) r = tagged Value.int64 (read_int64 r)
  read_value (Value.int32 z) r = tagged Value.int32 (read_int32 r)
  read_value (Value.int16 z) r = tagged Value.int16 (read_int16 r)
  read_value (Value.int8 z) r = tagged Value.int8 (read_int8 r)
  read_value (Value.char n) r = tagged Value.char (read_char r)
  read_value (Value.string s) r = tagged Value.string (read_string r)
  read_value (Value.u16string u) r = tagged Value.u16string (read_u16string r)
  read_value (Value.float f) r = tagged Value.float (read_float r)
  read_value (Value.bool b) r = tagged Value.bool (read_bool r)

  pub write_value-item_of :
      (c : Nanocbor F) (v : Value F) (t : TxStream) → write_value c v t ≡ write_item c (item_of v) t
  unfolding write_uint64 write_uint32 write_uint16 write_uint8 write_int64 write_int32 write_int16
      write_int8 write_char write_string write_u16string write_float write_bool
  write_value-item_of c (Value.uint64 n) t = refl
  write_value-item_of c (Value.uint32 n) t = refl
  write_value-item_of c (Value.uint16 n) t = refl
  write_value-item_of c (Value.uint8 n) t = refl
  write_value-item_of c (Value.int64 (pos n)) t = refl
  write_value-item_of c (Value.int64 (negsuc n)) t = refl
  write_value-item_of c (Value.int32 (pos n)) t = refl
  write_value-item_of c (Value.int32 (negsuc n)) t = refl
  write_value-item_of c (Value.int16 (pos n)) t = refl
  write_value-item_of c (Value.int16 (negsuc n)) t = refl
  write_value-item_of c (Value.int8 (pos n)) t = refl
  write_value-item_of c (Value.int8 (negsuc n)) t = refl
  write_value-item_of c (Value.char n) t = refl
  write_value-item_of c (Value.string s) t = refl
  write_value-item_of c (Value.u16string u) t = refl
  write_value-item_of c (Value.float f) t = refl
  write_value-item_of c (Value.bool true) t = refl
  write_value-item_of c (Value.bool false) t = refl
