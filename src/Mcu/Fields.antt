-- ===== src/Mcu/Fields.antt =====
-- The fields that the values of a packet of src/desert_classes/LibMcuCBorStream.cpp arrive as, and what
-- is read from them.
use mathlib.Core.List.{append_assoc}
use rmw_desert.Prelude.{
  ℕ, ◌%◌, ◌-◌, ◌^◌, ◌≤◌, ◌<◌, ◌≡◌, refl, sym, ap₂, ◌∙◌, true, false, some, List, [], ◌∷◌, ◌++◌,
  lt→ltb, length, length-append, get_elem?, get_elem?-append, map, arith, All,
}
use rmw_desert.Prelude.Int.{ℤ, pos, negsuc, signed, pattern_of, IsSigned}
use rmw_desert.Cbor.Interpret.Reads.{cast_signed-32, cast_signed-16, cast_signed-8}
use rmw_desert.Message.{Result}
use rmw_desert.Message.Writes.{convert_to_std_string-Unbroken}
use rmw_desert.Mcu.{Item, LibMcu, IsItem, decoded}
use rmw_desert.Mcu.Rx.{
  Field, RxStream, current, advance, cast_unsigned, narrow_signed, read_uint64, read_uint32,
  read_uint16, read_uint8, read_int64, read_int32, read_int16, read_int8, read_string, read_float,
  read_bool,
}
use rmw_desert.Mcu.Interpret.{str_copy_size, prepend, interpret_field, interpret_fields}
use rmw_desert.Mcu.Values.{
  Value, IsValue, integer_item, item_of, field_of, read_value, read_values, read_char-current,
}

pattern_of-signed : (n : ℕ) → n < 2 ^ 64 → pattern_of 64 (signed 64 n) ≡ n
pattern_of-signed n h = ground arith

wider : (w : ℕ) (z : ℤ) → 2 ^ (w - 1) ≤ 2 ^ 63 → IsSigned w z → IsSigned 64 z
wider w (pos n) small h = omega arith
wider w (negsuc n) small h = omega arith

module _ {F : Type 0} (c : LibMcu F) where
  integer-field :
      (z : ℤ)
      → IsSigned 64 z
      → interpret_field c (decoded c (integer_item z)) ≡ Result.ok (some (Field.integer z))
  unfolding interpret_field
  integer-field (pos n) h = let small : signed 64 n ≡ pos n = ground arith in rw small
  integer-field (negsuc n) h = refl

  unsigned-field :
      (n : ℕ)
      → n < 2 ^ 63
      → interpret_field c (decoded c (Item.uint n)) ≡ Result.ok (some (Field.integer (pos n)))
  unfolding interpret_field
  unsigned-field n h = let small : signed 64 n ≡ pos n = ground arith in rw small

  integer-IsItem : (z : ℤ) → IsSigned 64 z → IsItem {F = F} (integer_item z)
  integer-IsItem (pos n) h = omega arith
  integer-IsItem (negsuc n) h = omega arith

  -- A value arrives as its field.
  pub value-field :
      (v : Value F)
      → IsValue c v
      → interpret_field c (decoded c (item_of v)) ≡ Result.ok (some (field_of v))
  unfolding interpret_field
  value-field (Value.uint64 n) h = refl
  value-field (Value.uint32 n) h = unsigned-field n (omega arith)
  value-field (Value.uint16 n) h = unsigned-field n (omega arith)
  value-field (Value.uint8 n) h = unsigned-field n (omega arith)
  value-field (Value.int64 z) h = integer-field z h
  value-field (Value.int32 z) h = integer-field z (wider 32 z (omega arith) h)
  value-field (Value.int16 z) h = integer-field z (wider 16 z (omega arith) h)
  value-field (Value.int8 z) h = integer-field z (wider 8 z (omega arith) h)
  value-field (Value.char n) h = refl
  value-field (Value.string s) h =
      rw (lt→ltb (length s) str_copy_size h.1, convert_to_std_string-Unbroken s h.0)
  value-field (Value.float f) h = rw h
  value-field (Value.bool b) h = refl

  pub value-IsItem : (v : Value F) → IsValue c v → IsItem (item_of v)
  value-IsItem (Value.uint64 n) h = h
  value-IsItem (Value.uint32 n) h = omega arith
  value-IsItem (Value.uint16 n) h = omega arith
  value-IsItem (Value.uint8 n) h = omega arith
  value-IsItem (Value.int64 z) h = integer-IsItem z h
  value-IsItem (Value.int32 z) h = integer-IsItem z (wider 32 z (omega arith) h)
  value-IsItem (Value.int16 z) h = integer-IsItem z (wider 16 z (omega arith) h)
  value-IsItem (Value.int8 z) h = integer-IsItem z (wider 8 z (omega arith) h)
  value-IsItem (Value.char n) h = tt
  value-IsItem (Value.string s) h = tt
  value-IsItem (Value.float f) h = tt
  value-IsItem (Value.bool b) h = tt

  pub values-fields :
      (vs : List (Value F))
      → All (IsValue c) vs
      → interpret_fields c (map (decoded c) (map item_of vs)) ≡ Result.ok (map field_of vs)
  unfolding interpret_fields prepend
  values-fields [] h = refl
  values-fields (v ∷ vs) h = rw (value-field v h.0, values-fields vs h.1)

  read_int64-current :
      (z : ℤ) (r : RxStream F)
      → current r ≡ some (Field.integer z)
      → read_int64 r ≡ (some z, advance r)
  unfolding read_int64 advance
  read_int64-current z r e = rw e

  pub read_value-current :
      (v : Value F) (r : RxStream F)
      → IsValue c v
      → current r ≡ some (field_of v)
      → read_value v r ≡ (some v, advance r)
  unfolding read_uint64 read_uint32 read_uint16 read_uint8 read_int32 read_int16 read_int8
      read_string read_float read_bool advance cast_unsigned narrow_signed
  read_value-current (Value.uint64 n) r h e =
      rw (read_int64-current (signed 64 n) r e, pattern_of-signed n h)
  read_value-current (Value.uint32 n) r h e =
      let small : n % 2 ^ 32 ≡ n = omega arith in rw (read_int64-current (pos n) r e, small)
  read_value-current (Value.uint16 n) r h e =
      let small : n % 2 ^ 16 ≡ n = omega arith in rw (read_int64-current (pos n) r e, small)
  read_value-current (Value.uint8 n) r h e =
      let small : n % 2 ^ 8 ≡ n = omega arith in rw (read_int64-current (pos n) r e, small)
  read_value-current (Value.int64 z) r h e = rw (read_int64-current z r e)
  read_value-current (Value.int32 z) r h e = rw (read_int64-current z r e, cast_signed-32 z h)
  read_value-current (Value.int16 z) r h e = rw (read_int64-current z r e, cast_signed-16 z h)
  read_value-current (Value.int8 z) r h e = rw (read_int64-current z r e, cast_signed-8 z h)
  read_value-current (Value.char n) r h e = rw (read_char-current n r e)
  read_value-current (Value.string s) r h e = rw e
  read_value-current (Value.float f) r h e = rw e
  read_value-current (Value.bool true) r h e = rw e
  read_value-current (Value.bool false) r h e = rw e

  -- Reads of the types that were written, from the iterator on, give the values.
  pub read_values-fields :
      (vs : List (Value F)) (seen : List (Field F)) (r : RxStream F)
      → All (IsValue c) vs
      → r.buffered_packet ≡ seen ++ map field_of vs
      → r.buffered_iterator ≡ length seen
      → (read_values vs r).0 ≡ map some vs
  read_values-fields [] seen r ok e at_seen = refl
  read_values-fields (v ∷ vs) seen r ok e at_seen =
      let here : current r ≡ some (field_of v) =
        unfold current in
        ap₂ get_elem? e at_seen ∙ get_elem?-append seen (map field_of vs) (field_of v) in
      let seen' = seen ++ field_of v ∷ [] in
      let next : (advance r).buffered_packet ≡ seen' ++ map field_of vs =
        unfold advance in e ∙ sym (append_assoc seen (field_of v ∷ []) (map field_of vs)) in
      let moved : (advance r).buffered_iterator ≡ length seen' =
        unfold advance in omega (arith, length-append seen (field_of v ∷ [])) in
      rw (read_value-current v r ok.0 here, read_values-fields vs seen' (advance r) ok.1 next moved)
