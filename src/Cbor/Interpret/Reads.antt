-- ===== src/Cbor/Interpret/Reads.antt =====
-- The typed reads of `RxStream`, src/desert_classes/NanoCBorStream.cpp, give back what the typed writes
-- of `TxStream` were given.
use mathlib.Core.List.{append_assoc}
use rmw_desert.Prelude.{
  ℕ, ◌%◌, ◌^◌, ◌≡◌, refl, sym, ap, ap₂, ◌∙◌, true, false, not, ◌==◌, Option, some, List, [], ◌∷◌,
  ◌++◌, map, arith, length, length-append, get_elem?, get_elem?-append, All,
}
use rmw_desert.Prelude.Int.{ℤ, pos, negsuc, signed, cast_signed, IsSigned}
use rmw_desert.Utf.{to_utf8}
use rmw_desert.Utf.Exchange.{to_utf16-to_utf8}
use rmw_desert.Cbor.{Nanocbor}
use rmw_desert.Cbor.Tx.{TxStream, write_item, serialize_sequence}
use rmw_desert.Cbor.Rx.{
  Field, RxStream, current, advance, narrow, narrow_signed, read_uint64, read_uint32, read_uint16,
  read_uint8, read_int64, read_int32, read_int16, read_int8, read_char, read_string, read_u16string,
  read_float, read_bool,
}
use rmw_desert.Cbor.Interpret.{field_of}
use rmw_desert.Cbor.Interpret.Values.{
  Value, IsValue, integer_item, item_of, write_value, read_value, write_value-item_of,
}

pub cast_signed-32 : (z : ℤ) → IsSigned 32 z → cast_signed 32 z ≡ z
cast_signed-32 (pos n) h = ground arith
cast_signed-32 (negsuc n) h = ground arith

pub cast_signed-16 : (z : ℤ) → IsSigned 16 z → cast_signed 16 z ≡ z
cast_signed-16 (pos n) h = ground arith
cast_signed-16 (negsuc n) h = ground arith

pub cast_signed-8 : (z : ℤ) → IsSigned 8 z → cast_signed 8 z ≡ z
cast_signed-8 (pos n) h = ground arith
cast_signed-8 (negsuc n) h = ground arith

module _ {F : Type 0} where
  read_uint64-current :
      (n : ℕ) (r : RxStream F)
      → current r ≡ some (Field.uint n)
      → read_uint64 r ≡ (some n, advance r)
  unfolding read_uint64 advance
  read_uint64-current n r e = rw e

  read_int64-current :
      (z : ℤ) (r : RxStream F)
      → IsSigned 64 z
      → current r ≡ some (field_of (integer_item z))
      → read_int64 r ≡ (some z, advance r)
  unfolding field_of read_int64 advance
  read_int64-current (pos n) r h e =
      let small : signed 64 n ≡ pos n = ground arith in rw (read_int64, e, small)
  read_int64-current (negsuc n) r h e = rw (read_int64, e)

  read_string-current :
      (s : List ℕ) (r : RxStream F)
      → current r ≡ some (Field.tstr s)
      → read_string r ≡ (some s, advance r)
  unfolding read_string advance
  read_string-current s r e = rw e

  read_bool-current :
      (n : ℕ) (r : RxStream F)
      → current r ≡ some (Field.uint n)
      → read_bool r ≡ (some (not (n % 2 ^ 8 == 0)), advance r)
  unfolding read_bool advance
  read_bool-current n r e = rw (read_bool, e)

  pub read_value-current :
      (v : Value F) (r : RxStream F)
      → IsValue v
      → current r ≡ some (field_of (item_of v))
      → read_value v r ≡ (some v, advance r)
  unfolding field_of read_uint32 read_uint16 read_uint8 read_int32 read_int16 read_int8
      read_u16string read_char read_float advance narrow narrow_signed
  read_value-current (Value.uint64 n) r h e = rw (read_uint64-current n r e)
  read_value-current (Value.uint32 n) r h e =
      let small : n % 2 ^ 32 ≡ n = omega arith in rw (read_uint64-current n r e, small)
  read_value-current (Value.uint16 n) r h e =
      let small : n % 2 ^ 16 ≡ n = omega arith in rw (read_uint64-current n r e, small)
  read_value-current (Value.uint8 n) r h e =
      let small : n % 2 ^ 8 ≡ n = omega arith in rw (read_uint64-current n r e, small)
  read_value-current (Value.int64 z) r h e = rw (read_int64-current z r h e)
  read_value-current (Value.int32 z) r h e =
      rw (read_int64-current z r (wider z h) e, cast_signed-32 z h)
    where
      wider : (y : ℤ) → IsSigned 32 y → IsSigned 64 y
      wider (pos n) h = omega arith
      wider (negsuc n) h = omega arith
  read_value-current (Value.int16 z) r h e =
      rw (read_int64-current z r (wider z h) e, cast_signed-16 z h)
    where
      wider : (y : ℤ) → IsSigned 16 y → IsSigned 64 y
      wider (pos n) h = omega arith
      wider (negsuc n) h = omega arith
  read_value-current (Value.int8 z) r h e =
      rw (read_int64-current z r (wider z h) e, cast_signed-8 z h)
    where
      wider : (y : ℤ) → IsSigned 8 y → IsSigned 64 y
      wider (pos n) h = omega arith
      wider (negsuc n) h = omega arith
  read_value-current (Value.char n) r h e = rw e
  read_value-current (Value.string s) r h e = rw (read_string-current s r e)
  read_value-current (Value.u16string u) r h e =
      rw (read_string-current (to_utf8 u) r e, to_utf16-to_utf8 u h.0 h.1)
  read_value-current (Value.float f) r h e = rw e
  read_value-current (Value.bool true) r h e = rw (read_bool-current 1 r e)
  read_value-current (Value.bool false) r h e = rw (read_bool-current 0 r e)

  abbrev pub read_values : List (Value F) → RxStream F → List (Option (Value F)) × RxStream F
  read_values [] r = ([], r)
  read_values (v ∷ vs) r =
      let (here, r') = read_value v r in let (later, r'') = read_values vs r' in (here ∷ later, r'')

  abbrev pub write_values : Nanocbor F → List (Value F) → TxStream → TxStream
  write_values c [] t = t
  write_values c (v ∷ vs) t = write_values c vs (write_value c v t)

  -- Reads of the types that were written, from the iterator on, give the values.
  pub read_values-fields :
      (vs : List (Value F)) (seen : List (Field F)) (r : RxStream F)
      → All IsValue vs
      → r.buffered_packet ≡ seen ++ map field_of (map item_of vs)
      → r.buffered_iterator ≡ length seen
      → (read_values vs r).0 ≡ map some vs
  read_values-fields [] seen r ok e at_seen = refl
  read_values-fields (v ∷ vs) seen r ok e at_seen =
      let here : current r ≡ some (field_of (item_of v)) =
        unfold current in
        ap₂ get_elem? e at_seen
        ∙ get_elem?-append seen (map field_of (map item_of vs)) (field_of (item_of v)) in
      let seen' = seen ++ field_of (item_of v) ∷ [] in
      let next : (advance r).buffered_packet ≡ seen' ++ map field_of (map item_of vs) =
        unfold advance in
        e ∙ sym (append_assoc seen (field_of (item_of v) ∷ []) (map field_of (map item_of vs))) in
      let moved : (advance r).buffered_iterator ≡ length seen' =
        unfold advance in omega (arith, length-append seen (field_of (item_of v) ∷ [])) in
      rw (read_value-current v r ok.0 here, read_values-fields vs seen' (advance r) ok.1 next moved)

  pub write_values-items :
      (c : Nanocbor F) (vs : List (Value F)) (t : TxStream)
      → write_values c vs t ≡ serialize_sequence c (write_item c) (map item_of vs) t
  unfolding serialize_sequence
  write_values-items c [] t = refl
  write_values-items c (v ∷ vs) t =
      write_values-items c vs (write_value c v t)
      ∙ ap (serialize_sequence c (write_item c) (map item_of vs)) (write_value-item_of c v t)
