-- ===== src/Message/Writes.antt =====
-- What `serialize` of src/desert_classes/MessageSerialization.h puts on the stream.
use rmw_desert.Prelude.{
  ℕ, zero, suc, ◌%◌, ◌^◌, ◌<◌, ◌≡◌, refl, sym, ap, ap₂, ◌∙◌, List, [], ◌∷◌, ◌++◌, map, arith, false,
  ltb, length, take, All,
}
use rmw_desert.Cbor.{Nanocbor}
use rmw_desert.Cbor.Tx.{TxStream, write_double, write_uint32, serialize_sequence, write_vector}
use rmw_desert.Cbor.Interpret.Values.{Value, write_value}
use rmw_desert.Cbor.Interpret.Reads.{write_values}
use rmw_desert.Message.{Language, Scalar, Layout, Members, Result, Held, ValueOf, Memory}
use rmw_desert.Message.Strings.{
  convert_to_std_string, convert_to_std_vector_string, convert_sequence_to_std_vector_string,
  convert_to_std_u16string, convert_to_std_vector_u16string,
  convert_sequence_to_std_vector_u16string,
}
use rmw_desert.Message.Fields.{
  Floats, write_scalar, serialize_cpp_field, serialize_c_generic, serialize_c_string,
  serialize_c_wstring, serialize_c_field,
}
use rmw_desert.Message.Whole.{serialize_each, serialize_nested, serialize_field, serialize}
use rmw_desert.Message.Values.{
  value_of, plain_values, IsSized, IsWithin, text_values, field_values, flat, nested_values,
  message_values, Unbroken, IsField, Each, IsMessage,
}

-- A text without zeros is the same in C and in C++.
pub convert_to_std_string-Unbroken :
    (text : List ℕ) → Unbroken Language.c_members text → convert_to_std_string text ≡ text
unfolding convert_to_std_string
convert_to_std_string-Unbroken [] h = refl
convert_to_std_string-Unbroken (x ∷ xs) h =
    let rest = convert_to_std_string-Unbroken xs h.1 in let some_unit = h.0 in ground arith

pub convert_to_std_u16string-Unbroken :
    (text : List ℕ) → Unbroken Language.c_members text → convert_to_std_u16string text ≡ text
unfolding convert_to_std_u16string
convert_to_std_u16string-Unbroken [] h = refl
convert_to_std_u16string-Unbroken (x ∷ xs) h =
    let rest = convert_to_std_u16string-Unbroken xs h.1 in let some_unit = h.0 in ground arith

pub map-fixed :
    {A : Type 0} {P : A → Type 0} (f : A → A)
    → ((a : A) → P a → f a ≡ a)
    → (xs : List A) → All P xs
    → map f xs ≡ xs
map-fixed f same [] h = refl
map-fixed f same (x ∷ xs) h = ap₂ (◌∷◌) (same x h.0) (map-fixed f same xs h.1)

pub take-length : {A : Type 0} (n : ℕ) (xs : List A) → length xs ≡ n → take n xs ≡ xs
take-length zero [] h = refl
take-length zero (x ∷ xs) h = absurd (omega arith)
take-length (suc n) [] h = refl
take-length (suc n) (x ∷ xs) h = ap (λ ys. x ∷ ys) (take-length n xs (omega arith))

write_values-append :
    {F : Type 0} (c : Nanocbor F) (us vs : List (Value F)) (t : TxStream)
    → write_values c (us ++ vs) t ≡ write_values c vs (write_values c us t)
write_values-append c [] vs t = refl
write_values-append c (u ∷ us) vs t = write_values-append c us vs (write_value c u t)

module _ {F D : Type 0} (floats : Floats F D) (c : Nanocbor F) where
  write_scalar-value_of :
      (s : Scalar) (v : ValueOf F D s) (t : TxStream)
      → write_scalar floats c s v t ≡ write_value c (value_of floats s v) t
  unfolding write_scalar write_double
  write_scalar-value_of Scalar.boolean v t = refl
  write_scalar-value_of Scalar.uint8 v t = refl
  write_scalar-value_of Scalar.char v t = refl
  write_scalar-value_of Scalar.int8 v t = refl
  write_scalar-value_of Scalar.float v t = refl
  write_scalar-value_of Scalar.double v t = refl
  write_scalar-value_of Scalar.int16 v t = refl
  write_scalar-value_of Scalar.uint16 v t = refl
  write_scalar-value_of Scalar.int32 v t = refl
  write_scalar-value_of Scalar.uint32 v t = refl
  write_scalar-value_of Scalar.int64 v t = refl
  write_scalar-value_of Scalar.uint64 v t = refl
  write_scalar-value_of Scalar.string v t = refl
  write_scalar-value_of Scalar.wstring v t = refl

  serialize_sequence-values :
      (s : Scalar) (vs : List (ValueOf F D s)) (t : TxStream)
      → serialize_sequence c (write_scalar floats c s) vs t
        ≡ write_values c (map (value_of floats s) vs) t
  unfolding serialize_sequence
  serialize_sequence-values s [] t = refl
  serialize_sequence-values s (v ∷ vs) t =
      serialize_sequence-values s vs (write_scalar floats c s v t)
      ∙ ap (write_values c (map (value_of floats s) vs)) (write_scalar-value_of s v t)

  -- The length, then the elements.
  counted_values :
      (s : Scalar) (vs : List (ValueOf F D s)) (t : TxStream)
      → length vs < 2 ^ 32
      → serialize_sequence c (write_scalar floats c s) vs (write_uint32 c (length vs % 2 ^ 32) t)
        ≡ write_values c (Value.uint32 (length vs) ∷ map (value_of floats s) vs) t
  counted_values s vs t small =
      let same : length vs % 2 ^ 32 ≡ length vs = omega arith in
      rw same (serialize_sequence-values s vs (write_uint32 c (length vs) t))

  serialize_cpp_field-plain_values :
      (s : Scalar) (layout : Layout) (v : Held (ValueOf F D s) layout) (t : TxStream)
      → IsSized (ValueOf F D s) layout v
      → serialize_cpp_field floats c s layout v t
        ≡ write_values c (plain_values floats s layout v) t
  unfolding serialize_cpp_field write_vector
  serialize_cpp_field-plain_values s Layout.single v t h = write_scalar-value_of s v t
  serialize_cpp_field-plain_values s (Layout.fixed n) vs t h =
      rw (take-length n vs h.0) (serialize_sequence-values s vs t)
  serialize_cpp_field-plain_values s (Layout.bounded n) vs t h = counted_values s vs t h
  serialize_cpp_field-plain_values s Layout.unbounded vs t h = counted_values s vs t h

  serialize_c_generic-plain_values :
      (s : Scalar) (layout : Layout) (v : Held (ValueOf F D s) layout) (t : TxStream)
      → IsSized (ValueOf F D s) layout v
      → serialize_c_generic floats c s layout v t
        ≡ write_values c (plain_values floats s layout v) t
  unfolding serialize_c_generic
  serialize_c_generic-plain_values s Layout.single v t h = write_scalar-value_of s v t
  serialize_c_generic-plain_values s (Layout.fixed n) vs t h =
      rw (take-length n vs h.0) (serialize_sequence-values s vs t)
  serialize_c_generic-plain_values s (Layout.bounded n) vs t h = counted_values s vs t h
  serialize_c_generic-plain_values s Layout.unbounded vs t h = counted_values s vs t h

  serialize_c_string-text_values :
      (layout : Layout) (v : Held (List ℕ) layout) (t : TxStream)
      → IsField floats Language.c_members Scalar.string layout v
      → serialize_c_string floats c layout v t
        ≡ write_values c (text_values floats Scalar.string layout v) t
  unfolding serialize_c_string write_vector write_scalar convert_to_std_vector_string
      convert_sequence_to_std_vector_string
  serialize_c_string-text_values Layout.single v t h = rw (convert_to_std_string-Unbroken v h.2.1)
  serialize_c_string-text_values (Layout.fixed n) vs t h =
      let small : length vs < 2 ^ 32 = omega (arith, h.0.0, h.0.1) in
      rw
        (
          take-length n vs h.0.0,
          map-fixed convert_to_std_string (λ v e. convert_to_std_string-Unbroken v e.1) vs h.2,
          sym h.0.0,
        )
        (counted_values Scalar.string vs t small)
  serialize_c_string-text_values (Layout.bounded n) vs t h =
      rw (map-fixed convert_to_std_string (λ v e. convert_to_std_string-Unbroken v e.1) vs h.2)
        (counted_values Scalar.string vs t h.0)
  serialize_c_string-text_values Layout.unbounded vs t h =
      rw (map-fixed convert_to_std_string (λ v e. convert_to_std_string-Unbroken v e.1) vs h.2)
        (counted_values Scalar.string vs t h.0)

  serialize_c_wstring-text_values :
      (layout : Layout) (v : Held (List ℕ) layout) (t : TxStream)
      → IsField floats Language.c_members Scalar.wstring layout v
      → serialize_c_wstring floats c layout v t
        ≡ write_values c (text_values floats Scalar.wstring layout v) t
  unfolding serialize_c_wstring write_vector write_scalar convert_to_std_vector_u16string
      convert_sequence_to_std_vector_u16string
  serialize_c_wstring-text_values Layout.single v t h =
      rw (convert_to_std_u16string-Unbroken v h.2.1)
  serialize_c_wstring-text_values (Layout.fixed n) vs t h =
      let small : length vs < 2 ^ 32 = omega (arith, h.0.0, h.0.1) in
      rw
        (
          take-length n vs h.0.0,
          map-fixed convert_to_std_u16string (λ v e. convert_to_std_u16string-Unbroken v e.1) vs
              h.2,
          sym h.0.0,
        )
        (counted_values Scalar.wstring vs t small)
  serialize_c_wstring-text_values (Layout.bounded n) vs t h =
      rw
        (map-fixed convert_to_std_u16string (λ v e. convert_to_std_u16string-Unbroken v e.1) vs h.2)
        (counted_values Scalar.wstring vs t h.0)
  serialize_c_wstring-text_values Layout.unbounded vs t h =
      rw
        (map-fixed convert_to_std_u16string (λ v e. convert_to_std_u16string-Unbroken v e.1) vs h.2)
        (counted_values Scalar.wstring vs t h.0)

  serialize_field-values :
      (lang : Language) (s : Scalar) (layout : Layout) (v : Held (ValueOf F D s) layout)
      (t : TxStream)
      → IsField floats lang s layout v
      → serialize_field floats c lang s layout v t
        ≡ write_values c (field_values floats lang s layout v) t
  unfolding serialize_field serialize_c_field
  serialize_field-values Language.cpp_members s layout v t h =
      serialize_cpp_field-plain_values s layout v t h.0
  serialize_field-values Language.c_members Scalar.string layout v t h =
      serialize_c_string-text_values layout v t h
  serialize_field-values Language.c_members Scalar.wstring layout v t h =
      serialize_c_wstring-text_values layout v t h
  serialize_field-values Language.c_members s layout v t h =
      serialize_c_generic-plain_values s layout v t h.0

  serialize_each-values :
      {M : Type 0} {P : M → Type 0} (write : M → TxStream → Result TxStream)
      (values : M → List (Value F))
      → ((m : M) (t : TxStream) → P m → write m t ≡ Result.ok (write_values c (values m) t))
      → (ms : List M) (t : TxStream) → All P ms
      → serialize_each write ms t ≡ Result.ok (write_values c (flat values ms) t)
  unfolding serialize_each
  serialize_each-values write values one [] t h = refl
  serialize_each-values write values one (m ∷ ms) t h =
      rw (one m t h.0, write_values-append c (values m) (flat values ms) t)
        (serialize_each-values write values one ms (write_values c (values m) t) h.1)

  serialize_nested-values :
      {M : Type 0} {P : M → Type 0} (write : M → TxStream → Result TxStream)
      (values : M → List (Value F))
      → ((m : M) (t : TxStream) → P m → write m t ≡ Result.ok (write_values c (values m) t))
      → (layout : Layout) (v : Held M layout) (t : TxStream) → IsSized M layout v
      → IsWithin M layout v
      → Each P layout v
      → serialize_nested c write layout v t
        ≡ Result.ok (write_values c (nested_values values layout v) t)
  unfolding serialize_nested
  serialize_nested-values write values one Layout.single m t sized within h = one m t h
  serialize_nested-values write values one (Layout.fixed n) ms t sized within h =
      rw (take-length n ms sized.0) (serialize_each-values write values one ms t h)
  serialize_nested-values write values one (Layout.bounded n) ms t sized within h =
      let same : length ms % 2 ^ 32 ≡ length ms = omega arith in
      let no_throw : ltb n (length ms) ≡ false = ground arith in
      rw (no_throw, same)
        (serialize_each-values write values one ms (write_uint32 c (length ms) t) h)
  serialize_nested-values write values one Layout.unbounded ms t sized within h =
      let same : length ms % 2 ^ 32 ≡ length ms = omega arith in
      rw same (serialize_each-values write values one ms (write_uint32 c (length ms) t) h)

  -- A message is written as its values, and no call throws.
  pub serialize-values :
      (lang : Language) (ms : Members) (m : Memory F D ms) (t : TxStream)
      → IsMessage floats lang ms m
      → serialize floats c lang ms m t
        ≡ Result.ok (write_values c (message_values floats lang ms m) t)
  unfolding serialize
  serialize-values lang Members.end m t h = refl
  serialize-values lang (Members.scalar s layout ms) (v, m) t h =
      rw
        (
          serialize_field-values lang s layout v t h.0,
          write_values-append c (field_values floats lang s layout v)
              (message_values floats lang ms m) t,
        )
        (serialize-values lang ms m (write_values c (field_values floats lang s layout v) t) h.1)
  serialize-values lang (Members.nested sub layout ms) (v, m) t h =
      let here = nested_values (message_values floats lang sub) layout v in
      rw
        (
          serialize_nested-values (serialize floats c lang sub) (message_values floats lang sub)
              (serialize-values lang sub) layout v t h.0 h.1 h.2,
          write_values-append c here (message_values floats lang ms m) t,
        )
        (serialize-values lang ms m (write_values c here t) h.3)
  serialize-values lang (Members.octet layout ms) m t h = absurd h
  serialize-values lang (Members.unknown ms) m t h = absurd h
