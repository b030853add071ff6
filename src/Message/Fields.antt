-- ===== src/Message/Fields.antt =====
-- One field of src/desert_classes/MessageSerialization.h: `serialize_field` and `deserialize_field`, in
-- their versions for C and for C++.
use rmw_desert.Prelude.{
  ℕ, zero, suc, ◌%◌, ◌^◌, Bool, false, Option, some, none, List, [], ◌∷◌, length, take, replicate,
}
use rmw_desert.Prelude.Int.{ℤ, pos, cast_signed}
use rmw_desert.Cbor.{Nanocbor}
use rmw_desert.Cbor.Tx.{
  TxStream, write_uint64, write_uint32, write_uint16, write_uint8, write_int64, write_int32,
  write_int16, write_int8, write_char, write_float, write_double, write_string, write_u16string,
  write_bool, serialize_sequence, write_vector,
}
use rmw_desert.Cbor.Rx.{
  RxStream, read_uint64, read_uint32, read_uint16, read_uint8, read_int64, read_int32, read_int16,
  read_int8, read_char, read_float, read_double, read_string, read_u16string, read_bool,
}
use rmw_desert.Message.{Scalar, Layout, Result, ◌>>=◌, Held, ValueOf}
use rmw_desert.Message.Strings.{
  convert_to_std_string, convert_to_std_vector_string, convert_sequence_to_std_vector_string,
  convert_to_std_u16string, convert_to_std_vector_u16string,
  convert_sequence_to_std_vector_u16string, assign_string, assign_vector_string,
  assign_vector_string_to_sequence, assign_u16string, assign_vector_u16string,
  assign_vector_u16string_to_sequence,
}

-- `float` and `double` of the machine: the conversions, and the values of zeroed memory. `junk_…` is
-- what a local variable holds that is not initialised.
pub record Floats (F D : Type 0) : Type 0 where
  pub to_float : D → F
  pub to_double : F → D
  pub zero_float : F
  pub zero_double : D
  pub junk_uint64 : ℕ
  pub junk_int64 : ℤ
  pub junk_float : F

-- What a read assigns. A variable that it does not assign keeps its value.
abbrev pub assigned : {A R : Type 0} → A → Option A × R → A × R
assigned old (none, r) = (old, r)
assigned old (some v, r) = (v, r)

-- `deserialize_sequence` into `size` variables, which hold `olds`.
unfoldable pub read_each : {A R : Type 0} → (A → R → A × R) → ℕ → List A → R → List A × R
read_each read zero olds r = (olds, r)
read_each read (suc size) [] r = ([], r)
read_each read (suc size) (old ∷ olds) r =
    let (v, r') = read old r in let (vs, r'') = read_each read size olds r' in (v ∷ vs, r'')

module _ {F D : Type 0} (floats : Floats F D) where
  -- `stream << value`, where `T` is the type of the scalar.
  unfoldable pub write_scalar : Nanocbor F → (s : Scalar) → ValueOf F D s → TxStream → TxStream
  write_scalar c Scalar.boolean v = write_bool c v
  write_scalar c Scalar.uint8 v = write_uint8 c v
  write_scalar c Scalar.char v = write_char c v
  write_scalar c Scalar.int8 v = write_int8 c v
  write_scalar c Scalar.float v = write_float c v
  write_scalar c Scalar.double v = write_double c floats.to_float v
  write_scalar c Scalar.int16 v = write_int16 c v
  write_scalar c Scalar.uint16 v = write_uint16 c v
  write_scalar c Scalar.int32 v = write_int32 c v
  write_scalar c Scalar.uint32 v = write_uint32 c v
  write_scalar c Scalar.int64 v = write_int64 c v
  write_scalar c Scalar.uint64 v = write_uint64 c v
  write_scalar c Scalar.string v = write_string c v
  write_scalar c Scalar.wstring v = write_u16string c v

  unfoldable pub serialize_cpp_field :
      Nanocbor F
      → (s : Scalar) (layout : Layout) → Held (ValueOf F D s) layout
      → TxStream
      → TxStream
  serialize_cpp_field c s Layout.single v t = write_scalar c s v t
  serialize_cpp_field c s (Layout.fixed n) vs t =
      serialize_sequence c (write_scalar c s) (take n vs) t
  serialize_cpp_field c s (Layout.bounded n) vs t = write_vector c (write_scalar c s) vs t
  serialize_cpp_field c s Layout.unbounded vs t = write_vector c (write_scalar c s) vs t

  -- The generic version for C, which writes what that for C++ writes.
  unfoldable pub serialize_c_generic :
      Nanocbor F
      → (s : Scalar) (layout : Layout) → Held (ValueOf F D s) layout
      → TxStream
      → TxStream
  serialize_c_generic c s Layout.single v t = write_scalar c s v t
  serialize_c_generic c s (Layout.fixed n) vs t =
      serialize_sequence c (write_scalar c s) (take n vs) t
  serialize_c_generic c s (Layout.bounded n) vs t =
      serialize_sequence c (write_scalar c s) vs (write_uint32 c (length vs % 2 ^ 32) t)
  serialize_c_generic c s Layout.unbounded vs t =
      serialize_sequence c (write_scalar c s) vs (write_uint32 c (length vs % 2 ^ 32) t)

  unfoldable pub serialize_c_string :
      Nanocbor F → (layout : Layout) → Held (List ℕ) layout → TxStream → TxStream
  serialize_c_string c Layout.single v t = write_string c (convert_to_std_string v) t
  serialize_c_string c (Layout.fixed n) vs t =
      write_vector c (write_string c) (convert_to_std_vector_string vs n) t
  serialize_c_string c (Layout.bounded n) vs t =
      write_vector c (write_string c) (convert_sequence_to_std_vector_string vs) t
  serialize_c_string c Layout.unbounded vs t =
      write_vector c (write_string c) (convert_sequence_to_std_vector_string vs) t

  unfoldable pub serialize_c_wstring :
      Nanocbor F → (layout : Layout) → Held (List ℕ) layout → TxStream → TxStream
  serialize_c_wstring c Layout.single v t = write_u16string c (convert_to_std_u16string v) t
  serialize_c_wstring c (Layout.fixed n) vs t =
      write_vector c (write_u16string c) (convert_to_std_vector_u16string vs n) t
  serialize_c_wstring c (Layout.bounded n) vs t =
      write_vector c (write_u16string c) (convert_sequence_to_std_vector_u16string vs) t
  serialize_c_wstring c Layout.unbounded vs t =
      write_vector c (write_u16string c) (convert_sequence_to_std_vector_u16string vs) t

  unfoldable pub serialize_c_field :
      Nanocbor F
      → (s : Scalar) (layout : Layout) → Held (ValueOf F D s) layout
      → TxStream
      → TxStream
  serialize_c_field c Scalar.string layout v t = serialize_c_string c layout v t
  serialize_c_field c Scalar.wstring layout v t = serialize_c_wstring c layout v t
  serialize_c_field c s layout v t = serialize_c_generic c s layout v t

  -- `stream >> variable`, and the variable after it. The reads of the narrower types go through a local
  -- variable that is not initialised: where nothing is read, what it holds is assigned.
  unfoldable pub read_scalar :
      (s : Scalar) → ValueOf F D s → RxStream F → ValueOf F D s × RxStream F
  read_scalar Scalar.boolean old r = assigned old (read_bool r)
  read_scalar Scalar.uint8 old r = assigned (floats.junk_uint64 % 2 ^ 8) (read_uint8 r)
  read_scalar Scalar.char old r = assigned old (read_char r)
  read_scalar Scalar.int8 old r = assigned (cast_signed 8 floats.junk_int64) (read_int8 r)
  read_scalar Scalar.float old r = assigned old (read_float r)
  read_scalar Scalar.double old r =
      assigned (floats.to_double floats.junk_float) (read_double floats.to_double r)
  read_scalar Scalar.int16 old r = assigned (cast_signed 16 floats.junk_int64) (read_int16 r)
  read_scalar Scalar.uint16 old r = assigned (floats.junk_uint64 % 2 ^ 16) (read_uint16 r)
  read_scalar Scalar.int32 old r = assigned (cast_signed 32 floats.junk_int64) (read_int32 r)
  read_scalar Scalar.uint32 old r = assigned (floats.junk_uint64 % 2 ^ 32) (read_uint32 r)
  read_scalar Scalar.int64 old r = assigned old (read_int64 r)
  read_scalar Scalar.uint64 old r = assigned old (read_uint64 r)
  read_scalar Scalar.string old r = assigned old (read_string r)
  read_scalar Scalar.wstring old r = assigned old (read_u16string r)

  -- The elements of a vector or of a C sequence that has just been given its size.
  unfoldable pub blank : (s : Scalar) → ValueOf F D s
  blank Scalar.boolean = false
  blank Scalar.uint8 = 0
  blank Scalar.char = 0
  blank Scalar.int8 = pos 0
  blank Scalar.float = floats.zero_float
  blank Scalar.double = floats.zero_double
  blank Scalar.int16 = pos 0
  blank Scalar.uint16 = 0
  blank Scalar.int32 = pos 0
  blank Scalar.uint32 = 0
  blank Scalar.int64 = pos 0
  blank Scalar.uint64 = 0
  blank Scalar.string = []
  blank Scalar.wstring = []

  -- `deserialize_sequence` into a vector after its `resize`. A size that is not assigned is used all the
  -- same.
  unfoldable pub read_elements :
      (s : Scalar) → Option ℕ → RxStream F → Result (List (ValueOf F D s) × RxStream F)
  read_elements s none r = Result.undefined
  read_elements s (some n) r = Result.ok (read_each (read_scalar s) n (replicate n (blank s)) r)

  -- `operator>>` of a vector.
  unfoldable pub read_vector :
      (s : Scalar) → RxStream F → Result (List (ValueOf F D s) × RxStream F)
  read_vector s r = let (size, r') = read_uint32 r in read_elements s size r'

  -- The loop of the vector of `bool`, which is written where it has no element.
  unfoldable pub read_bool_elements : Option ℕ → RxStream F → Result (List Bool × RxStream F)
  read_bool_elements (some zero) r = Result.ok ([], r)
  read_bool_elements (some (suc n)) r = Result.undefined
  read_bool_elements none r = Result.undefined

  unfoldable pub read_bool_vector : RxStream F → Result (List Bool × RxStream F)
  read_bool_vector r = let (size, r') = read_uint32 r in read_bool_elements size r'

  unfoldable pub deserialize_cpp_field :
      (s : Scalar) (layout : Layout)
      → Held (ValueOf F D s) layout
      → RxStream F
      → Result (Held (ValueOf F D s) layout × RxStream F)
  deserialize_cpp_field s Layout.single old r = Result.ok (read_scalar s old r)
  deserialize_cpp_field s (Layout.fixed n) olds r = Result.ok (read_each (read_scalar s) n olds r)
  deserialize_cpp_field Scalar.boolean (Layout.bounded n) olds r = read_bool_vector r
  deserialize_cpp_field Scalar.boolean Layout.unbounded olds r = read_bool_vector r
  deserialize_cpp_field s (Layout.bounded n) olds r = read_vector s r
  deserialize_cpp_field s Layout.unbounded olds r = read_vector s r

  -- The size of the C sequence is 0 before the read, which assigns what is undefined where it reads
  -- none.
  unfoldable pub read_c_sequence :
      (s : Scalar) → RxStream F → Result (List (ValueOf F D s) × RxStream F)
  read_c_sequence s r = let (size, r') = read_uint32 r in read_elements s size r'

  unfoldable pub finish : {A B : Type 0} → Option A → B → Result (A × B)
  finish none r = Result.undefined
  finish (some a) r = Result.ok (a, r)

  unfoldable pub deserialize_c_generic :
      (s : Scalar) (layout : Layout)
      → Held (ValueOf F D s) layout
      → RxStream F
      → Result (Held (ValueOf F D s) layout × RxStream F)
  deserialize_c_generic s Layout.single old r = Result.ok (read_scalar s old r)
  deserialize_c_generic s (Layout.fixed n) olds r = Result.ok (read_each (read_scalar s) n olds r)
  deserialize_c_generic s (Layout.bounded n) olds r = read_c_sequence s r
  deserialize_c_generic s Layout.unbounded olds r = read_c_sequence s r

  unfoldable pub deserialize_c_string :
      (layout : Layout)
      → Held (List ℕ) layout
      → RxStream F
      → Result (Held (List ℕ) layout × RxStream F)
  deserialize_c_string Layout.single old r =
      let (str, r') = assigned [] (read_string r) in Result.ok (assign_string str, r')
  deserialize_c_string (Layout.fixed n) olds r =
      read_vector Scalar.string r >>= (λ p. finish (assign_vector_string p.0 olds n) p.1)
  deserialize_c_string (Layout.bounded n) olds r =
      read_vector Scalar.string r >>= (λ p. Result.ok (assign_vector_string_to_sequence p.0, p.1))
  deserialize_c_string Layout.unbounded olds r =
      read_vector Scalar.string r >>= (λ p. Result.ok (assign_vector_string_to_sequence p.0, p.1))

  unfoldable pub deserialize_c_wstring :
      (layout : Layout)
      → Held (List ℕ) layout
      → RxStream F
      → Result (Held (List ℕ) layout × RxStream F)
  deserialize_c_wstring Layout.single old r =
      let (str, r') = assigned [] (read_u16string r) in Result.ok (assign_u16string str, r')
  deserialize_c_wstring (Layout.fixed n) olds r =
      read_vector Scalar.wstring r >>= (λ p. finish (assign_vector_u16string p.0 olds n) p.1)
  deserialize_c_wstring (Layout.bounded n) olds r =
      read_vector Scalar.wstring r
      >>= (λ p. Result.ok (assign_vector_u16string_to_sequence p.0, p.1))
  deserialize_c_wstring Layout.unbounded olds r =
      read_vector Scalar.wstring r
      >>= (λ p. Result.ok (assign_vector_u16string_to_sequence p.0, p.1))

  unfoldable pub deserialize_c_field :
      (s : Scalar) (layout : Layout)
      → Held (ValueOf F D s) layout
      → RxStream F
      → Result (Held (ValueOf F D s) layout × RxStream F)
  deserialize_c_field Scalar.string layout old r = deserialize_c_string layout old r
  deserialize_c_field Scalar.wstring layout old r = deserialize_c_wstring layout old r
  deserialize_c_field s layout old r = deserialize_c_generic s layout old r
