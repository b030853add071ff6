-- ===== src/Message/Whole.antt =====
-- `serialize` and `deserialize` of src/desert_classes/MessageSerialization.h on whole messages.
use rmw_desert.Prelude.{
  ℕ, zero, suc, ◌%◌, ◌^◌, Option, none, some, List, [], ◌∷◌, length, take, ltb, if◌then◌else◌,
}
use rmw_desert.Cbor.{Nanocbor}
use rmw_desert.Cbor.Tx.{TxStream, write_uint32}
use rmw_desert.Cbor.Rx.{RxStream, read_uint32}
use rmw_desert.Message.{Language, Scalar, Layout, Members, Result, ◌>>=◌, Held, ValueOf, Memory}
use rmw_desert.Message.Fields.{
  Floats, serialize_cpp_field, serialize_c_field, deserialize_cpp_field, deserialize_c_field,
}

-- A loop over the elements of an array of messages.
unfoldable pub serialize_each :
    {M : Type 0} → (M → TxStream → Result TxStream) → List M → TxStream → Result TxStream
serialize_each serialize [] t = Result.ok t
serialize_each serialize (m ∷ ms) t = serialize m t >>= (λ t'. serialize_each serialize ms t')

-- The case of `ROS_TYPE_MESSAGE`. A bounded sequence that is too long throws.
unfoldable pub serialize_nested :
    {F M : Type 0}
    → Nanocbor F
    → (M → TxStream → Result TxStream)
    → (layout : Layout) → Held M layout
    → TxStream
    → Result TxStream
serialize_nested c serialize Layout.single m t = serialize m t
serialize_nested c serialize (Layout.fixed n) ms t = serialize_each serialize (take n ms) t
serialize_nested c serialize (Layout.bounded n) ms t =
    if ltb n (length ms)
    then Result.throws
    else serialize_each serialize ms (write_uint32 c (length ms % 2 ^ 32) t)
serialize_nested c serialize Layout.unbounded ms t =
    serialize_each serialize ms (write_uint32 c (length ms % 2 ^ 32) t)

-- A loop over `n` elements, which hold `olds`.
unfoldable pub deserialize_each :
    {M R : Type 0} → (M → R → Result (M × R)) → ℕ → List M → R → Result (List M × R)
deserialize_each deserialize zero olds r = Result.ok (olds, r)
deserialize_each deserialize (suc n) [] r = Result.ok ([], r)
deserialize_each deserialize (suc n) (old ∷ olds) r =
    deserialize old r
    >>= (λ p. deserialize_each deserialize n olds p.1 >>= (λ q. Result.ok (p.0 ∷ q.0, q.1)))

-- The elements of a sequence, once its size is read; what is assigned where none is read is undefined.
-- `resized` is what `resize_function` makes of a sequence that was emptied.
unfoldable pub deserialize_resized :
    {M R : Type 0} → (ℕ → List M) → (M → R → Result (M × R)) → Option ℕ → R → Result (List M × R)
deserialize_resized resized deserialize none r = Result.undefined
deserialize_resized resized deserialize (some size) r =
    deserialize_each deserialize size (resized size) r

unfoldable pub deserialize_nested :
    {F M : Type 0}
    → (ℕ → List M)
    → (M → RxStream F → Result (M × RxStream F))
    → (layout : Layout) → Held M layout
    → RxStream F
    → Result (Held M layout × RxStream F)
deserialize_nested resized deserialize Layout.single old r = deserialize old r
deserialize_nested resized deserialize (Layout.fixed n) olds r =
    deserialize_each deserialize n olds r
deserialize_nested resized deserialize (Layout.bounded n) olds r =
    let (size, r') = read_uint32 r in deserialize_resized resized deserialize size r'
deserialize_nested resized deserialize Layout.unbounded olds r =
    let (size, r') = read_uint32 r in deserialize_resized resized deserialize size r'

module _ {F D : Type 0} (floats : Floats F D) where
  unfoldable pub serialize_field :
      Nanocbor F
      → Language
      → (s : Scalar) (layout : Layout) → Held (ValueOf F D s) layout
      → TxStream
      → TxStream
  serialize_field c Language.c_members s layout v t = serialize_c_field floats c s layout v t
  serialize_field c Language.cpp_members s layout v t = serialize_cpp_field floats c s layout v t

  unfoldable pub deserialize_field :
      Language
      → (s : Scalar) (layout : Layout) → Held (ValueOf F D s) layout
      → RxStream F
      → Result (Held (ValueOf F D s) layout × RxStream F)
  deserialize_field Language.c_members s layout old r = deserialize_c_field floats s layout old r
  deserialize_field Language.cpp_members s layout old r =
      deserialize_cpp_field floats s layout old r

  -- An octet is skipped; a type that is not known throws.
  unfoldable pub serialize :
      Nanocbor F → Language → (ms : Members) → Memory F D ms → TxStream → Result TxStream
  serialize c lang Members.end m t = Result.ok t
  serialize c lang (Members.scalar s layout ms) (v, m) t =
      serialize c lang ms m (serialize_field c lang s layout v t)
  serialize c lang (Members.nested sub layout ms) (v, m) t =
      serialize_nested c (serialize c lang sub) layout v t >>= (λ t'. serialize c lang ms m t')
  serialize c lang (Members.octet layout ms) (v, m) t = serialize c lang ms m t
  serialize c lang (Members.unknown ms) m t = Result.throws

  -- `resized` stands for the `resize_function` of the generated code.
  unfoldable pub deserialize :
      ((ms : Members) → ℕ → List (Memory F D ms))
      → Language
      → (ms : Members) → Memory F D ms
      → RxStream F
      → Result (Memory F D ms × RxStream F)
  deserialize resized lang Members.end m r = Result.ok (m, r)
  deserialize resized lang (Members.scalar s layout ms) (old, m) r =
      deserialize_field lang s layout old r
      >>= (λ p. deserialize resized lang ms m p.1 >>= (λ q. Result.ok ((p.0, q.0), q.1)))
  deserialize resized lang (Members.nested sub layout ms) (old, m) r =
      deserialize_nested (resized sub) (deserialize resized lang sub) layout old r
      >>= (λ p. deserialize resized lang ms m p.1 >>= (λ q. Result.ok ((p.0, q.0), q.1)))
  deserialize resized lang (Members.octet layout ms) (old, m) r =
      deserialize resized lang ms m r >>= (λ q. Result.ok ((old, q.0), q.1))
  deserialize resized lang (Members.unknown ms) m r = Result.throws
