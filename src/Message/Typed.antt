-- ===== src/Message/Typed.antt =====
-- The types of the values that a message of src/desert_classes/MessageSerialization.h puts on the stream.
use rmw_desert.Prelude.{List, [], ◌∷◌, ◌++◌, map, All}
use rmw_desert.Cbor.Interpret.Values.{Value, IsValue}
use rmw_desert.Message.{Language, Scalar, Layout, Members, Held, ValueOf, Memory}
use rmw_desert.Message.Fields.{Floats}
use rmw_desert.Message.Values.{
  value_of, flat, nested_values, plain_values, text_values, field_values, message_values, IsSized,
  Each, IsScalar, IsField, IsMessage,
}

pub append-IsValue :
    {F : Type 0} (us vs : List (Value F)) → All IsValue us → All IsValue vs → All IsValue (us ++ vs)
append-IsValue [] vs h k = k
append-IsValue (u ∷ us) vs h k = (h.0, append-IsValue us vs h.1 k)

flat-IsValue :
    {F M : Type 0} {P : M → Type 0} (values : M → List (Value F))
    → ((m : M) → P m → All IsValue (values m))
    → (ms : List M) → All P ms
    → All IsValue (flat values ms)
flat-IsValue values one [] h = tt
flat-IsValue values one (m ∷ ms) h =
    append-IsValue (values m) (flat values ms) (one m h.0) (flat-IsValue values one ms h.1)

nested-IsValue :
    {F M : Type 0} {P : M → Type 0} (values : M → List (Value F))
    → ((m : M) → P m → All IsValue (values m))
    → (layout : Layout) (v : Held M layout) → IsSized M layout v
    → Each P layout v
    → All IsValue (nested_values values layout v)
nested-IsValue values one Layout.single m sized h = one m h
nested-IsValue values one (Layout.fixed n) ms sized h = flat-IsValue values one ms h
nested-IsValue values one (Layout.bounded n) ms sized h = (sized, flat-IsValue values one ms h)
nested-IsValue values one Layout.unbounded ms sized h = (sized, flat-IsValue values one ms h)

module _ {F D : Type 0} (floats : Floats F D) (lang : Language) where
  scalars-IsValue :
      (s : Scalar) (vs : List (ValueOf F D s))
      → All (IsScalar floats lang s) vs
      → All IsValue (map (value_of floats s) vs)
  scalars-IsValue s [] h = tt
  scalars-IsValue s (v ∷ vs) h = (h.0.0, scalars-IsValue s vs h.1)

  plain-IsValue :
      (s : Scalar) (layout : Layout) (v : Held (ValueOf F D s) layout)
      → IsSized (ValueOf F D s) layout v
      → Each (IsScalar floats lang s) layout v
      → All IsValue (plain_values floats s layout v)
  plain-IsValue s Layout.single v sized h = (h.0, tt)
  plain-IsValue s (Layout.fixed n) vs sized h = scalars-IsValue s vs h
  plain-IsValue s (Layout.bounded n) vs sized h = (sized, scalars-IsValue s vs h)
  plain-IsValue s Layout.unbounded vs sized h = (sized, scalars-IsValue s vs h)

  text-IsValue :
      (s : Scalar) (layout : Layout) (v : Held (ValueOf F D s) layout)
      → IsSized (ValueOf F D s) layout v
      → Each (IsScalar floats lang s) layout v
      → All IsValue (text_values floats s layout v)
  text-IsValue s Layout.single v sized h = (h.0, tt)
  text-IsValue s (Layout.fixed n) vs sized h = (sized.1, scalars-IsValue s vs h)
  text-IsValue s (Layout.bounded n) vs sized h = (sized, scalars-IsValue s vs h)
  text-IsValue s Layout.unbounded vs sized h = (sized, scalars-IsValue s vs h)

module _ {F D : Type 0} (floats : Floats F D) where
  field-IsValue :
      (lang : Language) (s : Scalar) (layout : Layout) (v : Held (ValueOf F D s) layout)
      → IsField floats lang s layout v
      → All IsValue (field_values floats lang s layout v)
  field-IsValue Language.c_members Scalar.string layout v h =
      text-IsValue floats Language.c_members Scalar.string layout v h.0 h.2
  field-IsValue Language.c_members Scalar.wstring layout v h =
      text-IsValue floats Language.c_members Scalar.wstring layout v h.0 h.2
  field-IsValue lang s layout v h = plain-IsValue floats lang s layout v h.0 h.2

  -- A message puts values of their types on the stream.
  pub message-IsValue :
      (lang : Language) (ms : Members) (m : Memory F D ms)
      → IsMessage floats lang ms m
      → All IsValue (message_values floats lang ms m)
  message-IsValue lang Members.end m h = tt
  message-IsValue lang (Members.scalar s layout ms) (v, m) h =
      append-IsValue (field_values floats lang s layout v) (message_values floats lang ms m)
        (field-IsValue lang s layout v h.0) (message-IsValue lang ms m h.1)
  message-IsValue lang (Members.nested sub layout ms) (v, m) h =
      append-IsValue (nested_values (message_values floats lang sub) layout v)
        (message_values floats lang ms m)
        (nested-IsValue (message_values floats lang sub) (message-IsValue lang sub) layout v h.0
          h.2)
        (message-IsValue lang ms m h.3)
  message-IsValue lang (Members.octet layout ms) m h = absurd h
  message-IsValue lang (Members.unknown ms) m h = absurd h
