-- ===== src/Message/Values.antt =====
-- The values that a message of src/desert_classes/MessageSerialization.h puts on the stream, and the
-- messages that come back from it.
use rmw_desert.Prelude.{ℕ, Bool, ◌<◌, ◌≤◌, ◌^◌, ◌≡◌, ◌≢◌, List, [], ◌∷◌, ◌++◌, length, map, All}
use rmw_desert.Cbor.Interpret.Values.{Value, IsValue}
use rmw_desert.Message.{Language, Scalar, Layout, Members, Held, ValueOf, Memory}
use rmw_desert.Message.Fields.{Floats}

abbrev pub flat : {F M : Type 0} → (M → List (Value F)) → List M → List (Value F)
flat values [] = []
flat values (m ∷ ms) = values m ++ flat values ms

abbrev pub nested_values :
    {F M : Type 0} → (M → List (Value F)) → (layout : Layout) → Held M layout → List (Value F)
nested_values values Layout.single m = values m
nested_values values (Layout.fixed n) ms = flat values ms
nested_values values (Layout.bounded n) ms = Value.uint32 (length ms) ∷ flat values ms
nested_values values Layout.unbounded ms = Value.uint32 (length ms) ∷ flat values ms

-- A text that the functions for C copy whole: one without zeros.
abbrev pub Unbroken : Language → List ℕ → Type 0
Unbroken Language.c_members text = All (λ x. x ≢ 0) text
Unbroken Language.cpp_members text = Unit {0}

-- An array with as many elements as its type says, a sequence with as many as a `uint32_t` counts.
abbrev pub IsSized : (A : Type 0) (layout : Layout) → Held A layout → Type 0
IsSized A Layout.single v = Unit {0}
IsSized A (Layout.fixed n) vs = (length vs ≡ n) × (n < 2 ^ 32)
IsSized A (Layout.bounded n) vs = length vs < 2 ^ 32
IsSized A Layout.unbounded vs = length vs < 2 ^ 32

abbrev pub IsWithin : (A : Type 0) (layout : Layout) → Held A layout → Type 0
IsWithin A (Layout.bounded n) vs = length vs ≤ n
IsWithin A layout vs = Unit {0}

abbrev pub Each : {A : Type 0} → (A → Type 0) → (layout : Layout) → Held A layout → Type 0
Each P Layout.single v = P v
Each P (Layout.fixed n) vs = All P vs
Each P (Layout.bounded n) vs = All P vs
Each P Layout.unbounded vs = All P vs

-- A sequence of `bool` of C++ does not come back unless it is empty.
abbrev pub IsEmpty : (A : Type 0) (layout : Layout) → Held A layout → Type 0
IsEmpty A (Layout.bounded n) vs = vs ≡ []
IsEmpty A Layout.unbounded vs = vs ≡ []
IsEmpty A layout v = Unit {0}

-- Memory in which every array has its size.
abbrev pub HasShape : {M : Type 0} → (M → Type 0) → (layout : Layout) → Held M layout → Type 0
HasShape P Layout.single m = P m
HasShape P (Layout.fixed n) ms = (length ms ≡ n) × All P ms
HasShape P (Layout.bounded n) ms = Unit {0}
HasShape P Layout.unbounded ms = Unit {0}

module _ {F D : Type 0} (floats : Floats F D) where
  abbrev pub value_of : (s : Scalar) → ValueOf F D s → Value F
  value_of Scalar.boolean v = Value.bool v
  value_of Scalar.uint8 v = Value.uint8 v
  value_of Scalar.char v = Value.char v
  value_of Scalar.int8 v = Value.int8 v
  value_of Scalar.float v = Value.float v
  value_of Scalar.double v = Value.float (floats.to_float v)
  value_of Scalar.int16 v = Value.int16 v
  value_of Scalar.uint16 v = Value.uint16 v
  value_of Scalar.int32 v = Value.int32 v
  value_of Scalar.uint32 v = Value.uint32 v
  value_of Scalar.int64 v = Value.int64 v
  value_of Scalar.uint64 v = Value.uint64 v
  value_of Scalar.string v = Value.string v
  value_of Scalar.wstring v = Value.u16string v

  abbrev pub plain_values :
      (s : Scalar) (layout : Layout) → Held (ValueOf F D s) layout → List (Value F)
  plain_values s Layout.single v = value_of s v ∷ []
  plain_values s (Layout.fixed n) vs = map (value_of s) vs
  plain_values s (Layout.bounded n) vs = Value.uint32 (length vs) ∷ map (value_of s) vs
  plain_values s Layout.unbounded vs = Value.uint32 (length vs) ∷ map (value_of s) vs

  -- The arrays of texts of C carry their size.
  abbrev pub text_values :
      (s : Scalar) (layout : Layout) → Held (ValueOf F D s) layout → List (Value F)
  text_values s (Layout.fixed n) vs = Value.uint32 n ∷ map (value_of s) vs
  text_values s layout v = plain_values s layout v

  abbrev pub field_values :
      Language → (s : Scalar) (layout : Layout) → Held (ValueOf F D s) layout → List (Value F)
  field_values Language.c_members Scalar.string layout v = text_values Scalar.string layout v
  field_values Language.c_members Scalar.wstring layout v = text_values Scalar.wstring layout v
  field_values lang s layout v = plain_values s layout v

  abbrev pub message_values : Language → (ms : Members) → Memory F D ms → List (Value F)
  message_values lang Members.end m = []
  message_values lang (Members.scalar s layout ms) (v, m) =
      field_values lang s layout v ++ message_values lang ms m
  message_values lang (Members.nested sub layout ms) (v, m) =
      nested_values (message_values lang sub) layout v ++ message_values lang ms m
  message_values lang (Members.octet layout ms) (v, m) = message_values lang ms m
  message_values lang (Members.unknown ms) m = []

  -- What a value must be to come back: a value of its type, a double that a float holds, and in C a
  -- text without zeros.
  abbrev pub IsExact : Language → (s : Scalar) → ValueOf F D s → Type 0
  IsExact lang Scalar.double v = floats.to_double (floats.to_float v) ≡ v
  IsExact lang Scalar.string v = Unbroken lang v
  IsExact lang Scalar.wstring v = Unbroken lang v
  IsExact lang s v = Unit {0}

  abbrev pub IsScalar : Language → (s : Scalar) → ValueOf F D s → Type 0
  IsScalar lang s v = IsValue (value_of s v) × IsExact lang s v

  abbrev pub IsReadable :
      Language → (s : Scalar) (layout : Layout) → Held (ValueOf F D s) layout → Type 0
  IsReadable Language.cpp_members Scalar.boolean layout v = IsEmpty Bool layout v
  IsReadable lang s layout v = Unit {0}

  abbrev pub IsField :
      Language → (s : Scalar) (layout : Layout) → Held (ValueOf F D s) layout → Type 0
  IsField lang s layout v =
      IsSized (ValueOf F D s) layout v
      × IsReadable lang s layout v
      × Each (IsScalar lang s) layout v

  -- The messages that come back: no octet and no unknown type among the members.
  abbrev pub IsMessage : Language → (ms : Members) → Memory F D ms → Type 0
  IsMessage lang Members.end m = Unit {0}
  IsMessage lang (Members.scalar s layout ms) (v, m) = IsField lang s layout v × IsMessage lang ms m
  IsMessage lang (Members.nested sub layout ms) (v, m) =
      IsSized (Memory F D sub) layout v
      × IsWithin (Memory F D sub) layout v
      × Each (IsMessage lang sub) layout v
      × IsMessage lang ms m
  IsMessage lang (Members.octet layout ms) m = ⊥
  IsMessage lang (Members.unknown ms) m = ⊥

  abbrev pub IsShaped : (ms : Members) → Memory F D ms → Type 0
  IsShaped Members.end m = Unit {0}
  IsShaped (Members.scalar s layout ms) (v, m) = HasShape (λ x. Unit {0}) layout v × IsShaped ms m
  IsShaped (Members.nested sub layout ms) (v, m) = HasShape (IsShaped sub) layout v × IsShaped ms m
  IsShaped (Members.octet layout ms) (v, m) = IsShaped ms m
  IsShaped (Members.unknown ms) m = IsShaped ms m

  -- `resize_function` makes as many elements as it is told, each of its type.
  pub record IsResize (resized : (ms : Members) → ℕ → List (Memory F D ms)) : Type 0 where
    pub length-resized : (ms : Members) (n : ℕ) → length (resized ms n) ≡ n
    pub resized-IsShaped : (ms : Members) (n : ℕ) → All (IsShaped ms) (resized ms n)
