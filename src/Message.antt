-- ===== src/Message.antt =====
-- src/desert_classes/MessageSerialization.h and CStringHelper.cpp: messages in memory, described by the
-- type support that the generated code passes, and their way into a TxStream and out of an RxStream.
pub mod Strings
pub mod Fields
pub mod Whole
pub mod Values
pub mod Writes
pub mod Reads
pub mod Back
pub mod RoundTrip
pub mod Typed
pub mod Exchange
pub mod Throws
pub mod Mixed
use rmw_desert.Prelude.{ℕ, Bool, true, false, not, ◌&&◌, ◌==◌, if◌then◌else◌, List}
use rmw_desert.Prelude.Int.{ℤ}

-- Which of the two functions of a pair is called: that for the members of the C or of the C++
-- introspection.
pub data Language : Type 0 where
  c_members : Language
  cpp_members : Language

-- The elementary values of `type_id_`.
pub data Scalar : Type 0 where
  boolean : Scalar
  uint8 : Scalar
  char : Scalar
  int8 : Scalar
  float : Scalar
  double : Scalar
  int16 : Scalar
  uint16 : Scalar
  int32 : Scalar
  uint32 : Scalar
  int64 : Scalar
  uint64 : Scalar
  string : Scalar
  wstring : Scalar

-- How many values a member has.
pub data Layout : Type 0 where
  single : Layout
  fixed : ℕ → Layout
  bounded : ℕ → Layout
  unbounded : Layout

-- The tests on `is_array_`, `array_size_` and `is_upper_bound_`.
unfoldable pub layout_of : Bool → ℕ → Bool → Layout
layout_of is_array array_size is_upper_bound =
    if not is_array
    then Layout.single
    else if not (array_size == 0) && not is_upper_bound
    then Layout.fixed array_size
    else if is_upper_bound
    then Layout.bounded array_size
    else Layout.unbounded

-- The members of a message type, one after the other; `nested` has the members of the message type
-- that the member is of.
pub data Members : Type 0 where
  end : Members
  scalar : Scalar → Layout → Members → Members
  nested : Members → Layout → Members → Members
  octet : Layout → Members → Members
  unknown : Members → Members

-- A call returns, throws an exception, does what C++ leaves undefined, or does not end.
pub data Result (A : Type 0) : Type 0 where
  ok : A → Result A
  throws : Result A
  undefined : Result A
  endless : Result A

infixl 5 ◌>>=◌
abbrev pub ◌>>=◌ : {A B : Type 0} → Result A → (A → Result B) → Result B
Result.ok a >>= f = f a
Result.throws >>= f = Result.throws
Result.undefined >>= f = Result.undefined
Result.endless >>= f = Result.endless

-- What lies in memory where a member's field is.
abbrev pub Held : Type 0 → Layout → Type 0
Held A Layout.single = A
Held A (Layout.fixed n) = List A
Held A (Layout.bounded n) = List A
Held A Layout.unbounded = List A

-- `D` are the values of `double`. A character is a number, a text the list of its units.
abbrev pub ValueOf : Type 0 → Type 0 → Scalar → Type 0
ValueOf F D Scalar.boolean = Bool
ValueOf F D Scalar.uint8 = ℕ
ValueOf F D Scalar.char = ℕ
ValueOf F D Scalar.int8 = ℤ
ValueOf F D Scalar.float = F
ValueOf F D Scalar.double = D
ValueOf F D Scalar.int16 = ℤ
ValueOf F D Scalar.uint16 = ℕ
ValueOf F D Scalar.int32 = ℤ
ValueOf F D Scalar.uint32 = ℕ
ValueOf F D Scalar.int64 = ℤ
ValueOf F D Scalar.uint64 = ℕ
ValueOf F D Scalar.string = List ℕ
ValueOf F D Scalar.wstring = List ℕ

abbrev pub Memory : Type 0 → Type 0 → Members → Type 0
Memory F D Members.end = Unit {0}
Memory F D (Members.scalar s layout ms) = Held (ValueOf F D s) layout × Memory F D ms
Memory F D (Members.nested sub layout ms) = Held (Memory F D sub) layout × Memory F D ms
Memory F D (Members.octet layout ms) = Held ℕ layout × Memory F D ms
Memory F D (Members.unknown ms) = Memory F D ms
