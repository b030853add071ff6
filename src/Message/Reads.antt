-- ===== src/Message/Reads.antt =====
-- What the reads of src/desert_classes/NanoCBorStream.cpp take from the packet that is being read, from
-- the iterator on.
use rmw_desert.Prelude.{
  ℕ, zero, suc, ◌+◌, ◌%◌, ◌^◌, ◌<◌, ◌≡◌, refl, ap, ap₂, ◌∙◌, Bool, Option, none, some, List, [],
  ◌∷◌, ◌++◌, map, arith, length, drop, get_elem?, All,
}
use rmw_desert.Prelude.Int.{ℤ, cast_signed, IsSigned}
use rmw_desert.Cbor.Rx.{
  Field, RxStream, current, advance, read_uint64, read_uint32, read_uint16, read_uint8, read_int64,
  read_int32, read_int16, read_int8, read_char, read_float, read_double, read_string,
  read_u16string, read_bool,
}
use rmw_desert.Cbor.Interpret.{field_of}
use rmw_desert.Cbor.Interpret.Values.{Value, IsValue, item_of, tagged}
use rmw_desert.Cbor.Interpret.Reads.{read_value-current}
use rmw_desert.Message.{Language, Scalar, Result, ◌>>=◌, ValueOf}
use rmw_desert.Message.Fields.{Floats, assigned, read_each, read_scalar}
use rmw_desert.Message.Values.{value_of, IsExact, IsScalar}

drop-first :
    {A : Type 0} (i : ℕ) (xs : List A) (y : A) (ys : List A)
    → drop i xs ≡ y ∷ ys
    → (get_elem? xs i ≡ some y) × (drop (suc i) xs ≡ ys)
drop-first zero [] y ys e = absurd cc
drop-first zero (x ∷ xs) y ys e = (cc, cc)
drop-first (suc i) [] y ys e = absurd cc
drop-first (suc i) (x ∷ xs) y ys e = drop-first i xs y ys e

length-zero : {A : Type 0} (xs : List A) → length xs ≡ 0 → xs ≡ []
length-zero [] h = refl
length-zero (x ∷ xs) h = absurd (omega arith)

module _ {F : Type 0} where
  -- The fields that are not read yet.
  abbrev pub ahead : RxStream F → List (Field F)
  ahead r = drop r.buffered_iterator r.buffered_packet

  abbrev pub fields_of : List (Value F) → List (Field F)
  fields_of vs = map field_of (map item_of vs)

  pub fields_of-append :
      (us vs : List (Value F)) (rest : List (Field F))
      → fields_of (us ++ vs) ++ rest ≡ fields_of us ++ (fields_of vs ++ rest)
  fields_of-append [] vs rest = refl
  fields_of-append (u ∷ us) vs rest =
      ap (λ xs. field_of (item_of u) ∷ xs) (fields_of-append us vs rest)

  -- Reads move the iterator, and change nothing else of the stream.
  abbrev pub moved : RxStream F → ℕ → RxStream F
  moved r k = record r { buffered_iterator = k }

  -- Where the values `vs` are ahead, the call returns `a` and has read them.
  abbrev pub Reads : {A : Type 0} → List (Value F) → (RxStream F → A × RxStream F) → A → Type 0
  Reads vs act a =
      (r : RxStream F) (rest : List (Field F))
      → ahead r ≡ fields_of vs ++ rest
      → (k : ℕ) × (act r ≡ (a, moved r k)) × (ahead (moved r k) ≡ rest)

  abbrev pub Gives :
      {A : Type 0} → List (Value F) → (RxStream F → Result (A × RxStream F)) → A → Type 0
  Gives vs act a =
      (r : RxStream F) (rest : List (Field F))
      → ahead r ≡ fields_of vs ++ rest
      → (k : ℕ) × (act r ≡ Result.ok (a, moved r k)) × (ahead (moved r k) ≡ rest)

  pub ahead-current :
      (r : RxStream F) (f : Field F) (rest : List (Field F))
      → ahead r ≡ f ∷ rest
      → (current r ≡ some f) × (ahead (advance r) ≡ rest)
  unfolding current advance
  ahead-current r f rest e =
      let next : r.buffered_iterator + 1 ≡ suc r.buffered_iterator = omega arith in
      rw next (drop-first r.buffered_iterator r.buffered_packet f rest e)

  untag :
      {A : Type 0} (wrap : A → Value F)
      → ((a b : A) → wrap a ≡ wrap b → a ≡ b)
      → (p : Option A × RxStream F) (a : A) (r : RxStream F) → tagged wrap p ≡ (some (wrap a), r)
      → p ≡ (some a, r)
  untag wrap inj (none, r') a r e = absurd cc
  untag wrap inj (some b, r') a r e =
      let same : b ≡ a = inj b a cc in
      let state : r' ≡ r = cc in ap₂ (λ x y. (some x, y)) same state

  -- A read takes the field under the iterator.
  Reads-first :
      {A : Type 0} (v : Value F) (act : RxStream F → A × RxStream F) (a : A)
      → ((r : RxStream F) → current r ≡ some (field_of (item_of v)) → act r ≡ (a, advance r))
      → Reads (v ∷ []) act a
  Reads-first v act a here r rest e =
      let (at, after) = ahead-current r (field_of (item_of v)) rest e in
      (r.buffered_iterator + 1, unfold advance in here r at, unfold advance in after)

  module _ {D : Type 0} (floats : Floats F D) where
    read_scalar-current :
        (lang : Language) (s : Scalar) (v old : ValueOf F D s) (r : RxStream F)
        → IsValue (value_of floats s v)
        → IsExact floats lang s v
        → current r ≡ some (field_of (item_of (value_of floats s v)))
        → read_scalar floats s old r ≡ (v, advance r)
    unfolding read_scalar read_double
    read_scalar-current lang Scalar.boolean v old r h x e = ap (assigned old) (
        untag Value.bool (λ a b q. cc) (read_bool r) v (advance r)
          (read_value-current (Value.bool v) r h e))
    read_scalar-current lang Scalar.uint8 v old r h x e =
        ap (assigned (floats.junk_uint64 % 2 ^ 8)) (
          untag Value.uint8 (λ a b q. cc) (read_uint8 r) v (advance r)
            (read_value-current (Value.uint8 v) r h e))
    read_scalar-current lang Scalar.char v old r h x e = ap (assigned old) (
        untag Value.char (λ a b q. cc) (read_char r) v (advance r)
          (read_value-current (Value.char v) r h e))
    read_scalar-current lang Scalar.int8 v old r h x e =
        ap (assigned (cast_signed 8 floats.junk_int64)) (
          untag Value.int8 (λ a b q. cc) (read_int8 r) v (advance r)
            (read_value-current (Value.int8 v) r h e))
    read_scalar-current lang Scalar.float v old r h x e = ap (assigned old) (
        untag Value.float (λ a b q. cc) (read_float r) v (advance r)
          (read_value-current (Value.float v) r h e))
    read_scalar-current lang Scalar.double v old r h x e = rw (
      untag Value.float (λ a b q. cc) (read_float r) (floats.to_float v) (advance r)
          (read_value-current (Value.float (floats.to_float v)) r h e),
      x,
    )
    read_scalar-current lang Scalar.int16 v old r h x e =
        ap (assigned (cast_signed 16 floats.junk_int64)) (
          untag Value.int16 (λ a b q. cc) (read_int16 r) v (advance r)
            (read_value-current (Value.int16 v) r h e))
    read_scalar-current lang Scalar.uint16 v old r h x e =
        ap (assigned (floats.junk_uint64 % 2 ^ 16)) (
          untag Value.uint16 (λ a b q. cc) (read_uint16 r) v (advance r)
            (read_value-current (Value.uint16 v) r h e))
    read_scalar-current lang Scalar.int32 v old r h x e =
        ap (assigned (cast_signed 32 floats.junk_int64)) (
          untag Value.int32 (λ a b q. cc) (read_int32 r) v (advance r)
            (read_value-current (Value.int32 v) r h e))
    read_scalar-current lang Scalar.uint32 v old r h x e =
        ap (assigned (floats.junk_uint64 % 2 ^ 32)) (
          untag Value.uint32 (λ a b q. cc) (read_uint32 r) v (advance r)
            (read_value-current (Value.uint32 v) r h e))
    read_scalar-current lang Scalar.int64 v old r h x e = ap (assigned old) (
        untag Value.int64 (λ a b q. cc) (read_int64 r) v (advance r)
          (read_value-current (Value.int64 v) r h e))
    read_scalar-current lang Scalar.uint64 v old r h x e = ap (assigned old) (
        untag Value.uint64 (λ a b q. cc) (read_uint64 r) v (advance r)
          (read_value-current (Value.uint64 v) r h e))
    read_scalar-current lang Scalar.string v old r h x e = ap (assigned old) (
        untag Value.string (λ a b q. cc) (read_string r) v (advance r)
          (read_value-current (Value.string v) r h e))
    read_scalar-current lang Scalar.wstring v old r h x e = ap (assigned old) (
        untag Value.u16string (λ a b q. cc) (read_u16string r) v (advance r)
          (read_value-current (Value.u16string v) r h e))

    pub scalar-Reads :
        (lang : Language) (s : Scalar) (v old : ValueOf F D s)
        → IsScalar floats lang s v
        → Reads (value_of floats s v ∷ []) (read_scalar floats s old) v
    scalar-Reads lang s v old h =
        Reads-first (value_of floats s v) (read_scalar floats s old) v
          (λ r e. read_scalar-current lang s v old r h.0 h.1 e)

  -- The number in front of a sequence.
  read_uint32-current :
      (n : ℕ) (r : RxStream F)
      → n < 2 ^ 32
      → current r ≡ some (Field.uint n)
      → read_uint32 r ≡ (some n, advance r)
  unfolding field_of
  read_uint32-current n r small e =
      untag Value.uint32 (λ a b q. cc) (read_uint32 r) n (advance r)
        (read_value-current (Value.uint32 n) r small e)

  pub size-Reads : (n : ℕ) → n < 2 ^ 32 → Reads (Value.uint32 n ∷ []) read_uint32 (some n)
  unfolding field_of
  size-Reads n small =
      Reads-first (Value.uint32 n) read_uint32 (some n) (λ r e. read_uint32-current n r small e)

  -- The reads of an `int` and of a `bool` that have no value before.
  pub signed-Reads : (z : ℤ) → IsSigned 32 z → Reads (Value.int32 z ∷ []) read_int32 (some z)
  signed-Reads z small = Reads-first (Value.int32 z) read_int32 (some z) (λ r e.
      untag Value.int32 (λ a b q. cc) (read_int32 r) z (advance r)
        (read_value-current (Value.int32 z) r small e))

  pub flag-Reads : (b : Bool) → Reads (Value.bool b ∷ []) read_bool (some b)
  flag-Reads b = Reads-first (Value.bool b) read_bool (some b) (λ r e.
      untag Value.bool (λ x y q. cc) (read_bool r) b (advance r)
        (read_value-current (Value.bool b) r tt e))

  pub read_each-Reads :
      {A : Type 0} {P : A → Type 0} (read : A → RxStream F → A × RxStream F) (value : A → Value F)
      → ((v old : A) → P v → Reads (value v ∷ []) (read old) v)
      → (vs olds : List A) → length olds ≡ length vs
      → All P vs
      → Reads (map value vs) (read_each read (length vs) olds) vs
  unfolding read_each
  read_each-Reads read value one [] olds size h r rest e =
      (r.buffered_iterator, ap (λ x. (x, r)) (length-zero olds size), e)
  read_each-Reads read value one (v ∷ vs) [] size h r rest e = absurd (omega arith)
  read_each-Reads read value one (v ∷ vs) (old ∷ olds) size h r rest e =
      let (k, here, next) = one v old h.0 r (fields_of (map value vs) ++ rest) e in
      let (k', later, end) =
        read_each-Reads read value one vs olds (omega arith) h.1 (moved r k) rest next in
      (k', rw (here, later), end)

  -- One call after the other.
  pub Gives-pair :
      {A B C : Type 0} (us vs : List (Value F)) (first : RxStream F → Result (A × RxStream F))
      (second : RxStream F → Result (B × RxStream F)) (join : A → B → C) (a : A) (b : B)
      → Gives us first a
      → Gives vs second b
      → Gives
          (us ++ vs)
          (λ r. first r >>= (λ p. second p.1 >>= (λ q. Result.ok (join p.0 q.0, q.1))))
          (join a b)
  Gives-pair us vs first second join a b one two r rest e =
      let (k, here, next) = one r (fields_of vs ++ rest) (e ∙ fields_of-append us vs rest) in
      let (k', later, end) = two (moved r k) rest next in (k', rw (here, later), end)

  pub Gives-none : {A : Type 0} (a : A) → Gives [] (λ r. Result.ok (a, r)) a
  Gives-none a r rest e = (r.buffered_iterator, refl, e)

  pub Reads-Gives :
      {A : Type 0} (vs : List (Value F)) (act : RxStream F → A × RxStream F) (a : A)
      → Reads vs act a
      → Gives vs (λ r. Result.ok (act r)) a
  Reads-Gives vs act a reads r rest e =
      let (k, here, next) = reads r rest e in (k, ap Result.ok here, next)

  -- A call that goes on with what a read returns.
  pub Reads-then :
      {A B : Type 0} (us vs : List (Value F)) (first : RxStream F → A × RxStream F)
      (second : A → RxStream F → Result (B × RxStream F)) (a : A) (b : B)
      → Reads us first a
      → Gives vs (second a) b
      → Gives (us ++ vs) (λ r. second (first r).0 (first r).1) b
  Reads-then us vs first second a b one two r rest e =
      let (k, here, next) = one r (fields_of vs ++ rest) (e ∙ fields_of-append us vs rest) in
      let (k', later, end) = two (moved r k) rest next in (k', rw here later, end)

  pub Gives-map :
      {A B : Type 0} (vs : List (Value F)) (act : RxStream F → Result (A × RxStream F))
      (after : A × RxStream F → Result (B × RxStream F)) (a : A) (b : B)
      → ((r : RxStream F) → after (a, r) ≡ Result.ok (b, r))
      → Gives vs act a
      → Gives vs (λ r. act r >>= after) b
  Gives-map vs act after a b same gives r rest e =
      let (k, here, next) = gives r rest e in (k, rw here (same (moved r k)), next)
