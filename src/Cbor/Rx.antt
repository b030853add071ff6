-- ===== src/Cbor/Rx.antt =====
-- `RxStream` of src/desert_classes/NanoCBorStream.cpp: the received packets, the packet that is being
-- read and the typed reads of its fields.
pub mod Select
use rmw_desert.Prelude.{
  ℕ, zero, suc, ◌+◌, ◌-◌, ◌%◌, ◌^◌, Bool, true, false, not, ◌&&◌, ◌||◌, Option, some, none, List,
  [], ◌∷◌, ◌++◌, ltb, ◌==◌, if◌then◌else◌, length, get_elem?,
}
use rmw_desert.Prelude.Int.{ℤ, pos, negsuc, signed, pattern_of, cast_signed}
use rmw_desert.Utf.{to_utf16}
use rmw_desert.Cbor.Queue
use rmw_desert.Cbor.Queue.{max_buffer_capacity}

-- An interpreted field: the object behind the pointer, and its type.
pub data Field (F : Type 0) : Type 0 where
  uint : ℕ → Field F
  nint : ℤ → Field F
  float : F → Field F
  tstr : List ℕ → Field F

-- `overrun` is no variable of the code: it tells that a field behind the end of the packet was read, from
-- where on the behaviour is undefined.
pub record RxStream (F : Type 0) : Type 0 where
  pub stream_type : ℕ
  pub stream_identifier : ℕ
  pub buffered_iterator : ℕ
  pub buffered_packet : List (Field F)
  pub received_packets : List (List (Field F))
  pub overrun : Bool

-- What a search for a packet comes to: `out_of_range` is the exception of `at(0)` on a packet with no
-- field.
pub data Lookup (A : Type 0) : Type 0 where
  returns : A → Lookup A
  out_of_range : Lookup A
  undefined : Lookup A

-- Equality of integers.
unfoldable pub same : ℤ → ℤ → Bool
same (pos a) (pos b) = a == b
same (negsuc a) (negsuc b) = a == b
same _ _ = false

module _ {F : Type 0} where
  unfoldable pub push_packet : List (Field F) → RxStream F → RxStream F
  push_packet packet r = record r { received_packets = Queue.push r.received_packets packet }

  unfoldable pub clear_buffer : RxStream F → RxStream F
  clear_buffer r = record r { buffered_packet = [] }

  -- `*static_cast<int64_t *>(first)`. Behind a float or a string lies no integer: what is read there
  -- is the argument `alias`.
  unfoldable pub as_int64 : (Field F → ℤ) → Field F → ℤ
  as_int64 alias (Field.uint n) = signed 64 n
  as_int64 alias (Field.nint z) = z
  as_int64 alias (Field.float f) = alias (Field.float f)
  as_int64 alias (Field.tstr s) = alias (Field.tstr s)

  -- `_buffered_packet = _received_packets.front(); _received_packets.pop();`
  unfoldable pub take_front : ℕ → List (Field F) → List (List (Field F)) → RxStream F → RxStream F
  take_front iterator front rest r = record r {
    buffered_packet = front;
    received_packets = rest;
    buffered_iterator = iterator;
  }

  -- `_received_packets.push(_received_packets.front()); _received_packets.pop();`. A full queue destroys
  -- its front before it copies the argument, which is a reference to this front: that is undefined.
  unfoldable pub rotate : List (List (Field F)) → Lookup (List (List (Field F)))
  rotate [] = Lookup.returns []
  rotate (front ∷ rest) =
      if length (front ∷ rest) == max_buffer_capacity
      then Lookup.undefined
      else Lookup.returns (Queue.pop (Queue.push (front ∷ rest) front))

  -- The search for a sequence identifier: the rounds that are left while the size stays, the loop's
  -- index, and the queue.
  unfoldable pub search_loop : (Field F → ℤ) → ℤ → ℕ → ℕ → RxStream F → Lookup (Bool × RxStream F)
  search_loop alias sequence_id zero i r = Lookup.returns (false, r)
  search_loop alias sequence_id (suc rounds) i r =
      if ltb i (length r.received_packets)
      then elim r.received_packets [
        | [] ↦ Lookup.returns (false, r)
        | front ∷ rest ↦ elim front [
          | [] ↦ Lookup.out_of_range
          | first ∷ fields ↦
              if same (as_int64 alias first) sequence_id
              then Lookup.returns (true, take_front 1 (first ∷ fields) rest r)
              else elim (rotate r.received_packets) [
                | Lookup.returns queue ↦
                    search_loop alias sequence_id rounds (i + 1)
                      (record r { received_packets = queue })
                | Lookup.out_of_range ↦ Lookup.out_of_range
                | Lookup.undefined ↦ Lookup.undefined
              ]
        ]
      ]
      else Lookup.returns (false, r)

  unfoldable pub data_available : (Field F → ℤ) → ℤ → RxStream F → Lookup (Bool × RxStream F)
  data_available alias sequence_id r =
      if not (length r.buffered_packet == 0)
      then Lookup.returns (true, r)
      else elim r.received_packets [
        | [] ↦ Lookup.returns (false, r)
        | front ∷ rest ↦
            if same sequence_id (pos 0)
            then Lookup.returns (true, take_front 0 front rest r)
            else search_loop alias sequence_id (length r.received_packets) 0 r
      ]

  -- The field under the iterator, which every read but that of `bool` then moves on.
  unfoldable pub current : RxStream F → Option (Field F)
  current r = get_elem? r.buffered_packet r.buffered_iterator

  unfoldable pub advance : RxStream F → RxStream F
  advance r = record r { buffered_iterator = r.buffered_iterator + 1 }

  -- The reads. `none` is a variable that is not assigned.
  unfoldable pub read_uint64 : RxStream F → Option ℕ × RxStream F
  read_uint64 r = (
    elim (current r) [ some f ↦ elim f [ Field.uint n ↦ some n | _ ↦ none ] | none ↦ none ],
    advance r,
  )

  unfoldable pub narrow : ℕ → Option ℕ × RxStream F → Option ℕ × RxStream F
  narrow w (none, r) = (none, r)
  narrow w (some n, r) = (some (n % 2 ^ w), r)

  unfoldable pub read_uint32 : RxStream F → Option ℕ × RxStream F
  read_uint32 r = narrow 32 (read_uint64 r)

  unfoldable pub read_uint16 : RxStream F → Option ℕ × RxStream F
  read_uint16 r = narrow 16 (read_uint64 r)

  unfoldable pub read_uint8 : RxStream F → Option ℕ × RxStream F
  read_uint8 r = narrow 8 (read_uint64 r)

  -- The type of the field is read before the iterator is tested.
  unfoldable pub read_int64 : RxStream F → Option ℤ × RxStream F
  read_int64 r = elim (current r) [
    | some f ↦
        (elim f [ Field.uint n ↦ some (signed 64 n) | Field.nint z ↦ some z | _ ↦ none ], advance r)
    | none ↦ (none, record (advance r) { overrun = true })
  ]

  unfoldable pub narrow_signed : ℕ → Option ℤ × RxStream F → Option ℤ × RxStream F
  narrow_signed w (none, r) = (none, r)
  narrow_signed w (some z, r) = (some (cast_signed w z), r)

  unfoldable pub read_int32 : RxStream F → Option ℤ × RxStream F
  read_int32 r = narrow_signed 32 (read_int64 r)

  unfoldable pub read_int16 : RxStream F → Option ℤ × RxStream F
  read_int16 r = narrow_signed 16 (read_int64 r)

  unfoldable pub read_int8 : RxStream F → Option ℤ × RxStream F
  read_int8 r = narrow_signed 8 (read_int64 r)

  unfoldable pub read_string : RxStream F → Option (List ℕ) × RxStream F
  read_string r = (
    elim (current r) [ some f ↦ elim f [ Field.tstr s ↦ some s | _ ↦ none ] | none ↦ none ],
    advance r,
  )

  -- The first character of the string; `operator[]` gives 0 at the end of an empty one.
  unfoldable pub read_char : RxStream F → Option ℕ × RxStream F
  read_char r = (
    elim (current r) [
      | some f ↦ elim f [ Field.tstr s ↦ elim s [ [] ↦ some 0 | x ∷ xs ↦ some x ] | _ ↦ none ]
      | none ↦ none
    ],
    advance r,
  )

  unfoldable pub read_float : RxStream F → Option F × RxStream F
  read_float r = (
    elim (current r) [ some f ↦ elim f [ Field.float v ↦ some v | _ ↦ none ] | none ↦ none ],
    advance r,
  )

  unfoldable pub read_double : {D : Type 0} → (F → D) → RxStream F → Option D × RxStream F
  read_double widen r =
      let (v, r') = read_float r in (elim v [ some f ↦ some (widen f) | none ↦ none ], r')

  -- A string that is not assigned stays empty.
  unfoldable pub read_u16string : RxStream F → Option (List ℕ) × RxStream F
  read_u16string r =
      let (v, r') = read_string r in (some (to_utf16 (elim v [ some s ↦ s | none ↦ [] ])), r')

  -- The low byte of the integer. Here the iterator stays where it is if the type does not match.
  unfoldable pub read_bool : RxStream F → Option Bool × RxStream F
  read_bool r = elim (current r) [
    | some f ↦ elim f [ Field.uint n ↦ (some (not (n % 2 ^ 8 == 0)), advance r) | _ ↦ (none, r) ]
    | none ↦ (none, r)
  ]

  -- `deserialize_sequence` of `size` items.
  unfoldable pub deserialize_sequence :
      {A : Type 0}
      → (RxStream F → Option A × RxStream F)
      → ℕ
      → RxStream F
      → List (Option A) × RxStream F
  deserialize_sequence read zero r = ([], r)
  deserialize_sequence read (suc size) r =
      let (v, r') = read r in let (vs, r'') = deserialize_sequence read size r' in (v ∷ vs, r'')
