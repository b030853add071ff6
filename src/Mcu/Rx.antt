-- ===== src/Mcu/Rx.antt =====
-- `RxStream` of src/desert_classes/LibMcuCBorStream.cpp: the received packets, the packet that is being
-- read and the typed reads of its fields.
use rmw_desert.Prelude.{
  ℕ, zero, suc, ◌+◌, Bool, true, false, not, Option, some, none, List, [], ◌∷◌, ltb, ◌==◌,
  if◌then◌else◌, length, get_elem?,
}
use rmw_desert.Prelude.Int.{ℤ, pos, pattern_of, cast_signed}
use rmw_desert.Cbor.Queue
use rmw_desert.Cbor.Queue.{max_buffer_capacity}
use rmw_desert.Cbor.Rx.{Lookup, same}

-- An interpreted field: the object behind the pointer, and its type.
pub data Field (F : Type 0) : Type 0 where
  integer : ℤ → Field F
  float : F → Field F
  string : List ℕ → Field F
  simple : ℕ → Field F

pub record RxStream (F : Type 0) : Type 0 where
  pub stream_type : ℕ
  pub stream_identifier : ℕ
  pub buffered_iterator : ℕ
  pub buffered_packet : List (Field F)
  pub received_packets : List (List (Field F))

module _ {F : Type 0} where
  unfoldable pub push_packet : List (Field F) → RxStream F → RxStream F
  push_packet packet r = record r { received_packets = Queue.push r.received_packets packet }

  unfoldable pub clear_buffer : RxStream F → RxStream F
  clear_buffer r = record r { buffered_packet = [] }

  -- `*static_cast<int64_t *>(first)`; what lies behind a field that is no integer is the argument
  -- `alias`.
  unfoldable pub as_int64 : (Field F → ℤ) → Field F → ℤ
  as_int64 alias (Field.integer z) = z
  as_int64 alias field = alias field

  unfoldable pub take_front : ℕ → List (Field F) → List (List (Field F)) → RxStream F → RxStream F
  take_front iterator front rest r = record r {
    buffered_packet = front;
    received_packets = rest;
    buffered_iterator = iterator;
  }

  -- `_received_packets.push(_received_packets.front()); _received_packets.pop();`. A full queue destroys
  -- its front before it copies the argument, which is a reference to this front: that is undefined.
  unfoldable pub rotate : List (List (Field F)) → Lookup (List (List (Field F)))
  rotate [] = Lookup.returns []
  rotate (front ∷ rest) =
      if length (front ∷ rest) == max_buffer_capacity
      then Lookup.undefined
      else Lookup.returns (Queue.pop (Queue.push (front ∷ rest) front))

  -- The search for a sequence identifier.
  unfoldable pub search_loop : (Field F → ℤ) → ℤ → ℕ → ℕ → RxStream F → Lookup (Bool × RxStream F)
  search_loop alias sequence_id zero i r = Lookup.returns (false, r)
  search_loop alias sequence_id (suc rounds) i r =
      if ltb i (length r.received_packets)
      then elim r.received_packets [
        | [] ↦ Lookup.returns (false, r)
        | front ∷ rest ↦ elim front [
          | [] ↦ Lookup.out_of_range
          | first ∷ fields ↦
              if same (as_int64 alias first) sequence_id
              then Lookup.returns (true, take_front 1 (first ∷ fields) rest r)
              else elim (rotate r.received_packets) [
                | Lookup.returns queue ↦
                    search_loop alias sequence_id rounds (i + 1)
                      (record r { received_packets = queue })
                | Lookup.out_of_range ↦ Lookup.out_of_range
                | Lookup.undefined ↦ Lookup.undefined
              ]
        ]
      ]
      else Lookup.returns (false, r)

  unfoldable pub data_available : (Field F → ℤ) → ℤ → RxStream F → Lookup (Bool × RxStream F)
  data_available alias sequence_id r =
      if not (length r.buffered_packet == 0)
      then Lookup.returns (true, r)
      else elim r.received_packets [
        | [] ↦ Lookup.returns (false, r)
        | front ∷ rest ↦
            if same sequence_id (pos 0)
            then Lookup.returns (true, take_front 0 front rest r)
            else search_loop alias sequence_id (length r.received_packets) 0 r
      ]

  -- The field under the iterator, which every read moves on.
  unfoldable pub current : RxStream F → Option (Field F)
  current r = get_elem? r.buffered_packet r.buffered_iterator

  unfoldable pub advance : RxStream F → RxStream F
  advance r = record r { buffered_iterator = r.buffered_iterator + 1 }

  -- The reads. `none` is a variable that no value is read into.
  unfoldable pub read_int64 : RxStream F → Option ℤ × RxStream F
  read_int64 r = (
    elim (current r) [ some f ↦ elim f [ Field.integer z ↦ some z | _ ↦ none ] | none ↦ none ],
    advance r,
  )

  -- The casts of the `int64_t` that the narrower and the unsigned types read.
  unfoldable pub cast_unsigned : ℕ → Option ℤ × RxStream F → Option ℕ × RxStream F
  cast_unsigned w (none, r) = (none, r)
  cast_unsigned w (some z, r) = (some (pattern_of w z), r)

  unfoldable pub narrow_signed : ℕ → Option ℤ × RxStream F → Option ℤ × RxStream F
  narrow_signed w (none, r) = (none, r)
  narrow_signed w (some z, r) = (some (cast_signed w z), r)

  unfoldable pub read_uint64 : RxStream F → Option ℕ × RxStream F
  read_uint64 r = cast_unsigned 64 (read_int64 r)

  unfoldable pub read_uint32 : RxStream F → Option ℕ × RxStream F
  read_uint32 r = cast_unsigned 32 (read_int64 r)

  unfoldable pub read_uint16 : RxStream F → Option ℕ × RxStream F
  read_uint16 r = cast_unsigned 16 (read_int64 r)

  unfoldable pub read_uint8 : RxStream F → Option ℕ × RxStream F
  read_uint8 r = cast_unsigned 8 (read_int64 r)

  unfoldable pub read_int32 : RxStream F → Option ℤ × RxStream F
  read_int32 r = narrow_signed 32 (read_int64 r)

  unfoldable pub read_int16 : RxStream F → Option ℤ × RxStream F
  read_int16 r = narrow_signed 16 (read_int64 r)

  unfoldable pub read_int8 : RxStream F → Option ℤ × RxStream F
  read_int8 r = narrow_signed 8 (read_int64 r)

  unfoldable pub read_string : RxStream F → Option (List ℕ) × RxStream F
  read_string r = (
    elim (current r) [ some f ↦ elim f [ Field.string s ↦ some s | _ ↦ none ] | none ↦ none ],
    advance r,
  )

  -- The first character; `operator[]` gives 0 at the end of an empty string.
  unfoldable pub read_char : RxStream F → Option ℕ × RxStream F
  read_char r = (
    elim (current r) [
      | some f ↦ elim f [ Field.string s ↦ elim s [ [] ↦ some 0 | x ∷ xs ↦ some x ] | _ ↦ none ]
      | none ↦ none
    ],
    advance r,
  )

  unfoldable pub read_float : RxStream F → Option F × RxStream F
  read_float r = (
    elim (current r) [ some f ↦ elim f [ Field.float v ↦ some v | _ ↦ none ] | none ↦ none ],
    advance r,
  )

  unfoldable pub read_double : {D : Type 0} → (F → D) → RxStream F → Option D × RxStream F
  read_double widen r =
      let (v, r') = read_float r in (elim v [ some f ↦ some (widen f) | none ↦ none ], r')

  unfoldable pub read_bool : RxStream F → Option Bool × RxStream F
  read_bool r = (
    elim (current r) [
      | some f ↦ elim f [ Field.simple n ↦ some (not (n == 0)) | _ ↦ none ]
      | none ↦ none
    ],
    advance r,
  )
