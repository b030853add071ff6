-- ===== src/Cbor/Tx.antt =====
-- `TxStream` of src/desert_classes/NanoCBorStream.cpp.
pub mod Whole
use rmw_desert.Prelude.{
  ℕ, ◌+◌, ◌%◌, ◌^◌, Bool, true, false, Option, some, none, List, [], ◌∷◌, ◌++◌, leb, if◌then◌else◌,
  length,
}
use rmw_desert.Prelude.Int.{ℤ, pos, negsuc}
use rmw_desert.Tcp.{Daemon, enqueue_packet, max_packet_length}
use rmw_desert.Utf.{to_utf8}
use rmw_desert.Cbor.{Item, Nanocbor}

-- The stream, with `packet` for the buffer and the position that the encoder has reached in it.
pub record TxStream : Type 0 where
  pub stream_type : ℕ
  pub stream_identifier : ℕ
  pub overflow : Bool
  pub packet : List ℕ

unfoldable pub new_packet : TxStream → TxStream
new_packet t = record t { packet = [] }

module _ {F : Type 0} (c : Nanocbor F) where
  -- A call of the encoder with `handle_overrun`: an item that does not fit in the buffer sets
  -- `_overflow`. Such a packet is never sent, so what the encoder then leaves in it does not matter.
  unfoldable pub write_item : Item F → TxStream → TxStream
  write_item i t =
      if leb (length t.packet + length (c.put i)) max_packet_length
      then record t { packet = t.packet ++ c.put i }
      else record t { overflow = true }

  unfoldable pub write_uint64 : ℕ → TxStream → TxStream
  write_uint64 n = write_item (Item.uint n)

  -- `operator<<` of the narrower unsigned types, which widens its argument.
  unfoldable pub write_uint32 : ℕ → TxStream → TxStream
  write_uint32 n = write_uint64 n

  unfoldable pub write_uint16 : ℕ → TxStream → TxStream
  write_uint16 n = write_uint64 n

  unfoldable pub write_uint8 : ℕ → TxStream → TxStream
  write_uint8 n = write_uint64 n

  unfoldable pub write_int64 : ℤ → TxStream → TxStream
  write_int64 (pos n) = write_item (Item.uint n)
  write_int64 (negsuc n) = write_item (Item.nint n)

  unfoldable pub write_int32 : ℤ → TxStream → TxStream
  write_int32 n = write_int64 n

  unfoldable pub write_int16 : ℤ → TxStream → TxStream
  write_int16 n = write_int64 n

  unfoldable pub write_int8 : ℤ → TxStream → TxStream
  write_int8 n = write_int64 n

  unfoldable pub write_string : List ℕ → TxStream → TxStream
  write_string s = write_item (Item.tstr s)

  unfoldable pub write_char : ℕ → TxStream → TxStream
  write_char n = write_string (n ∷ [])

  unfoldable pub write_float : F → TxStream → TxStream
  write_float f = write_item (Item.float f)

  -- A `double` is narrowed to a `float`; the conversion is the argument `narrow`.
  unfoldable pub write_double : {D : Type 0} → (D → F) → D → TxStream → TxStream
  write_double narrow d = write_float (narrow d)

  unfoldable pub write_u16string : List ℕ → TxStream → TxStream
  write_u16string s = write_string (to_utf8 s)

  unfoldable pub write_bool : Bool → TxStream → TxStream
  write_bool b = write_uint8 (if b then 1 else 0)

  -- `serialize_sequence`: the items with no length in front.
  unfoldable pub serialize_sequence :
      {A : Type 0} → (A → TxStream → TxStream) → List A → TxStream → TxStream
  serialize_sequence write [] t = t
  serialize_sequence write (x ∷ xs) t = serialize_sequence write xs (write x t)

  -- `operator<<` of a vector: `static_cast<uint32_t>(v.size())`, then the items.
  unfoldable pub write_vector :
      {A : Type 0} → (A → TxStream → TxStream) → List A → TxStream → TxStream
  write_vector write v t = serialize_sequence write v (write_uint32 (length v % 2 ^ 32) t)

  unfoldable pub start_transmission : TxStream → TxStream
  start_transmission t =
      write_uint8 t.stream_identifier
        (write_uint8 t.stream_type (record (new_packet t) { overflow = false }))

  unfoldable pub start_transmission_sequence : ℕ → TxStream → TxStream
  start_transmission_sequence sequence_id t = write_uint64 sequence_id (
      write_uint8 t.stream_identifier
        (write_uint8 t.stream_type (record (new_packet t) { overflow = false })))

-- `wrap` is the security layer's, or `some` where there is none.
unfoldable pub end_transmission : (List ℕ → Option (List ℕ)) → TxStream → Daemon → Daemon
end_transmission wrap t d =
    if t.overflow
    then d
    else elim (wrap t.packet) [ none ↦ d | some wrapped ↦ enqueue_packet d wrapped ]
