-- ===== src/Mcu/Tx.antt =====
-- `TxStream` of src/desert_classes/LibMcuCBorStream.cpp.
use rmw_desert.Prelude.{ℕ, ◌+◌, Bool, true, false, List, [], ◌∷◌, ◌++◌, leb, if◌then◌else◌, length}
use rmw_desert.Prelude.Int.{ℤ, pos, negsuc}
use rmw_desert.Tcp.{Daemon, enqueue_packet, max_packet_length}
use rmw_desert.Cbor.Tx.{TxStream}
use rmw_desert.Mcu.{Item, LibMcu}

unfoldable pub new_packet : TxStream → TxStream
new_packet t = record t { packet = [] }

module _ {F : Type 0} (c : LibMcu F) where
  -- A call of the encoder with `handle_overrun`, where the item does not fit: it is not written and sets
  -- `_overflow`, but a float is written all the same.
  unfoldable pub refused : Item F → TxStream → TxStream
  refused (Item.float f) t = c.past_end f t
  refused i t = record t { overflow = true }

  -- A call of the encoder with `handle_overrun`.
  unfoldable pub write_item : Item F → TxStream → TxStream
  write_item i t =
      if leb (length t.packet + length (c.put i)) max_packet_length
      then record t { packet = t.packet ++ c.put i }
      else refused i t

  unfoldable pub write_uint64 : ℕ → TxStream → TxStream
  write_uint64 n = write_item (Item.uint n)

  unfoldable pub write_uint32 : ℕ → TxStream → TxStream
  write_uint32 n = write_uint64 n

  unfoldable pub write_uint16 : ℕ → TxStream → TxStream
  write_uint16 n = write_uint64 n

  unfoldable pub write_uint8 : ℕ → TxStream → TxStream
  write_uint8 n = write_uint64 n

  unfoldable pub write_int64 : ℤ → TxStream → TxStream
  write_int64 (pos n) = write_item (Item.uint n)
  write_int64 (negsuc n) = write_item (Item.nint n)

  unfoldable pub write_int32 : ℤ → TxStream → TxStream
  write_int32 n = write_int64 n

  unfoldable pub write_int16 : ℤ → TxStream → TxStream
  write_int16 n = write_int64 n

  unfoldable pub write_int8 : ℤ → TxStream → TxStream
  write_int8 n = write_int64 n

  unfoldable pub write_string : List ℕ → TxStream → TxStream
  write_string s = write_item (Item.text s)

  unfoldable pub write_char : ℕ → TxStream → TxStream
  write_char n = write_string (n ∷ [])

  unfoldable pub write_float : F → TxStream → TxStream
  write_float f = write_item (Item.float f)

  unfoldable pub write_double : {D : Type 0} → (D → F) → D → TxStream → TxStream
  write_double narrow d = write_float (narrow d)

  unfoldable pub write_bool : Bool → TxStream → TxStream
  write_bool b = write_item (Item.boolean b)

  unfoldable pub start_transmission : TxStream → TxStream
  start_transmission t =
      write_uint8 t.stream_identifier
        (write_uint8 t.stream_type (record (new_packet t) { overflow = false }))

  unfoldable pub start_transmission_sequence : ℕ → TxStream → TxStream
  start_transmission_sequence sequence_id t = write_uint64 sequence_id (
      write_uint8 t.stream_identifier
        (write_uint8 t.stream_type (record (new_packet t) { overflow = false })))

unfoldable pub end_transmission : TxStream → Daemon → Daemon
end_transmission t d = if t.overflow then d else enqueue_packet d t.packet
