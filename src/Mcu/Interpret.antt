-- ===== src/Mcu/Interpret.antt =====
-- `interpret_packets` and `interpret_field` of src/desert_classes/LibMcuCBorStream.cpp.
use text.Mathlib.Text.{◌==◌ as str_eq}
use rmw_desert.Prelude.{
  ℕ, ◌+◌, ◌%◌, ◌^◌, ◌&&◌, Option, some, none, List, [], ◌∷◌, ◌==◌, ltb, if◌then◌else◌, length,
}
use rmw_desert.Prelude.Int.{ℤ, pos, negsuc, signed, pattern_of}
use rmw_desert.Tcp.{Bytes, Daemon}
use rmw_desert.Topics.{TopicsConfig, get_identifier_topic}
use rmw_desert.Cbor.Interpret.{stream_type_match}
use rmw_desert.Message.{Result, ◌>>=◌}
use rmw_desert.Message.Strings.{convert_to_std_string}
use rmw_desert.Mcu.{Decoded, LibMcu}
use rmw_desert.Mcu.Rx.{Field, RxStream, push_packet}

-- The number of `items`, and the bytes of `str_copy`.
abbrev pub max_items : ℕ
max_items = 64

abbrev pub str_copy_size : ℕ
str_copy_size = 128

pub record Interpreted (F : Type 0) : Type 0 where
  pub stream_type : ℕ
  pub stream_identifier : ℕ
  pub fields : List (Field F)

-- `abs`
unfoldable pub magnitude : ℤ → ℕ
magnitude (pos n) = n
magnitude (negsuc n) = n + 1

-- `val.i8`, as the `uint8_t` that it is assigned to: the first byte, whatever the type of the item.
unfoldable pub low_byte : Decoded → ℕ
low_byte (Decoded.integer z) = pattern_of 8 z
low_byte (Decoded.float bits) = bits % 2 ^ 8
low_byte (Decoded.string []) = 0
low_byte (Decoded.string (x ∷ xs)) = if ltb str_copy_size (length (x ∷ xs)) then 0 else x
low_byte (Decoded.simple n) = n
low_byte Decoded.other = 0

module _ {F : Type 0} where
  unfoldable pub prepend : Option (Field F) → List (Field F) → List (Field F)
  prepend none fields = fields
  prepend (some field) fields = field ∷ fields

  -- The loop over the listening streams.
  unfoldable pub dispatch : Interpreted F → List (RxStream F) → Result (List (RxStream F))
  dispatch packet [] = Result.ok []
  dispatch packet (stream ∷ streams) =
      let rest = dispatch packet streams in
      elim (stream_type_match packet.stream_type) [
        | none ↦ Result.throws
        | some type ↦ rest >>= (λ others. Result.ok (
            (if stream.stream_type == type && stream.stream_identifier == packet.stream_identifier
              then push_packet packet.fields stream
              else stream)
            ∷ others))
      ]

module _ {F : Type 0} (c : LibMcu F) where
  -- A float of 16 bits is told from one of 32 by the size of the integer that the bits mean.
  unfoldable pub float_of : ℕ → F
  float_of bits =
      if ltb (magnitude (signed 32 bits)) 65536 then c.of_half (bits % 2 ^ 16) else c.of_bits bits

  -- The zero behind the bytes of a string is written outside of `str_copy` if there are 128 or more.
  unfoldable pub interpret_field : Decoded → Result (Option (Field F))
  interpret_field (Decoded.integer z) = Result.ok (some (Field.integer z))
  interpret_field (Decoded.float bits) = Result.ok (some (Field.float (float_of bits)))
  interpret_field (Decoded.string s) =
      if ltb (length s) str_copy_size
      then Result.ok (some (Field.string (convert_to_std_string s)))
      else Result.undefined
  interpret_field (Decoded.simple n) = Result.ok (some (Field.simple n))
  interpret_field Decoded.other = Result.ok none

  -- The loop from the third item on.
  unfoldable pub interpret_fields : List Decoded → Result (List (Field F))
  interpret_fields [] = Result.ok []
  interpret_fields (item ∷ items) =
      let rest = interpret_fields items in
      interpret_field item >>= (λ field. rest >>= (λ fields. Result.ok (prepend field fields)))

  -- The loop over the items; `none` is a packet with an empty stream name.
  unfoldable pub interpret_items : TopicsConfig → List Decoded → Result (Option (Interpreted F))
  interpret_items topics [] = Result.ok none
  interpret_items topics (stream_type ∷ []) = Result.ok none
  interpret_items topics (stream_type ∷ stream_identifier ∷ items) =
      if str_eq (get_identifier_topic topics (low_byte stream_identifier)) ""
      then Result.ok none
      else interpret_fields items >>= (λ fields. Result.ok (
          some (record {
            stream_type = low_byte stream_type;
            stream_identifier = low_byte stream_identifier;
            fields = fields;
          })))

  unfoldable pub dispatched :
      Option (Interpreted F) → List (RxStream F) → Result (List (RxStream F))
  dispatched none streams = Result.ok streams
  dispatched (some packet) streams = dispatch packet streams

  -- The loop over the received packets, of which an empty one ends it.
  unfoldable pub interpret_loop :
      TopicsConfig → List Bytes → List (RxStream F) → Result (List Bytes × List (RxStream F))
  interpret_loop topics [] streams = Result.ok ([], streams)
  interpret_loop topics ([] ∷ queue) streams = Result.ok (queue, streams)
  interpret_loop topics ((b ∷ bs) ∷ queue) streams =
      interpret_items topics (c.parse max_items (b ∷ bs)) >>= (λ packet.
        dispatched packet streams >>= (λ streams'. interpret_loop topics queue streams'))

  unfoldable pub interpret_packets :
      TopicsConfig → Daemon → List (RxStream F) → Result (Daemon × List (RxStream F))
  interpret_packets topics d streams =
      interpret_loop topics d.receiver.rx_packets streams
      >>= (λ p. Result.ok (record d { receiver = record (d.receiver) { rx_packets = p.0 } }, p.1))
