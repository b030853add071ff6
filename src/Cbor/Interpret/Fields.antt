-- ===== src/Cbor/Interpret/Fields.antt =====
-- What `interpret_packets` of src/desert_classes/NanoCBorStream.cpp makes of a packet that a `TxStream`
-- has written, and which streams get it.
use text.Mathlib.Text.{◌==◌ as str_eq}
use text.Mathlib.TextEquality.{eq_iff}
use rmw_desert.Prelude.{
  ℕ, zero, suc, ◌^◌, ◌≤◌, ◌<◌, ◌≡◌, ◌≢◌, refl, true, false, ◌&&◌, ◌==◌, Option, some, List, [], ◌∷◌,
  ◌++◌, map, arith, leb, if◌then◌else◌, length, length-append, All,
}
use rmw_desert.Tcp.{Bytes, Receiver, enqueue_packet, max_packet_length}
use rmw_desert.Topics.{TopicsConfig, get_identifier_topic}
use rmw_desert.Cbor.{Item, IsItem, Nanocbor, IsCodec}
use rmw_desert.Cbor.Tx.{
  TxStream, write_item, serialize_sequence, start_transmission, end_transmission,
}
use rmw_desert.Cbor.Tx.Whole.{encoded, message, end_transmission_whole}
use rmw_desert.Cbor.Rx.{RxStream, push_packet}
use rmw_desert.Cbor.Interpret.{
  Outcome, Interpreted, stream_type_match, field_of, collect, dispatch, interpret_field,
  interpret_fields, interpret_packet, interpret_loop, interpret_packets,
}

module _ {F : Type 0} where
  -- What a listening stream becomes when a packet arrives for streams of type `type`.
  abbrev pub deliver : Interpreted F → ℕ → RxStream F → RxStream F
  deliver packet type stream =
      if stream.stream_type == type && stream.stream_identifier == packet.stream_identifier
      then push_packet packet.fields stream
      else stream

  pub dispatch-known :
      (packet : Interpreted F) (type : ℕ) (streams : List (RxStream F))
      → stream_type_match packet.stream_type ≡ some type
      → dispatch packet streams ≡ Outcome.done (map (deliver packet type) streams)
  unfolding dispatch
  dispatch-known packet type [] known = refl
  dispatch-known packet type (stream ∷ streams) known =
      rw (dispatch, known, dispatch-known packet type streams known)

module _ {F : Type 0} (c : Nanocbor F) (codec : IsCodec c) where
  interpret_fields-step :
      (fuel : ℕ) (i : Item F) (items : List (Item F))
      → IsItem i
      → interpret_fields c (suc fuel) (c.put i ++ encoded c items)
        ≡ collect (some (field_of i)) (interpret_fields c fuel (encoded c items))
  unfolding interpret_fields interpret_field
  interpret_fields-step fuel i items ok =
      go (c.put i ++ encoded c items) (codec.get-put i (encoded c items) ok)
        (omega (arith, codec.put-pos i, length-append (c.put i) (encoded c items)))
    where
      go :
          (bytes : Bytes)
          → c.get bytes ≡ some (i, encoded c items)
          → 0 < length bytes
          → interpret_fields c (suc fuel) bytes
            ≡ collect (some (field_of i)) (interpret_fields c fuel (encoded c items))
      go [] e h = absurd (omega arith)
      go (b ∷ bs) e h = rw (interpret_fields, interpret_field, e)

  -- Every item becomes a field.
  interpret_fields-encoded :
      (items : List (Item F)) (fuel : ℕ)
      → All IsItem items
      → length (encoded c items) ≤ fuel
      → interpret_fields c fuel (encoded c items) ≡ Outcome.done (map field_of items)
  unfolding collect field_of
  interpret_fields-encoded [] fuel ok enough = unfold interpret_fields in refl
  interpret_fields-encoded (i ∷ items) zero ok enough =
      absurd (omega (arith, codec.put-pos i, length-append (c.put i) (encoded c items)))
  interpret_fields-encoded (i ∷ items) (suc fuel) ok enough =
      let size = length-append (c.put i) (encoded c items) in
      let pos = codec.put-pos i in
      rw (
        interpret_fields-step fuel i items ok.0,
        interpret_fields-encoded items fuel ok.1 (omega arith),
      )

  -- A packet with a known identifier is read back as it was written.
  pub interpret_packet-encoded :
      (topics : TopicsConfig) (t : TxStream) (items : List (Item F))
      → t.stream_type < 2 ^ 8
      → t.stream_identifier < 2 ^ 8
      → get_identifier_topic topics t.stream_identifier ≢ ""
      → All IsItem items
      → interpret_packet c topics (encoded c (message c t items))
        ≡ Outcome.done (
            some (record {
              stream_type = t.stream_type;
              stream_identifier = t.stream_identifier;
              fields = map field_of items;
            }))
  unfolding interpret_packet
  interpret_packet-encoded topics t items type id named ok =
      let body = encoded c items in
      let unnamed : str_eq (get_identifier_topic topics t.stream_identifier) "" ≡ false =
        ground (arith, eq_iff (get_identifier_topic topics t.stream_identifier) "", named) in
      rw (
        interpret_packet,
        codec.get_uint8-put t.stream_type (c.put (Item.uint t.stream_identifier) ++ body) type,
        codec.get_uint8-put t.stream_identifier body id,
        unnamed,
        interpret_fields-encoded items (length body) ok (omega arith),
      )

  interpret_loop-one :
      (topics : TopicsConfig) (unwrap : Bytes → Option Bytes) (wrapped packet : Bytes)
      (interpreted : Interpreted F) (type : ℕ) (streams : List (RxStream F))
      → 0 < length wrapped
      → unwrap wrapped ≡ some packet
      → interpret_packet c topics packet ≡ Outcome.done (some interpreted)
      → stream_type_match interpreted.stream_type ≡ some type
      → interpret_loop c topics unwrap (wrapped ∷ []) streams
        ≡ Outcome.done ([], map (deliver interpreted type) streams)
  unfolding interpret_loop
  interpret_loop-one topics unwrap [] packet interpreted type streams h e f known =
      absurd (omega arith)
  interpret_loop-one topics unwrap (b ∷ bs) packet interpreted type streams h e f known =
      rw (interpret_loop, e, f, dispatch-known interpreted type streams known)

  -- A message that a stream sends arrives, field by field, at the streams of the same process that
  -- listen for its type and identifier, and at no others. Conditions: the library reads back what it
  -- writes, the message fits in 512 bytes, the security layer undoes what it does, the identifier has
  -- a topic, the type has one that listens to it, and nothing else has been received.
  pub interpret_packets-message :
      (topics : TopicsConfig) (wrap unwrap : Bytes → Option Bytes) (wrapped : Bytes) (t : TxStream)
      (items : List (Item F)) (r : Receiver) (queued : List Bytes) (type : ℕ)
      (streams : List (RxStream F))
      → t.stream_type < 2 ^ 8
      → t.stream_identifier < 2 ^ 8
      → get_identifier_topic topics t.stream_identifier ≢ ""
      → stream_type_match t.stream_type ≡ some type
      → All IsItem items
      → length (encoded c (message c t items)) ≤ max_packet_length
      → wrap (encoded c (message c t items)) ≡ some wrapped
      → unwrap wrapped ≡ some (encoded c (message c t items))
      → 0 < length wrapped
      → interpret_packets c topics unwrap
          (end_transmission wrap
            (serialize_sequence c (write_item c) items (start_transmission c t))
            (record { receiver = record r { rx_packets = [] }; tx_packets = queued }))
          streams
        ≡ Outcome.done (
          record { receiver = record r { rx_packets = [] }; tx_packets = queued ++ wrapped ∷ [] },
          map
              (deliver
                (record {
                  stream_type = t.stream_type;
                  stream_identifier = t.stream_identifier;
                  fields = map field_of items;
                })
                type)
              streams,
        )
  unfolding interpret_packets enqueue_packet interpret_loop
  interpret_packets-message topics wrap unwrap wrapped t items r queued type streams small_type
        small_id named known ok fits wraps unwraps some_bytes =
      let short : leb (length (encoded c (message c t items))) max_packet_length ≡ true =
        ground arith in
      let packet = interpret_packet-encoded topics t items small_type small_id named ok in
      rw (
        end_transmission_whole c wrap t items
            (record { receiver = record r { rx_packets = [] }; tx_packets = queued }),
        short,
        wraps,
        interpret_loop-one topics unwrap wrapped (encoded c (message c t items)) _ type streams
            some_bytes unwraps packet known,
      )
