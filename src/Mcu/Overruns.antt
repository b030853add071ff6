-- ===== src/Mcu/Overruns.antt =====
-- Long strings in `interpret_field` of src/desert_classes/LibMcuCBorStream.cpp.
use text.Mathlib.Text.{◌==◌ as str_eq}
use text.Mathlib.TextEquality.{eq_iff}
use rmw_desert.Prelude.{
  ℕ, zero, suc, ◌^◌, ◌≤◌, ◌<◌, ◌≡◌, ◌≢◌, ap, ◌∙◌, false, List, [], ◌∷◌, ◌++◌, ltb, length,
  length-append, take, map, arith, All,
}
use rmw_desert.Tcp.{Bytes, Receiver, enqueue_packet, max_packet_length}
use rmw_desert.Topics.{TopicsConfig, get_identifier_topic}
use rmw_desert.Cbor.Tx.{TxStream}
use rmw_desert.Message.{Result}
use rmw_desert.Mcu.{Item, LibMcu, IsItem, encoded, decoded, IsParser}
use rmw_desert.Mcu.Tx.{start_transmission, end_transmission}
use rmw_desert.Mcu.Rx.{RxStream}
use rmw_desert.Mcu.Interpret.{
  max_items, str_copy_size, interpret_field, interpret_fields, interpret_items, interpret_loop,
  interpret_packets,
}
use rmw_desert.Mcu.Values.{Value, IsValue, item_of, write_values}
use rmw_desert.Mcu.Fields.{value-IsItem, value-field}
use rmw_desert.Mcu.Exchange.{message, end_transmission-message, parse-message, low_byte-uint}

module _ {F : Type 0} (c : LibMcu F) where
  IsItem-around :
      (us : List (Value F)) (text : List ℕ) (rest : List (Value F))
      → All (IsValue c) us
      → All IsItem (map item_of rest)
      → All IsItem (map item_of (us ++ Value.string text ∷ rest))
  IsItem-around [] text rest h k = (tt, k)
  IsItem-around (u ∷ us) text rest h k = (value-IsItem c u h.0, IsItem-around us text rest h.1 k)

  fields-undefined :
      (n : ℕ) (us : List (Value F)) (text : List ℕ) (rest : List (Value F))
      → length us < n
      → All (IsValue c) us
      → str_copy_size ≤ length text
      → interpret_fields c (map (decoded c) (map item_of (take n (us ++ Value.string text ∷ rest))))
        ≡ Result.undefined
  unfolding interpret_fields
  fields-undefined zero us text rest room h long = absurd (omega arith)
  fields-undefined (suc n) [] text rest room h long =
      let over : ltb (length text) str_copy_size ≡ false = ground arith in
      unfold interpret_field in rw over
  fields-undefined (suc n) (u ∷ us) text rest room h long =
      rw (value-field c u h.0, fields-undefined n us text rest (omega arith) h.1 long)

  interpret_loop-undefined :
      (topics : TopicsConfig) (bytes : Bytes) (streams : List (RxStream F))
      → 0 < length bytes
      → interpret_items c topics (c.parse max_items bytes) ≡ Result.undefined
      → interpret_loop c topics (bytes ∷ []) streams ≡ Result.undefined
  unfolding interpret_loop
  interpret_loop-undefined topics [] streams h e = absurd (omega arith)
  interpret_loop-undefined topics (b ∷ bs) streams h e = rw (interpret_loop, e)

  -- A message with a string of 128 bytes or more makes the receivers, whatever streams they have, write
  -- outside of `str_copy`, which is undefined, also where the string is none of their topic's.
  -- Conditions: the values in front of the string are fewer than 62 and come back, those behind it are
  -- of their types, the library parses what it encodes, the message fits in 512 bytes, the identifier
  -- has a topic, and nothing else has been received.
  pub interpret_packets_overruns :
      (topics : TopicsConfig) (t : TxStream) (us : List (Value F)) (text : List ℕ)
      (rest : List (Value F)) (r : Receiver) (queued : List Bytes) (streams : List (RxStream F))
      → IsParser c
      → t.stream_type < 2 ^ 8
      → t.stream_identifier < 2 ^ 8
      → get_identifier_topic topics t.stream_identifier ≢ ""
      → length us < 62
      → All (IsValue c) us
      → str_copy_size ≤ length text
      → All IsItem (map item_of rest)
      → length (encoded c (message c t (us ++ Value.string text ∷ rest))) ≤ max_packet_length
      → interpret_packets c topics
          (end_transmission
            (write_values c (us ++ Value.string text ∷ rest) (start_transmission c t))
            (record { receiver = record r { rx_packets = [] }; tx_packets = queued }))
          streams
        ≡ Result.undefined
  unfolding interpret_packets enqueue_packet interpret_items
  interpret_packets_overruns topics t us text rest r queued streams parser small_type small_id named
        room ok long typed fits =
      let vs = us ++ Value.string text ∷ rest in
      let bytes = encoded c (message c t vs) in
      let some_bytes : 0 < length bytes = omega (
        arith,
        parser.put-pos (Item.uint t.stream_type),
        length-append (c.put (Item.uint t.stream_type))
            (c.put (Item.uint t.stream_identifier) ++ encoded c (map item_of vs)),
      ) in
      let unnamed : str_eq (get_identifier_topic topics t.stream_identifier) "" ≡ false =
        ground (arith, eq_iff (get_identifier_topic topics t.stream_identifier) "", named) in
      let lost : interpret_items c topics (c.parse max_items bytes) ≡ Result.undefined =
        ap (interpret_items c topics)
          (parse-message c t vs parser small_type small_id (IsItem-around us text rest ok typed))
        ∙ rw (
          interpret_items,
          low_byte-uint c t.stream_identifier small_id,
          unnamed,
          fields-undefined 62 us text rest room ok long,
        ) in
      rw (
        end_transmission-message c t vs
            (record { receiver = record r { rx_packets = [] }; tx_packets = queued }) fits,
        interpret_loop-undefined topics bytes streams some_bytes lost,
      )
