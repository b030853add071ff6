-- ===== src/Mcu/Exchange.antt =====
-- A message on its way through src/desert_classes/LibMcuCBorStream.cpp and TcpDaemon.cpp.
use mathlib.Core.List.{append_assoc, append-nil}
use text.Mathlib.Text.{◌==◌ as str_eq}
use text.Mathlib.TextEquality.{eq_iff}
use Prim.Native.Nat.{min}
use rmw_desert.Prelude.{
  ℕ, ◌+◌, ◌-◌, ◌^◌, ◌≤◌, ◌<◌, ◌≡◌, ◌≢◌, refl, ap, ◌∙◌, true, false, some, List, [], ◌∷◌, ◌++◌, ◌&&◌,
  ◌==◌, leb, if◌then◌else◌, length, length-append, length-map, length-take, take, take-map,
  take-All, map, arith, All,
}
use rmw_desert.Prelude.Int.{ℤ, pos}
use rmw_desert.Tcp.{Bytes, Receiver, Daemon, enqueue_packet, max_packet_length}
use rmw_desert.Topics.{TopicsConfig, get_identifier_topic}
use rmw_desert.Cbor.Queue.{push}
use rmw_desert.Cbor.Rx.{Lookup, same}
use rmw_desert.Cbor.Tx.{TxStream}
use rmw_desert.Cbor.Interpret.{stream_type_match}
use rmw_desert.Message.{Result}
use rmw_desert.Mcu.{Item, LibMcu, IsItem, encoded, decoded, IsParser}
use rmw_desert.Mcu.Tx.{
  new_packet, write_item, write_uint64, write_uint8, start_transmission, end_transmission,
}
use rmw_desert.Mcu.Rx.{Field, RxStream, push_packet, data_available, take_front}
use rmw_desert.Mcu.Interpret.{
  Interpreted, max_items, low_byte, dispatch, dispatched, interpret_fields, interpret_items,
  interpret_loop, interpret_packets,
}
use rmw_desert.Mcu.Values.{
  Value, IsValue, item_of, field_of, write_value, write_values, read_values, write_value-item_of,
}
use rmw_desert.Mcu.Fields.{value-IsItem, values-fields, read_values-fields}

module _ {F : Type 0} (c : LibMcu F) where
  -- The items of a message with its header.
  abbrev pub message : TxStream → List (Value F) → List (Item F)
  message t vs = Item.uint t.stream_type ∷ Item.uint t.stream_identifier ∷ map item_of vs

  abbrev write_items : List (Item F) → TxStream → TxStream
  write_items [] t = t
  write_items (i ∷ is) t = write_items is (write_item c i t)

  write_items-fits :
      (items : List (Item F)) (t : TxStream)
      → length t.packet + length (encoded c items) ≤ max_packet_length
      → write_items items t ≡ record t { packet = t.packet ++ encoded c items }
  unfolding write_item
  write_items-fits [] t h = rw (append-nil t.packet)
  write_items-fits (i ∷ items) t h =
      let size = length-append (c.put i) (encoded c items) in
      let more = length-append t.packet (c.put i) in
      let fits : leb (length t.packet + length (c.put i)) max_packet_length ≡ true = ground arith in
      rw fits (
        write_items-fits items (record t { packet = t.packet ++ c.put i }) (omega arith)
        ∙ rw (append_assoc t.packet (c.put i) (encoded c items)))

  pub write_values-items :
      (vs : List (Value F)) (t : TxStream) → write_values c vs t ≡ write_items (map item_of vs) t
  write_values-items [] t = refl
  write_values-items (v ∷ vs) t =
      write_values-items vs (write_value c v t)
      ∙ ap (write_items (map item_of vs)) (write_value-item_of c v t)

  -- The message is enqueued behind its header.
  pub end_transmission-message :
      (t : TxStream) (vs : List (Value F)) (d : Daemon)
      → length (encoded c (message t vs)) ≤ max_packet_length
      → end_transmission (write_values c vs (start_transmission c t)) d
        ≡ enqueue_packet d (encoded c (message t vs))
  unfolding end_transmission start_transmission new_packet write_uint8 write_uint64
  end_transmission-message t vs d h = rw (
    write_values-items vs (start_transmission c t),
    write_items-fits (message t vs) (record t { packet = []; overflow = false }) (omega arith),
  )

  -- What a listening stream becomes when a packet arrives for streams of type `type`.
  abbrev pub deliver : Interpreted F → ℕ → RxStream F → RxStream F
  deliver packet type stream =
      if stream.stream_type == type && stream.stream_identifier == packet.stream_identifier
      then push_packet packet.fields stream
      else stream

  dispatch-known :
      (packet : Interpreted F) (type : ℕ) (streams : List (RxStream F))
      → stream_type_match packet.stream_type ≡ some type
      → dispatch packet streams ≡ Result.ok (map (deliver packet type) streams)
  unfolding dispatch
  dispatch-known packet type [] known = refl
  dispatch-known packet type (stream ∷ streams) known =
      rw (dispatch, known, dispatch-known packet type streams known)

  pub low_byte-uint : (n : ℕ) → n < 2 ^ 8 → low_byte (decoded c (Item.uint n)) ≡ n
  unfolding low_byte
  low_byte-uint n h = ground arith

  pub values-IsItem : (vs : List (Value F)) → All (IsValue c) vs → All IsItem (map item_of vs)
  values-IsItem [] h = tt
  values-IsItem (v ∷ vs) h = (value-IsItem c v h.0, values-IsItem vs h.1)

  -- The values that there is space for behind the header.
  abbrev pub received : List (Value F) → List (Value F)
  received vs = take (max_items - 2) vs

  pub parse-message :
      (t : TxStream) (vs : List (Value F))
      → IsParser c
      → t.stream_type < 2 ^ 8
      → t.stream_identifier < 2 ^ 8
      → All IsItem (map item_of vs)
      → c.parse max_items (encoded c (message t vs))
        ≡ decoded c (Item.uint t.stream_type)
          ∷ decoded c (Item.uint t.stream_identifier)
          ∷ map (decoded c) (map item_of (received vs))
  parse-message t vs parser type id ok =
      parser.parse-encoded max_items (message t vs) (omega arith, (omega arith, ok))
      ∙ rw (take-map 62 (decoded c) (map item_of vs), take-map 62 (item_of {F = F}) vs)

  abbrev pub packet_of : TxStream → List (Value F) → Interpreted F
  packet_of t vs = record {
    stream_type = t.stream_type;
    stream_identifier = t.stream_identifier;
    fields = map field_of vs;
  }

  interpret_items-message :
      (topics : TopicsConfig) (t : TxStream) (vs : List (Value F))
      → t.stream_type < 2 ^ 8
      → t.stream_identifier < 2 ^ 8
      → get_identifier_topic topics t.stream_identifier ≢ ""
      → interpret_fields c (map (decoded c) (map item_of vs)) ≡ Result.ok (map field_of vs)
      → interpret_items c topics (
          decoded c (Item.uint t.stream_type)
          ∷ decoded c (Item.uint t.stream_identifier)
          ∷ map (decoded c) (map item_of vs))
        ≡ Result.ok (some (packet_of t vs))
  unfolding interpret_items
  interpret_items-message topics t vs type id named fields =
      let unnamed : str_eq (get_identifier_topic topics t.stream_identifier) "" ≡ false =
        ground (arith, eq_iff (get_identifier_topic topics t.stream_identifier) "", named) in
      rw (
        interpret_items,
        low_byte-uint t.stream_type type,
        low_byte-uint t.stream_identifier id,
        unnamed,
        fields,
      )

  interpret_loop-one :
      (topics : TopicsConfig) (bytes : Bytes) (packet : Interpreted F) (type : ℕ)
      (streams : List (RxStream F))
      → 0 < length bytes
      → interpret_items c topics (c.parse max_items bytes) ≡ Result.ok (some packet)
      → stream_type_match packet.stream_type ≡ some type
      → interpret_loop c topics (bytes ∷ []) streams
        ≡ Result.ok ([], map (deliver packet type) streams)
  unfolding interpret_loop dispatched
  interpret_loop-one topics [] packet type streams h e known = absurd (omega arith)
  interpret_loop-one topics (b ∷ bs) packet type streams h e known =
      rw (interpret_loop, e, dispatch-known packet type streams known)

  -- A message arrives at the streams that listen, as far as there is space for its items.
  interpret_packets-message :
      (topics : TopicsConfig) (t : TxStream) (vs : List (Value F)) (r : Receiver)
      (queued : List Bytes) (type : ℕ) (streams : List (RxStream F))
      → IsParser c
      → t.stream_type < 2 ^ 8
      → t.stream_identifier < 2 ^ 8
      → get_identifier_topic topics t.stream_identifier ≢ ""
      → stream_type_match t.stream_type ≡ some type
      → All (IsValue c) vs
      → length (encoded c (message t vs)) ≤ max_packet_length
      → interpret_packets c topics
          (end_transmission
            (write_values c vs (start_transmission c t))
            (record { receiver = record r { rx_packets = [] }; tx_packets = queued }))
          streams
        ≡ Result.ok (
          record {
            receiver = record r { rx_packets = [] };
            tx_packets = queued ++ encoded c (message t vs) ∷ [];
          },
          map (deliver (packet_of t (received vs)) type) streams,
        )
  unfolding interpret_packets enqueue_packet
  interpret_packets-message topics t vs r queued type streams parser small_type small_id named known
        ok fits =
      let bytes = encoded c (message t vs) in
      let some_bytes : 0 < length bytes = omega (
        arith,
        parser.put-pos (Item.uint t.stream_type),
        length-append (c.put (Item.uint t.stream_type))
            (c.put (Item.uint t.stream_identifier) ++ encoded c (map item_of vs)),
      ) in
      let found : interpret_items c topics (c.parse max_items bytes)
          ≡ Result.ok (some (packet_of t (received vs))) =
        ap (interpret_items c topics)
          (parse-message t vs parser small_type small_id (values-IsItem vs ok))
        ∙ interpret_items-message topics t (received vs) small_type small_id named
            (values-fields c (received vs) (take-All (IsValue c) 62 vs ok)) in
      rw (
        end_transmission-message t vs
            (record { receiver = record r { rx_packets = [] }; tx_packets = queued }) fits,
        interpret_loop-one topics bytes (packet_of t (received vs)) type streams some_bytes found
            known,
      )

  -- A stream that waits for packets, and holds none.
  abbrev pub waiting : ℕ → ℕ → ℕ → RxStream F
  waiting type identifier iterator = record {
    stream_type = type;
    stream_identifier = identifier;
    buffered_iterator = iterator;
    buffered_packet = [];
    received_packets = [];
  }

  -- The stream once the packet is the buffered one.
  abbrev pub reading : ℕ → ℕ → List (Field F) → RxStream F
  reading type identifier fields = record {
    stream_type = type;
    stream_identifier = identifier;
    buffered_iterator = 0;
    buffered_packet = fields;
    received_packets = [];
  }

  deliver-waiting :
      (packet : Interpreted F) (type iterator : ℕ)
      → deliver packet type (waiting type packet.stream_identifier iterator)
        ≡ record (waiting type packet.stream_identifier iterator) {
          received_packets = packet.fields ∷ [];
        }
  unfolding push_packet push
  deliver-waiting packet type iterator = ground arith

  take-delivered :
      (alias : Field F → ℤ) (type identifier iterator : ℕ) (fields : List (Field F))
      → data_available alias
          (pos 0)
          (record (waiting type identifier iterator) { received_packets = fields ∷ [] })
        ≡ Lookup.returns (true, reading type identifier fields)
  unfolding data_available take_front same
  take-delivered alias type identifier iterator fields = refl

  -- With the other library, of the values that a stream writes as one message a stream on the other
  -- side reads the first 62, with the same types and in the same order, and its packet has no more
  -- fields: with the two items of the header these are all that there is space for. Conditions: the
  -- values are of their types, each string has fewer than 128 bytes and no zero, each float is what its
  -- bits are read as, the library parses what it encodes, the message fits in 512 bytes, the identifier
  -- has a topic, the reader listens for the writer's type and identifier and holds no packet, and
  -- nothing else has been received.
  pub exchange_first_values :
      (alias : Field F → ℤ) (topics : TopicsConfig) (t : TxStream) (vs : List (Value F))
      (r : Receiver) (queued : List Bytes) (type iterator : ℕ)
      → IsParser c
      → t.stream_type < 2 ^ 8
      → t.stream_identifier < 2 ^ 8
      → get_identifier_topic topics t.stream_identifier ≢ ""
      → stream_type_match t.stream_type ≡ some type
      → All (IsValue c) vs
      → length (encoded c (message t vs)) ≤ max_packet_length
      → (d : Daemon) × (arrived : RxStream F) × (taken : RxStream F) × (interpret_packets c topics
            (end_transmission
              (write_values c vs (start_transmission c t))
              (record { receiver = record r { rx_packets = [] }; tx_packets = queued }))
            (waiting type t.stream_identifier iterator ∷ [])
          ≡ Result.ok (d, arrived ∷ []))
        × (data_available alias (pos 0) arrived ≡ Lookup.returns (true, taken))
        × ((read_values (received vs) taken).0 ≡ map some (received vs))
        × (length taken.buffered_packet ≡ min 62 (length vs))
  exchange_first_values alias topics t vs r queued type iterator parser small_type small_id named
        known ok fits =
      let fields = map field_of (received vs) in
      let packet = packet_of t (received vs) in
      let taken = reading type t.stream_identifier fields in
      (
        record {
          receiver = record r { rx_packets = [] };
          tx_packets = queued ++ encoded c (message t vs) ∷ [];
        },
        record (waiting type t.stream_identifier iterator) { received_packets = fields ∷ [] },
        taken,
        interpret_packets-message topics t vs r queued type
              (waiting type t.stream_identifier iterator ∷ []) parser small_type small_id named
              known ok fits
            ∙ rw (deliver-waiting packet type iterator),
        take-delivered alias type t.stream_identifier iterator fields,
        read_values-fields c (received vs) [] taken (take-All (IsValue c) 62 vs ok) refl refl,
        length-map (received vs) field_of ∙ length-take 62 vs,
      )
