-- ===== src/Cbor/Interpret/Exchange.antt =====
-- A message on its way through src/desert_classes/NanoCBorStream.cpp and TcpDaemon.cpp, from the typed
-- writes of one stream to the typed reads of another.
use rmw_desert.Prelude.{
  ℕ, ◌-◌, ◌^◌, ◌≤◌, ◌<◌, ◌≡◌, ◌≢◌, refl, ◌∙◌, true, false, Option, some, List, [], ◌∷◌, ◌++◌, map,
  arith, length, All,
}
use rmw_desert.Prelude.Int.{ℤ, pos, negsuc, IsSigned}
use rmw_desert.Tcp.{Bytes, Receiver, Daemon, max_packet_length}
use rmw_desert.Topics.{TopicsConfig, get_identifier_topic}
use rmw_desert.Cbor.{IsItem, Nanocbor, IsCodec}
use rmw_desert.Cbor.Queue.{push}
use rmw_desert.Cbor.Tx.{TxStream, start_transmission, end_transmission}
use rmw_desert.Cbor.Tx.Whole.{encoded, message}
use rmw_desert.Cbor.Rx.{Field, Lookup, RxStream, data_available, take_front, push_packet, same}
use rmw_desert.Cbor.Interpret.{Outcome, Interpreted, stream_type_match, field_of, interpret_packets}
use rmw_desert.Cbor.Interpret.Fields.{deliver, interpret_packets-message}
use rmw_desert.Cbor.Interpret.Values.{Value, IsValue, integer_item, item_of}
use rmw_desert.Cbor.Interpret.Reads.{
  read_values, write_values, write_values-items, read_values-fields,
}

integer-IsItem :
    (F : Type 0) (w : ℕ) (z : ℤ)
    → 2 ^ (w - 1) ≤ 2 ^ 63
    → IsSigned w z
    → IsItem {F = F} (integer_item z)
integer-IsItem F w (pos n) small h = omega arith
integer-IsItem F w (negsuc n) small h = omega arith

module _ {F : Type 0} where
  item_of-IsItem : (v : Value F) → IsValue v → IsItem (item_of v)
  item_of-IsItem (Value.uint64 n) h = h
  item_of-IsItem (Value.uint32 n) h = omega arith
  item_of-IsItem (Value.uint16 n) h = omega arith
  item_of-IsItem (Value.uint8 n) h = omega arith
  item_of-IsItem (Value.int64 z) h = integer-IsItem F 64 z (omega arith) h
  item_of-IsItem (Value.int32 z) h = integer-IsItem F 32 z (omega arith) h
  item_of-IsItem (Value.int16 z) h = integer-IsItem F 16 z (omega arith) h
  item_of-IsItem (Value.int8 z) h = integer-IsItem F 8 z (omega arith) h
  item_of-IsItem (Value.char n) h = tt
  item_of-IsItem (Value.string s) h = tt
  item_of-IsItem (Value.u16string u) h = tt
  item_of-IsItem (Value.float f) h = tt
  item_of-IsItem (Value.bool true) h = omega arith
  item_of-IsItem (Value.bool false) h = omega arith

  pub items-IsItem : (vs : List (Value F)) → All IsValue vs → All IsItem (map item_of vs)
  items-IsItem [] h = tt
  items-IsItem (v ∷ vs) h = (item_of-IsItem v h.0, items-IsItem vs h.1)

  -- A stream that waits for packets, and holds none.
  abbrev pub waiting : ℕ → ℕ → ℕ → RxStream F
  waiting type identifier iterator = record {
    stream_type = type;
    stream_identifier = identifier;
    buffered_iterator = iterator;
    buffered_packet = [];
    received_packets = [];
    overrun = false;
  }

  -- The stream once the packet is the buffered one.
  abbrev pub reading : ℕ → ℕ → List (Field F) → RxStream F
  reading type identifier fields = record {
    stream_type = type;
    stream_identifier = identifier;
    buffered_iterator = 0;
    buffered_packet = fields;
    received_packets = [];
    overrun = false;
  }

  pub deliver-waiting :
      (packet : Interpreted F) (type iterator : ℕ)
      → deliver packet type (waiting type packet.stream_identifier iterator)
        ≡ record (waiting type packet.stream_identifier iterator) {
          received_packets = packet.fields ∷ [];
        }
  unfolding push_packet push
  deliver-waiting packet type iterator = ground arith

  pub take-delivered :
      (alias : Field F → ℤ) (type identifier iterator : ℕ) (fields : List (Field F))
      → data_available alias
          (pos 0)
          (record (waiting type identifier iterator) { received_packets = fields ∷ [] })
        ≡ Lookup.returns (true, reading type identifier fields)
  unfolding data_available take_front same
  take-delivered alias type identifier iterator fields = refl

-- A message that was written is the one that the other side's stream takes from its queue.
pub arrival :
    {F : Type 0} (c : Nanocbor F) (alias : Field F → ℤ) (topics : TopicsConfig)
    (wrap unwrap : Bytes → Option Bytes) (wrapped : Bytes) (t : TxStream) (vs : List (Value F))
    (r : Receiver) (queued : List Bytes) (type iterator : ℕ)
    → IsCodec c
    → t.stream_type < 2 ^ 8
    → t.stream_identifier < 2 ^ 8
    → get_identifier_topic topics t.stream_identifier ≢ ""
    → stream_type_match t.stream_type ≡ some type
    → All IsValue vs
    → length (encoded c (message c t (map item_of vs))) ≤ max_packet_length
    → wrap (encoded c (message c t (map item_of vs))) ≡ some wrapped
    → unwrap wrapped ≡ some (encoded c (message c t (map item_of vs)))
    → 0 < length wrapped
    → (d : Daemon) × (received : RxStream F) × (interpret_packets c topics unwrap
          (end_transmission wrap
            (write_values c vs (start_transmission c t))
            (record { receiver = record r { rx_packets = [] }; tx_packets = queued }))
          (waiting type t.stream_identifier iterator ∷ [])
        ≡ Outcome.done (d, received ∷ []))
      × (data_available alias (pos 0) received
          ≡ Lookup.returns (true, reading type t.stream_identifier (map field_of (map item_of vs))))
arrival {F} c alias topics wrap unwrap wrapped t vs r queued type iterator codec small_type small_id
      named known ok fits wraps unwraps some_bytes =
    let fields : List (Field F) = map field_of (map item_of vs) in
    let packet : Interpreted F = record {
      stream_type = t.stream_type;
      stream_identifier = t.stream_identifier;
      fields = fields;
    } in
    let arrives =
      interpret_packets-message c codec topics wrap unwrap wrapped t (map item_of vs) r queued type
        (waiting type t.stream_identifier iterator ∷ []) small_type small_id named known
        (items-IsItem vs ok) fits wraps unwraps some_bytes in
    (
      record { receiver = record r { rx_packets = [] }; tx_packets = queued ++ wrapped ∷ [] },
      record (waiting type t.stream_identifier iterator) { received_packets = fields ∷ [] },
      rw (write_values-items c vs (start_transmission c t))
          (arrives ∙ rw (deliver-waiting packet type iterator)),
      take-delivered alias type t.stream_identifier iterator fields,
    )

-- The values that a stream writes as one message are the values that a stream on the other side reads,
-- with the same types and in the same order, once it has interpreted the packet and taken it from its
-- queue. Conditions: the values are of their types, each u16string is one that `toUTF8` accepts, the
-- library reads back what it writes, the message fits in 512 bytes, the security layer undoes what it
-- does, the identifier has a topic, the reader listens for the writer's type and identifier and holds
-- no packet, and nothing else has been received.
pub exchange_values :
    {F : Type 0} (c : Nanocbor F) (alias : Field F → ℤ) (topics : TopicsConfig)
    (wrap unwrap : Bytes → Option Bytes) (wrapped : Bytes) (t : TxStream) (vs : List (Value F))
    (r : Receiver) (queued : List Bytes) (type iterator : ℕ)
    → IsCodec c
    → t.stream_type < 2 ^ 8
    → t.stream_identifier < 2 ^ 8
    → get_identifier_topic topics t.stream_identifier ≢ ""
    → stream_type_match t.stream_type ≡ some type
    → All IsValue vs
    → length (encoded c (message c t (map item_of vs))) ≤ max_packet_length
    → wrap (encoded c (message c t (map item_of vs))) ≡ some wrapped
    → unwrap wrapped ≡ some (encoded c (message c t (map item_of vs)))
    → 0 < length wrapped
    → (d : Daemon) × (received : RxStream F) × (taken : RxStream F) × (interpret_packets c topics
          unwrap
          (end_transmission wrap
            (write_values c vs (start_transmission c t))
            (record { receiver = record r { rx_packets = [] }; tx_packets = queued }))
          (waiting type t.stream_identifier iterator ∷ [])
        ≡ Outcome.done (d, received ∷ []))
      × (data_available alias (pos 0) received ≡ Lookup.returns (true, taken))
      × ((read_values vs taken).0 ≡ map some vs)
exchange_values c alias topics wrap unwrap wrapped t vs r queued type iterator codec small_type
      small_id named known ok fits wraps unwraps some_bytes =
    let (d, received, arrives, takes) =
      arrival c alias topics wrap unwrap wrapped t vs r queued type iterator codec small_type
        small_id named known ok fits wraps unwraps some_bytes in
    let taken = reading type t.stream_identifier (map field_of (map item_of vs)) in
    (d, received, taken, arrives, takes, read_values-fields vs [] taken ok refl refl)
