-- ===== src/Message/Exchange.antt =====
-- A message of src/desert_classes/MessageSerialization.h on its way through NanoCBorStream.cpp and
-- TcpDaemon.cpp, from the memory of one endpoint to that of another.
use mathlib.Core.List.{append-nil}
use rmw_desert.Prelude.{
  ℕ, ◌^◌, ◌≤◌, ◌<◌, ◌≡◌, ◌≢◌, sym, true, Option, some, List, [], ◌∷◌, map, length,
}
use rmw_desert.Prelude.Int.{ℤ, pos}
use rmw_desert.Tcp.{Bytes, Receiver, Daemon, max_packet_length}
use rmw_desert.Topics.{TopicsConfig, get_identifier_topic}
use rmw_desert.Cbor.{Nanocbor, IsCodec}
use rmw_desert.Cbor.Tx.{TxStream, start_transmission, end_transmission}
use rmw_desert.Cbor.Tx.Whole.{encoded, message}
use rmw_desert.Cbor.Rx.{Field, Lookup, RxStream, data_available}
use rmw_desert.Cbor.Interpret.{Outcome, stream_type_match, field_of, interpret_packets}
use rmw_desert.Cbor.Interpret.Values.{item_of}
use rmw_desert.Cbor.Interpret.Reads.{write_values}
use rmw_desert.Cbor.Interpret.Exchange.{waiting, reading, arrival}
use rmw_desert.Message.{Language, Members, Result, Memory}
use rmw_desert.Message.Fields.{Floats}
use rmw_desert.Message.Whole.{serialize, deserialize}
use rmw_desert.Message.Values.{message_values, IsMessage, IsShaped, IsResize}
use rmw_desert.Message.Writes.{serialize-values}
use rmw_desert.Message.Typed.{message-IsValue}
use rmw_desert.Message.Reads.{moved}
use rmw_desert.Message.RoundTrip.{deserialize-Gives}

-- A message that `serialize` writes to a stream is the message that `deserialize` puts into the memory
-- of the reader, from the packet that its stream has interpreted and taken from its queue; no call
-- throws. Conditions on the message: every value is of its type, every `double` is one that a `float`
-- holds, arrays have their size, a sequence of messages is within its bound, no text for C has a zero
-- in it, no sequence of `bool` for C++ has an element, and the type has no octet and no unknown member.
-- The reader's memory has its arrays at their size, and the generated `resize_function` makes as many
-- elements as it is told. The other conditions are those on the way of a packet: the library reads
-- back what it writes, the message fits in 512 bytes, the security layer undoes what it does, the
-- identifier has a topic, the reader listens for the writer's type and identifier and holds no packet,
-- and nothing else has been received.
pub exchange_message :
    {F D : Type 0} (floats : Floats F D) (c : Nanocbor F) (alias : Field F → ℤ)
    (topics : TopicsConfig) (resized : (ms : Members) → ℕ → List (Memory F D ms))
    (wrap unwrap : Bytes → Option Bytes) (wrapped : Bytes) (t : TxStream) (lang : Language)
    (ms : Members) (m old : Memory F D ms) (r : Receiver) (queued : List Bytes) (type iterator : ℕ)
    → IsCodec c
    → t.stream_type < 2 ^ 8
    → t.stream_identifier < 2 ^ 8
    → get_identifier_topic topics t.stream_identifier ≢ ""
    → stream_type_match t.stream_type ≡ some type
    → IsResize floats resized
    → IsMessage floats lang ms m
    → IsShaped floats ms old
    → length (encoded c (message c t (map item_of (message_values floats lang ms m))))
      ≤ max_packet_length
    → wrap (encoded c (message c t (map item_of (message_values floats lang ms m)))) ≡ some wrapped
    → unwrap wrapped
      ≡ some (encoded c (message c t (map item_of (message_values floats lang ms m))))
    → 0 < length wrapped
    → (written : TxStream) × (d : Daemon) × (received : RxStream F) × (taken : RxStream F)
      × (left : RxStream F) × (serialize floats c lang ms m (start_transmission c t)
          ≡ Result.ok written)
      × (interpret_packets c topics unwrap
            (end_transmission wrap written
              (record { receiver = record r { rx_packets = [] }; tx_packets = queued }))
            (waiting type t.stream_identifier iterator ∷ [])
          ≡ Outcome.done (d, received ∷ []))
      × (data_available alias (pos 0) received ≡ Lookup.returns (true, taken))
      × (deserialize floats resized lang ms old taken ≡ Result.ok (m, left))
exchange_message {F} floats c alias topics resized wrap unwrap wrapped t lang ms m old r queued type
      iterator codec small_type small_id named known resize ok shaped fits wraps unwraps
      some_bytes =
    let vs = message_values floats lang ms m in
    let taken = reading type t.stream_identifier (map field_of (map item_of vs)) in
    let (d, received, arrives, takes) =
      arrival c alias topics wrap unwrap wrapped t vs r queued type iterator codec small_type
        small_id named known (message-IsValue floats lang ms m ok) fits wraps unwraps some_bytes in
    let (k, gives, none_left) =
      deserialize-Gives floats resized resize lang ms m old ok shaped taken []
        (sym (append-nil (map field_of (map item_of vs)))) in
    (
      write_values c vs (start_transmission c t),
      d,
      received,
      taken,
      moved taken k,
      serialize-values floats c lang ms m (start_transmission c t) ok,
      arrives,
      takes,
      gives,
    )
