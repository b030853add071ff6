-- ===== src/Tests/Exchange.antt =====
-- One message through src/desert_classes/NanoCBorStream.cpp, with the codec of the tests.
use rmw_desert.Prelude.{
  ◌≡◌, ◌≢◌, refl, true, false, some, none, List, [], ◌∷◌, ◌++◌, map, arith, leb, if◌then◌else◌,
  length, All,
}
use rmw_desert.Prelude.Int.{ℤ, pos, negsuc}
use rmw_desert.Tcp.{Bytes, Receiver, Daemon, max_packet_length, enqueue_packet}
use rmw_desert.Topics.{
  TopicsConfig, load_configuration, get_identifier_topic, invert, assign, find_identifier,
}
use rmw_desert.Cbor.{Item}
use rmw_desert.Cbor.Tx.{
  TxStream, write_item, serialize_sequence, start_transmission, end_transmission,
}
use rmw_desert.Cbor.Tx.Whole.{encoded, message, end_transmission_whole}
use rmw_desert.Cbor.Rx.{Field, Lookup, RxStream, data_available}
use rmw_desert.Cbor.Interpret.{Outcome, stream_type_match, field_of, interpret_packets}
use rmw_desert.Cbor.Interpret.Fields.{deliver, interpret_packets-message}
use rmw_desert.Cbor.Interpret.Values.{Value, IsValue, item_of}
use rmw_desert.Cbor.Interpret.Reads.{read_values, write_values}
use rmw_desert.Cbor.Interpret.Exchange.{waiting, exchange_values}
use rmw_desert.Tests.Codec.{codec, codec-IsCodec}

-- A publisher of topic 3.
abbrev pub publisher : TxStream
publisher = record { stream_type = 0; stream_identifier = 3; overflow = false; packet = [] }

abbrev pub config : TopicsConfig
config = load_configuration (("chatter", 3) ∷ [])

abbrev values : List (Value Unit)
values =
    Value.string (104 ∷ 105 ∷ []) ∷ Value.int16 (negsuc 4) ∷ Value.bool true ∷ Value.uint8 200 ∷ []

abbrev pub idle : Receiver
idle = record { packet = []; found_header = false; dimension_in_header = 0; rx_packets = [] }

abbrev pub nothing : Field Unit → ℤ
nothing f = pos 0

abbrev bytes : Bytes
bytes = encoded codec (message codec publisher (map item_of values))

pub three_named : get_identifier_topic config 3 ≢ ""
unfolding get_identifier_topic load_configuration invert assign find_identifier
three_named e = cc

pub publisher_known : stream_type_match 0 ≡ some 1
unfolding stream_type_match
publisher_known = refl

values-IsValue : All IsValue values
values-IsValue = (tt, (omega arith, (tt, (omega arith, tt))))

exchange_values_example :
    (d : Daemon) × (received : RxStream Unit) × (taken : RxStream Unit) × (interpret_packets codec
        config some
        (end_transmission some
          (write_values codec values (start_transmission codec publisher))
          (record { receiver = idle; tx_packets = [] }))
        (waiting 1 3 0 ∷ [])
      ≡ Outcome.done (d, received ∷ []))
    × (data_available nothing (pos 0) received ≡ Lookup.returns (true, taken))
    × ((read_values values taken).0 ≡ map some values)
exchange_values_example =
    exchange_values codec nothing config some some bytes publisher values idle [] 1 0 codec-IsCodec
      (omega arith) (omega arith) three_named publisher_known values-IsValue (omega arith) refl refl
      (omega arith)

abbrev quiet : Daemon
quiet = record { receiver = idle; tx_packets = [] }

end_transmission_whole_example :
    end_transmission some
      (serialize_sequence codec
        (write_item codec)
        (map item_of values)
        (start_transmission codec publisher))
      quiet
    ≡ (if leb (length bytes) max_packet_length
        then elim (some bytes) [ none ↦ quiet | some wrapped ↦ enqueue_packet quiet wrapped ]
        else quiet)
end_transmission_whole_example =
    end_transmission_whole codec some publisher (map item_of values) quiet

-- The second stream listens for another topic.
interpret_packets-message_example :
    interpret_packets codec config some
      (end_transmission some
        (serialize_sequence codec
          (write_item codec)
          (Item.uint 7 ∷ [])
          (start_transmission codec publisher))
        (record { receiver = record idle { rx_packets = [] }; tx_packets = [] }))
      (waiting 1 3 0 ∷ waiting 1 4 0 ∷ [])
    ≡ Outcome.done (
      record {
        receiver = record idle { rx_packets = [] };
        tx_packets = [] ++ encoded codec (message codec publisher (Item.uint 7 ∷ [])) ∷ [];
      },
      map
          (deliver
            (record {
              stream_type = 0;
              stream_identifier = 3;
              fields = map field_of (Item.uint 7 ∷ []);
            })
            1)
          (waiting 1 3 0 ∷ waiting 1 4 0 ∷ []),
    )
interpret_packets-message_example =
    interpret_packets-message codec codec-IsCodec config some some
      (encoded codec (message codec publisher (Item.uint 7 ∷ []))) publisher (Item.uint 7 ∷ []) idle
      [] 1 (waiting 1 3 0 ∷ waiting 1 4 0 ∷ []) (omega arith) (omega arith) three_named
      publisher_known (omega arith, tt) (omega arith) refl refl (omega arith)
