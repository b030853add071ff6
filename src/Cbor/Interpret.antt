-- ===== src/Cbor/Interpret.antt =====
-- `interpret_packets` and `interpret_field` of src/desert_classes/NanoCBorStream.cpp: from the bytes
-- that the daemon has received to the streams that listen.
pub mod Fields
pub mod Values
pub mod Reads
pub mod Exchange
pub mod Ends
use text.Mathlib.Text.{◌==◌ as str_eq}
use rmw_desert.Prelude.{
  ℕ, zero, suc, ◌&&◌, Option, some, none, List, [], ◌∷◌, ◌==◌, if◌then◌else◌, length,
}
use rmw_desert.Prelude.Int.{negsuc}
use rmw_desert.Tcp.{Bytes, Daemon}
use rmw_desert.Topics.{TopicsConfig, get_identifier_topic}
use rmw_desert.Cbor.{Item, Nanocbor}
use rmw_desert.Cbor.Rx.{Field, RxStream, push_packet}

-- How a call ends: with a result, with the exception `out_of_range`, or with a loop on input that it
-- does not consume.
pub data Outcome (A : Type 0) : Type 0 where
  done : A → Outcome A
  out_of_range : Outcome A
  endless : Outcome A

-- What the loop over a packet's items has found, where the stream's name is not empty.
pub record Interpreted (F : Type 0) : Type 0 where
  pub stream_type : ℕ
  pub stream_identifier : ℕ
  pub fields : List (Field F)

abbrev pub publisher_type : ℕ
publisher_type = 0

abbrev pub subscriber_type : ℕ
subscriber_type = 1

abbrev pub client_type : ℕ
client_type = 2

abbrev pub service_type : ℕ
service_type = 3

-- `_stream_type_match_map.at`, which knows no subscriber
unfoldable pub stream_type_match : ℕ → Option ℕ
stream_type_match stream_type =
    if stream_type == publisher_type
    then some subscriber_type
    else if stream_type == client_type
    then some service_type
    else if stream_type == service_type
    then some client_type
    else none

module _ {F : Type 0} where
  unfoldable pub field_of : Item F → Field F
  field_of (Item.uint n) = Field.uint n
  field_of (Item.nint n) = Field.nint (negsuc n)
  field_of (Item.float f) = Field.float f
  field_of (Item.tstr s) = Field.tstr s
  field_of (Item.bstr s) = Field.tstr s

  -- `interpreted_packet.push_back(field)`, if there is one.
  unfoldable pub collect : Option (Field F) → Outcome (List (Field F)) → Outcome (List (Field F))
  collect none others = others
  collect (some field) (Outcome.done fields) = Outcome.done (field ∷ fields)
  collect (some field) Outcome.out_of_range = Outcome.out_of_range
  collect (some field) Outcome.endless = Outcome.endless

  -- The loop over the listening streams.
  unfoldable pub dispatch : Interpreted F → List (RxStream F) → Outcome (List (RxStream F))
  dispatch packet [] = Outcome.done []
  dispatch packet (stream ∷ streams) =
      let rest = dispatch packet streams in
      elim (stream_type_match packet.stream_type) [
        | none ↦ Outcome.out_of_range
        | some type ↦ elim rest [
          | Outcome.done others ↦ Outcome.done (
              (if stream.stream_type == type && stream.stream_identifier == packet.stream_identifier
                then push_packet packet.fields stream
                else stream)
              ∷ others)
          | Outcome.out_of_range ↦ Outcome.out_of_range
          | Outcome.endless ↦ Outcome.endless
        ]
      ]

module _ {F : Type 0} (c : Nanocbor F) where
  -- The field, if there is one, and the bytes that are left.
  unfoldable pub interpret_field : Bytes → Option (Field F) × Bytes
  interpret_field bytes = elim (c.get bytes) [
    | some (item, rest) ↦ (some (field_of item), rest)
    | none ↦ (none, c.skip bytes)
  ]

  -- The loop from the third item on, with fuel.
  unfoldable pub interpret_fields : ℕ → Bytes → Outcome (List (Field F))
  interpret_fields fuel [] = Outcome.done []
  interpret_fields zero (b ∷ bs) = Outcome.endless
  interpret_fields (suc fuel) (b ∷ bs) =
      let (field, rest) = interpret_field (b ∷ bs) in collect field (interpret_fields fuel rest)

  -- The loop over a packet; `done none` is a packet with an empty stream name. Where each round takes
  -- a byte, the length of the packet is enough fuel.
  unfoldable pub interpret_packet : TopicsConfig → Bytes → Outcome (Option (Interpreted F))
  interpret_packet topics packet = elim (c.get_uint8 packet) [
    | none ↦ Outcome.done none
    | some (stream_type, after_type) ↦ elim (c.get_uint8 after_type) [
      | none ↦ Outcome.done none
      | some (stream_identifier, rest) ↦
          if str_eq (get_identifier_topic topics stream_identifier) ""
          then Outcome.done none
          else elim (interpret_fields (length rest) rest) [
            | Outcome.done fields ↦ Outcome.done (
                some (record {
                  stream_type = stream_type;
                  stream_identifier = stream_identifier;
                  fields = fields;
                }))
            | Outcome.out_of_range ↦ Outcome.out_of_range
            | Outcome.endless ↦ Outcome.endless
          ]
    ]
  ]

  -- The loop over the received packets, of which an empty one ends it: the packets that are left and
  -- the streams. `unwrap` is the security layer's, or `some` where there is none.
  unfoldable pub interpret_loop :
      TopicsConfig
      → (Bytes → Option Bytes)
      → List Bytes
      → List (RxStream F)
      → Outcome (List Bytes × List (RxStream F))
  interpret_loop topics unwrap [] streams = Outcome.done ([], streams)
  interpret_loop topics unwrap ([] ∷ queue) streams = Outcome.done (queue, streams)
  interpret_loop topics unwrap ((b ∷ bs) ∷ queue) streams = elim (unwrap (b ∷ bs)) [
    | none ↦ interpret_loop topics unwrap queue streams
    | some packet ↦ elim (interpret_packet topics packet) [
      | Outcome.done none ↦ interpret_loop topics unwrap queue streams
      | Outcome.done (some interpreted) ↦ elim (dispatch interpreted streams) [
        | Outcome.done streams' ↦ interpret_loop topics unwrap queue streams'
        | Outcome.out_of_range ↦ Outcome.out_of_range
        | Outcome.endless ↦ Outcome.endless
      ]
      | Outcome.out_of_range ↦ Outcome.out_of_range
      | Outcome.endless ↦ Outcome.endless
    ]
  ]

  unfoldable pub interpret_packets :
      TopicsConfig
      → (Bytes → Option Bytes)
      → Daemon
      → List (RxStream F)
      → Outcome (Daemon × List (RxStream F))
  interpret_packets topics unwrap d streams =
      elim (interpret_loop topics unwrap d.receiver.rx_packets streams) [
        | Outcome.done (queue, streams') ↦
            Outcome.done
              (record d { receiver = record (d.receiver) { rx_packets = queue } }, streams')
        | Outcome.out_of_range ↦ Outcome.out_of_range
        | Outcome.endless ↦ Outcome.endless
      ]
