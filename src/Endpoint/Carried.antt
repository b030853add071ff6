-- ===== src/Endpoint/Carried.antt =====
-- A packet that one endpoint has handed to the daemon, on its way to the stream of another endpoint.
use rmw_desert.Prelude.{
  ℕ, ◌^◌, ◌≤◌, ◌<◌, ◌≡◌, ◌≢◌, refl, ◌∙◌, ap, Bool, true, false, some, List, [], ◌∷◌, ◌++◌, map,
  arith, length, get_elem?, set, get_elem?-map, All,
}
use rmw_desert.Prelude.Int.{ℤ, pos}
use rmw_desert.Tcp.{Bytes, Receiver, max_packet_length}
use rmw_desert.Topics.{get_identifier_topic}
use rmw_desert.Cbor.{IsCodec}
use rmw_desert.Cbor.Queue.{push, pop}
use rmw_desert.Cbor.Tx.{TxStream, start_transmission, start_transmission_sequence, end_transmission}
use rmw_desert.Cbor.Tx.Whole.{encoded, message}
use rmw_desert.Cbor.Rx.{
  Field, Lookup, RxStream, data_available, search_loop, rotate, as_int64, take_front, same,
}
use rmw_desert.Cbor.Interpret.{Interpreted, stream_type_match, field_of}
use rmw_desert.Cbor.Interpret.Fields.{deliver, interpret_packets-message}
use rmw_desert.Cbor.Interpret.Values.{Value, IsValue, item_of, write_value}
use rmw_desert.Cbor.Interpret.Reads.{write_values, write_values-items}
use rmw_desert.Cbor.Interpret.Exchange.{
  waiting, reading, items-IsItem, deliver-waiting, take-delivered,
}
use rmw_desert.Message.{Result}
use rmw_desert.Endpoint.{
  Setup, World, of_outcome, update_stream, on_stream, available, interpret, stream_has_data,
}

-- A process that has interpreted all packets it has received.
abbrev pub quiet : {F : Type 0} → Receiver → List Bytes → List (RxStream F) → List Bool → World F
quiet r queued streams guards = record {
  daemon = record { receiver = record r { rx_packets = [] }; tx_packets = queued };
  streams = streams;
  guards = guards;
}

pub on_stream-found :
    {F A : Type 0} (i : ℕ) (act : RxStream F → Result (A × RxStream F)) (w : World F)
    (r r' : RxStream F) (a : A)
    → get_elem? w.streams i ≡ some r
    → act r ≡ Result.ok (a, r')
    → r'.overrun ≡ false
    → on_stream i act w ≡ Result.ok (a, record w { streams = set w.streams i r' })
unfolding on_stream update_stream
on_stream-found i act w r r' a found acts within = rw (found, acts, within)

-- The packet of a request or a response, which is at the front of a stream that waits for its number.
take-numbered :
    {F : Type 0} (alias : Field F → ℤ) (k type identifier iterator : ℕ) (fields : List (Field F))
    → k < 2 ^ 63
    → k ≢ 0
    → data_available alias (pos k) (record (waiting type identifier iterator) {
      received_packets = (Field.uint k ∷ fields) ∷ [];
    })
      ≡ Lookup.returns
          (true, record (reading type identifier (Field.uint k ∷ fields)) { buffered_iterator = 1 })
unfolding data_available take_front same search_loop as_int64
take-numbered alias k type identifier iterator fields small some_number = ground arith

-- A packet with another number stays in the queue.
keep-numbered :
    {F : Type 0} (alias : Field F → ℤ) (k j type identifier iterator : ℕ) (fields : List (Field F))
    → j < 2 ^ 63
    → k ≢ 0
    → k ≢ j
    → data_available alias (pos k) (record (waiting type identifier iterator) {
      received_packets = (Field.uint j ∷ fields) ∷ [];
    })
      ≡ Lookup.returns (
        false,
        record (waiting type identifier iterator) {
          received_packets = (Field.uint j ∷ fields) ∷ [];
        },
      )
unfolding data_available take_front same search_loop as_int64 rotate pop push
keep-numbered alias k j type identifier iterator fields small some_number other = ground arith

module _ {F D : Type 0} (s : Setup F D) where
  -- The stream `t` sends the values in one packet, which is `wrapped` by the security layer: its type
  -- has the listener's type as its match, its identifier has a topic, and the packet fits in 512 bytes
  -- and comes back from the security layer.
  pub record IsCarried (t : TxStream) (listener : ℕ) (vs : List (Value F)) (wrapped : Bytes)
      : Type 0 where
    pub small_type : t.stream_type < 2 ^ 8
    pub small_identifier : t.stream_identifier < 2 ^ 8
    pub named : get_identifier_topic s.topics t.stream_identifier ≢ ""
    pub known : stream_type_match t.stream_type ≡ some listener
    pub fits :
        length (encoded s.nanocbor (message s.nanocbor t (map item_of vs))) ≤ max_packet_length
    pub wraps : s.wrap (encoded s.nanocbor (message s.nanocbor t (map item_of vs))) ≡ some wrapped
    pub unwraps :
        s.unwrap wrapped ≡ some (encoded s.nanocbor (message s.nanocbor t (map item_of vs)))
    pub some_bytes : 0 < length wrapped

  abbrev pub packet_of : TxStream → List (Value F) → Interpreted F
  packet_of t vs = record {
    stream_type = t.stream_type;
    stream_identifier = t.stream_identifier;
    fields = map field_of (map item_of vs);
  }

  abbrev pub sent : TxStream → List (Value F) → World F → World F
  sent t vs w = record w {
    daemon =
        end_transmission s.wrap (write_values s.nanocbor vs (start_transmission s.nanocbor t))
          w.daemon;
  }

  interpret-sent :
      (t : TxStream) (listener : ℕ) (vs : List (Value F)) (wrapped : Bytes) (r : Receiver)
      (queued : List Bytes) (streams : List (RxStream F)) (guards : List Bool)
      → IsCodec s.nanocbor
      → All IsValue vs
      → IsCarried t listener vs wrapped
      → interpret s (sent t vs (quiet r queued streams guards))
        ≡ Result.ok (
            quiet r
              (queued ++ wrapped ∷ [])
              (map (deliver (packet_of t vs) listener) streams)
              guards)
  unfolding interpret of_outcome
  interpret-sent t listener vs wrapped r queued streams guards codec ok way = rw (
    write_values-items s.nanocbor vs (start_transmission s.nanocbor t),
    interpret_packets-message s.nanocbor codec s.topics s.wrap s.unwrap wrapped t (map item_of vs) r
        queued listener streams way.small_type way.small_identifier way.named way.known
        (items-IsItem vs ok) way.fits way.wraps way.unwraps way.some_bytes,
  )

  -- The stream that waits for the packet has it as its buffered packet.
  pub has-sent :
      (t : TxStream) (listener : ℕ) (vs : List (Value F)) (wrapped : Bytes) (r : Receiver)
      (queued : List Bytes) (streams : List (RxStream F)) (guards : List Bool) (i iterator : ℕ)
      → IsCodec s.nanocbor
      → All IsValue vs
      → IsCarried t listener vs wrapped
      → get_elem? streams i ≡ some (waiting listener t.stream_identifier iterator)
      → stream_has_data s (pos 0) i (sent t vs (quiet r queued streams guards))
        ≡ Result.ok (
          true,
          quiet r
              (queued ++ wrapped ∷ [])
              (set
                (map (deliver (packet_of t vs) listener) streams)
                i
                (reading listener t.stream_identifier (map field_of (map item_of vs))))
              guards,
        )
  unfolding stream_has_data available
  has-sent t listener vs wrapped r queued streams guards i iterator codec ok way here =
      let there =
        get_elem?-map (deliver (packet_of t vs) listener) streams i
          (waiting listener t.stream_identifier iterator) here
        ∙ ap some (deliver-waiting (packet_of t vs) listener iterator) in
      rw (interpret-sent t listener vs wrapped r queued streams guards codec ok way) (
        on_stream-found i (λ r. available (data_available s.alias (pos 0) r)) _ _
          (reading listener t.stream_identifier (map field_of (map item_of vs))) true there
          (ap available (
            take-delivered s.alias listener t.stream_identifier iterator
              (map field_of (map item_of vs))))
          refl)

  -- The front of the stream that waits for the number of the packet.
  pub has-numbered :
      (t : TxStream) (listener : ℕ) (vs : List (Value F)) (wrapped : Bytes) (r : Receiver)
      (queued : List Bytes) (streams : List (RxStream F)) (guards : List Bool) (i iterator k : ℕ)
      → IsCodec s.nanocbor
      → All IsValue vs
      → k < 2 ^ 63
      → k ≢ 0
      → IsCarried t listener (Value.uint64 k ∷ vs) wrapped
      → get_elem? streams i ≡ some (waiting listener t.stream_identifier iterator)
      → stream_has_data s (pos k) i (sent t (Value.uint64 k ∷ vs) (quiet r queued streams guards))
        ≡ Result.ok (
          true,
          quiet r
              (queued ++ wrapped ∷ [])
              (set
                (map (deliver (packet_of t (Value.uint64 k ∷ vs)) listener) streams)
                i
                (record (reading listener t.stream_identifier
                  (Field.uint k ∷ map field_of (map item_of vs))) { buffered_iterator = 1 }))
              guards,
        )
  unfolding stream_has_data available field_of
  has-numbered t listener vs wrapped r queued streams guards i iterator k codec ok small some_number
        way here =
      let packet = packet_of t (Value.uint64 k ∷ vs) in
      let fits : k < 2 ^ 64 = omega arith in
      let there =
        get_elem?-map (deliver packet listener) streams i
          (waiting listener t.stream_identifier iterator) here
        ∙ ap some (deliver-waiting packet listener iterator) in
      rw
        (interpret-sent t listener (Value.uint64 k ∷ vs) wrapped r queued streams guards codec
          (fits, ok) way)
        (on_stream-found i (λ r. available (data_available s.alias (pos k) r)) _ _
          (record (reading listener t.stream_identifier
            (Field.uint k ∷ map field_of (map item_of vs))) { buffered_iterator = 1 })
          true there
          (ap available (
            take-numbered s.alias k listener t.stream_identifier iterator
              (map field_of (map item_of vs)) small some_number))
          refl)

  -- The stream that waits for another number.
  pub has-other :
      (t : TxStream) (listener : ℕ) (vs : List (Value F)) (wrapped : Bytes) (r : Receiver)
      (queued : List Bytes) (streams : List (RxStream F)) (guards : List Bool) (i iterator k j : ℕ)
      → IsCodec s.nanocbor
      → All IsValue vs
      → j < 2 ^ 63
      → k ≢ 0
      → k ≢ j
      → IsCarried t listener (Value.uint64 j ∷ vs) wrapped
      → get_elem? streams i ≡ some (waiting listener t.stream_identifier iterator)
      → (w' : World F) × (stream_has_data s
            (pos k)
            i
            (sent t (Value.uint64 j ∷ vs) (quiet r queued streams guards))
          ≡ Result.ok (false, w'))
  unfolding stream_has_data available field_of
  has-other t listener vs wrapped r queued streams guards i iterator k j codec ok small some_number
        other way here =
      let packet = packet_of t (Value.uint64 j ∷ vs) in
      let fits : j < 2 ^ 64 = omega arith in
      let there =
        get_elem?-map (deliver packet listener) streams i
          (waiting listener t.stream_identifier iterator) here
        ∙ ap some (deliver-waiting packet listener iterator) in
      let kept : RxStream F = record (waiting listener t.stream_identifier iterator) {
        received_packets = packet.fields ∷ [];
      } in
      let before : World F =
        quiet r (queued ++ wrapped ∷ []) (map (deliver packet listener) streams) guards in
      (
        record before { streams = set before.streams i kept },
        rw
            (interpret-sent t listener (Value.uint64 j ∷ vs) wrapped r queued streams guards codec
              (fits, ok) way)
            (on_stream-found i (λ r. available (data_available s.alias (pos k) r)) before _ kept
              false there
              (ap available (
                keep-numbered s.alias k j listener t.stream_identifier iterator
                  (map field_of (map item_of vs)) small some_number other))
              refl),
      )

  -- The number of a request goes in front of the values.
  pub start_sequence :
      (k : ℕ) (t : TxStream)
      → start_transmission_sequence s.nanocbor k t
        ≡ write_value s.nanocbor (Value.uint64 k) (start_transmission s.nanocbor t)
  unfolding start_transmission_sequence start_transmission
  start_sequence k t = refl
