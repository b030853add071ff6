-- ===== src/Endpoint/Requests.antt =====
-- Requests and responses of src/rmw.cpp, DesertClient.cpp and DesertService.cpp, within one process.
use mathlib.Core.List.{append-nil}
use rmw_desert.Prelude.{
  ℕ, ◌%◌, ◌^◌, ◌<◌, ◌≡◌, ◌≢◌, refl, sym, ap, ◌∙◌, Bool, true, false, some, List, [], ◌∷◌, ◌++◌, map,
  arith, ◌==◌, get_elem?, set, get_elem?-set_self, get_elem?-below, length-map, length,
}
use rmw_desert.Prelude.Int.{ℤ, pos}
use rmw_desert.Tcp.{Bytes, Receiver}
use rmw_desert.Cbor.{IsCodec}
use rmw_desert.Cbor.Tx.{start_transmission}
use rmw_desert.Cbor.Rx.{Field, RxStream, clear_buffer}
use rmw_desert.Cbor.Interpret.{client_type, service_type, field_of}
use rmw_desert.Cbor.Interpret.Fields.{deliver}
use rmw_desert.Cbor.Interpret.Values.{Value, item_of, write_value}
use rmw_desert.Cbor.Interpret.Reads.{write_values}
use rmw_desert.Cbor.Interpret.Exchange.{waiting, reading}
use rmw_desert.Message.{Language, Scalar, Members, Result, ◌>>=◌, Memory}
use rmw_desert.Message.Fields.{read_scalar}
use rmw_desert.Message.Whole.{deserialize}
use rmw_desert.Message.Values.{message_values, IsMessage, IsShaped, IsResize}
use rmw_desert.Message.Writes.{serialize-values}
use rmw_desert.Message.Typed.{message-IsValue}
use rmw_desert.Message.Reads.{moved, scalar-Reads}
use rmw_desert.Message.RoundTrip.{deserialize-Gives}
use rmw_desert.Endpoint.{Setup, World, stream_has_data}
use rmw_desert.Endpoint.Client
use rmw_desert.Endpoint.Client.{DesertClient, read_response, send_request}
use rmw_desert.Endpoint.Service
use rmw_desert.Endpoint.Service.{DesertService, take_fields, read_request, send_response}
use rmw_desert.Endpoint.Rmw.{
  rmw_send_request, rmw_send_response, rmw_take_request, rmw_take_response,
}
use rmw_desert.Endpoint.Carried.{
  quiet, packet_of, sent, IsCarried, on_stream-found, has-sent, has-numbered, has-other,
  start_sequence,
}

module _ {F D : Type 0} (s : Setup F D) (lang : Language) (ms : Members) (m : Memory F D ms) where
  abbrev pub numbered : ℕ → List (Value F)
  numbered k = Value.uint64 k ∷ message_values s.floats lang ms m

  send_request-sent :
      (cli : DesertClient) (k : ℕ) (w : World F)
      → IsMessage s.floats lang ms m
      → cli.id ≢ 0
      → k < 2 ^ 63
      → send_request s lang ms m (pos k) cli w
        ≡ Result.ok (
          record cli {
            sequence_id = pos k;
            request_data_stream =
                write_values s.nanocbor
                  (numbered k)
                  (start_transmission s.nanocbor cli.request_data_stream);
          },
          sent s cli.request_data_stream (numbered k) w,
        )
  unfolding send_request
  send_request-sent cli k w ok enabled small =
      let on : (cli.id == 0) ≡ false = ground arith in
      let same : k % 2 ^ 64 ≡ k = omega arith in
      rw (
        on,
        same,
        start_sequence s k cli.request_data_stream,
        serialize-values s.floats s.nanocbor lang ms m
            (write_value s.nanocbor (Value.uint64 k)
              (start_transmission s.nanocbor cli.request_data_stream))
            ok,
      )

  send_response-sent :
      (ser : DesertService) (header : ℤ) (k : ℕ) (w : World F)
      → IsMessage s.floats lang ms m
      → ser.id ≢ 0
      → k < 2 ^ 63
      → ser.sequence_id ≡ pos k
      → send_response s lang ms m header ser w
        ≡ Result.ok (
          (
            pos k,
            record ser {
              response_data_stream =
                  write_values s.nanocbor
                    (numbered k)
                    (start_transmission s.nanocbor ser.response_data_stream);
            },
          ),
          sent s ser.response_data_stream (numbered k) w,
        )
  unfolding send_response
  send_response-sent ser header k w ok enabled small kept =
      let on : (ser.id == 0) ≡ false = ground arith in
      let same : k % 2 ^ 64 ≡ k = omega arith in
      rw (
        on,
        kept,
        same,
        start_sequence s k ser.response_data_stream,
        serialize-values s.floats s.nanocbor lang ms m
            (write_value s.nanocbor (Value.uint64 k)
              (start_transmission s.nanocbor ser.response_data_stream))
            ok,
      )

  take_fields-numbered :
      (old : Memory F D ms) (k type identifier : ℕ) (was : ℤ)
      → IsResize s.floats s.resized
      → IsMessage s.floats lang ms m
      → IsShaped s.floats ms old
      → k < 2 ^ 63
      → (at : ℕ) × (take_fields s lang ms old was
            (reading type identifier (map field_of (map item_of (numbered k))))
          ≡ Result.ok ((m, pos k), waiting type identifier at))
  unfolding take_fields clear_buffer read_scalar field_of
  take_fields-numbered old k type identifier was resize ok shaped small =
      let fields = map field_of (map item_of (message_values s.floats lang ms m)) in
      let r = reading type identifier (map field_of (map item_of (numbered k))) in
      let (a, number, next) =
        scalar-Reads s.floats Language.cpp_members Scalar.int64 (pos k) was (small, tt) r fields
          refl in
      let (b, gives, end) =
        deserialize-Gives s.floats s.resized resize lang ms m old ok shaped (moved r a) []
          (next ∙ sym (append-nil fields)) in
      (b, rw (number, gives))

  read_response-numbered :
      (old : Memory F D ms) (k type identifier : ℕ) (cli : DesertClient) (w : World F)
      → IsResize s.floats s.resized
      → IsMessage s.floats lang ms m
      → IsShaped s.floats ms old
      → get_elem? w.streams cli.response_data_stream
        ≡ some
            (record (reading type identifier
              (Field.uint k ∷ map field_of (map item_of (message_values s.floats lang ms m)))) {
                buffered_iterator = 1;
              })
      → (w' : World F) × (read_response s lang ms old cli w ≡ Result.ok ((m, cli.sequence_id), w'))
  unfolding read_response clear_buffer
  read_response-numbered old k type identifier cli w resize ok shaped here =
      let fields = map field_of (map item_of (message_values s.floats lang ms m)) in
      let r = record (reading type identifier (Field.uint k ∷ fields)) { buffered_iterator = 1 } in
      let (b, gives, end) =
        deserialize-Gives s.floats s.resized resize lang ms m old ok shaped r []
          (sym (append-nil fields)) in
      (
        record w { streams = set w.streams cli.response_data_stream (clear_buffer (moved r b)) },
        on_stream-found cli.response_data_stream
            (λ r.
              deserialize s.floats s.resized lang ms old r
              >>= (λ p. Result.ok ((p.0, cli.sequence_id), clear_buffer p.1)))
            w r (clear_buffer (moved r b)) (m, cli.sequence_id) here (rw gives) refl,
      )

-- The request of a client is the one that the service of the same process takes, with the number of the
-- request in its header; the service keeps the number. Conditions: the request comes back from the
-- stream, the memory of the reader has its arrays at their size, the client's service is enabled, the
-- number is from 1 to 999, the packet is carried, the stream of the service listens for it and holds no
-- packet, and nothing else has been received. What the theorem says of the streams is that of the
-- service waits again, and each other one is as the packet found it.
pub rmw_take_request-rmw_send_request :
    {F D : Type 0} (s : Setup F D) (lang : Language) (ms : Members) (m old : Memory F D ms)
    (cli : DesertClient) (ser : DesertService) (r : Receiver) (queued : List Bytes)
    (streams : List (RxStream F)) (guards : List Bool) (wrapped : Bytes) (random iterator : ℕ)
    (header : ℤ) (taken : Bool)
    → IsCodec s.nanocbor
    → IsResize s.floats s.resized
    → IsMessage s.floats lang ms m
    → IsShaped s.floats ms old
    → cli.id ≢ 0
    → IsCarried s cli.request_data_stream service_type
        (numbered s lang ms m (random % 1000))
        wrapped
    → get_elem? streams ser.request_data_stream
      ≡ some (waiting service_type cli.request_data_stream.stream_identifier iterator)
    → (cli' : DesertClient) × (at : ℕ) × (w' : World F) × (rmw_send_request s lang ms m random cli
          (quiet r queued streams guards)
        ≡ Result.ok ((pos (random % 1000), cli'), w'))
      × (cli'.sequence_id ≡ pos (random % 1000))
      × (cli'.response_data_stream ≡ cli.response_data_stream)
      × (rmw_take_request s lang ms old header taken ser w'
          ≡ Result.ok (
            (m, pos (random % 1000), true, record ser { sequence_id = pos (random % 1000) }),
            quiet r
                (queued ++ wrapped ∷ [])
                (set
                  (set
                    (map
                      (deliver
                        (packet_of s cli.request_data_stream (numbered s lang ms m (random % 1000)))
                        service_type)
                      streams)
                    ser.request_data_stream
                    (reading service_type cli.request_data_stream.stream_identifier
                      (map field_of (map item_of (numbered s lang ms m (random % 1000))))))
                  ser.request_data_stream
                  (waiting service_type cli.request_data_stream.stream_identifier at))
                guards,
          ))
unfolding rmw_send_request rmw_take_request Service.has_data read_request
rmw_take_request-rmw_send_request {F} s lang ms m old cli ser r queued streams guards wrapped random
      iterator header taken codec resize ok shaped enabled way here =
    let k = random % 1000 in
    let small : k < 2 ^ 63 = omega arith in
    let fits : k < 2 ^ 64 = omega arith in
    let vs = numbered s lang ms m k in
    let t = cli.request_data_stream in
    let w = quiet r queued streams guards in
    let there : RxStream F = waiting service_type t.stream_identifier iterator in
    let delivered = map (deliver (packet_of s t vs) service_type) streams in
    let buffered = reading service_type t.stream_identifier (map field_of (map item_of vs)) in
    let after : World F =
      quiet r (queued ++ wrapped ∷ []) (set delivered ser.request_data_stream buffered) guards in
    let below : ser.request_data_stream < length delivered = omega (
      arith,
      length-map streams (deliver (packet_of s t vs) service_type),
      get_elem?-below streams ser.request_data_stream there here,
    ) in
    let (at, takes) =
      take_fields-numbered s lang ms m old k service_type t.stream_identifier ser.sequence_id resize
        ok shaped small in
    let found =
      on_stream-found ser.request_data_stream (take_fields s lang ms old ser.sequence_id) after
        buffered (waiting service_type t.stream_identifier at) (m, pos k)
        (get_elem?-set_self _ _ _ below) takes refl in
    (
      record cli {
        sequence_id = pos k;
        request_data_stream = write_values s.nanocbor vs (start_transmission s.nanocbor t);
      },
      at,
      sent s t vs w,
      rw (send_request-sent s lang ms m cli k w ok enabled small),
      refl,
      refl,
      rw (
        has-sent s t service_type vs wrapped r queued streams guards ser.request_data_stream
            iterator codec (fits, message-IsValue s.floats lang ms m ok) way here,
        found,
      ),
    )

-- The response of a service is the one that the client of the same process takes, where the client
-- waits for the number of the request that the service has taken last; the header is given this
-- number. Conditions as for a request, and the number is not 0.
pub rmw_take_response-rmw_send_response :
    {F D : Type 0} (s : Setup F D) (lang : Language) (ms : Members) (m old : Memory F D ms)
    (cli : DesertClient) (ser : DesertService) (r : Receiver) (queued : List Bytes)
    (streams : List (RxStream F)) (guards : List Bool) (wrapped : Bytes) (k iterator : ℕ)
    (number header : ℤ) (taken : Bool)
    → IsCodec s.nanocbor
    → IsResize s.floats s.resized
    → IsMessage s.floats lang ms m
    → IsShaped s.floats ms old
    → ser.id ≢ 0
    → k < 2 ^ 63
    → k ≢ 0
    → ser.sequence_id ≡ pos k
    → cli.sequence_id ≡ pos k
    → IsCarried s ser.response_data_stream client_type (numbered s lang ms m k) wrapped
    → get_elem? streams cli.response_data_stream
      ≡ some (waiting client_type ser.response_data_stream.stream_identifier iterator)
    → (ser' : DesertService) × (w' : World F) × (w'' : World F) × (rmw_send_response s lang ms m
          number ser
          (quiet r queued streams guards)
        ≡ Result.ok ((pos k, ser'), w'))
      × (rmw_take_response s lang ms old header taken cli w' ≡ Result.ok ((m, pos k, true), w''))
unfolding rmw_send_response rmw_take_response Client.has_data
rmw_take_response-rmw_send_response {F} s lang ms m old cli ser r queued streams guards wrapped k
      iterator number header taken codec resize ok shaped enabled small some_number kept waits way
      here =
    let vs = message_values s.floats lang ms m in
    let t = ser.response_data_stream in
    let w = quiet r queued streams guards in
    let packet = packet_of s t (numbered s lang ms m k) in
    let delivered = map (deliver packet client_type) streams in
    let front : RxStream F =
      record (reading client_type t.stream_identifier
        (Field.uint k ∷ map field_of (map item_of vs))) { buffered_iterator = 1 } in
    let after : World F =
      quiet r (queued ++ wrapped ∷ []) (set delivered cli.response_data_stream front) guards in
    let below : cli.response_data_stream < length delivered = omega (
      arith,
      length-map streams (deliver packet client_type),
      get_elem?-below streams cli.response_data_stream
          (waiting client_type t.stream_identifier iterator) here,
    ) in
    let (w'', reads) =
      read_response-numbered s lang ms m old k client_type t.stream_identifier cli after resize ok
        shaped (get_elem?-set_self _ _ _ below) in
    let sends = send_response-sent s lang ms m ser number k w ok enabled small kept in
    let ready : Client.has_data s cli (sent s t (numbered s lang ms m k) w)
        ≡ Result.ok (true, after) =
      ap (λ n. stream_has_data s n cli.response_data_stream (sent s t (numbered s lang ms m k) w))
        waits
      ∙ has-numbered s t client_type vs wrapped r queued streams guards cli.response_data_stream
          iterator k codec (message-IsValue s.floats lang ms m ok) small some_number way here in
    (
      record ser {
        response_data_stream =
            write_values s.nanocbor (numbered s lang ms m k) (start_transmission s.nanocbor t);
      },
      sent s t (numbered s lang ms m k) w,
      w'',
      sends,
      rw (ready, reads) (ap (λ n. Result.ok ((m, n, true), w'')) waits),
    )

-- A service answers the request that it has taken last, whatever number the response is given:
-- a client that waits for another number takes no response, and its variables, the header and `taken`
-- among them, stay as they were. Conditions: the response is of its type, the service is enabled and
-- keeps the number of a request, the client waits for a number that is not 0 and not this one, the
-- packet is carried, the stream of the client listens for it and holds no packet, and nothing else has
-- been received.
pub rmw_take_response_misses :
    {F D : Type 0} (s : Setup F D) (lang : Language) (ms : Members) (m old : Memory F D ms)
    (cli : DesertClient) (ser : DesertService) (r : Receiver) (queued : List Bytes)
    (streams : List (RxStream F)) (guards : List Bool) (wrapped : Bytes) (k j iterator : ℕ)
    (number header : ℤ) (taken : Bool)
    → IsCodec s.nanocbor
    → IsMessage s.floats lang ms m
    → ser.id ≢ 0
    → j < 2 ^ 63
    → k ≢ 0
    → k ≢ j
    → ser.sequence_id ≡ pos j
    → cli.sequence_id ≡ pos k
    → IsCarried s ser.response_data_stream client_type (numbered s lang ms m j) wrapped
    → get_elem? streams cli.response_data_stream
      ≡ some (waiting client_type ser.response_data_stream.stream_identifier iterator)
    → (ser' : DesertService) × (w' : World F) × (w'' : World F) × (rmw_send_response s lang ms m
          number ser
          (quiet r queued streams guards)
        ≡ Result.ok ((pos j, ser'), w'))
      × (rmw_take_response s lang ms old header taken cli w'
          ≡ Result.ok ((old, header, taken), w''))
unfolding rmw_send_response rmw_take_response Client.has_data
rmw_take_response_misses s lang ms m old cli ser r queued streams guards wrapped k j iterator number
      header taken codec ok enabled small some_number other kept waits way here =
    let t = ser.response_data_stream in
    let w = quiet r queued streams guards in
    let (w'', none_there) =
      has-other s t client_type (message_values s.floats lang ms m) wrapped r queued streams guards
        cli.response_data_stream iterator k j codec (message-IsValue s.floats lang ms m ok) small
        some_number other way here in
    (
      record ser {
        response_data_stream =
            write_values s.nanocbor (numbered s lang ms m j) (start_transmission s.nanocbor t);
      },
      sent s t (numbered s lang ms m j) w,
      w'',
      send_response-sent s lang ms m ser number j w ok enabled small kept,
      rw (waits, none_there),
    )
