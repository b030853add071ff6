-- ===== src/Tests/Endpoint.antt =====
-- The entry points of src/rmw.cpp in one process, with the codec and the messages of the tests.
use rmw_desert.Prelude.{ℕ, ◌≡◌, refl, true, false, some, none, List, [], ◌∷◌, map, arith, get_elem?}
use rmw_desert.Prelude.Int.{pos, negsuc}
use rmw_desert.Cbor.Tx.{TxStream}
use rmw_desert.Cbor.Tx.Whole.{encoded, message}
use rmw_desert.Cbor.Rx.{Field, RxStream, data_available}
use rmw_desert.Cbor.Interpret.{
  subscriber_type, client_type, service_type, stream_type_match, interpret_packets, interpret_loop,
}
use rmw_desert.Cbor.Interpret.Values.{item_of}
use rmw_desert.Cbor.Interpret.Exchange.{waiting, reading}
use rmw_desert.Message.{Language, Result, Memory}
use rmw_desert.Message.Values.{message_values, IsMessage}
use rmw_desert.Endpoint.{
  Setup, World, of_outcome, update_stream, on_stream, available, interpret, stream_has_data,
}
use rmw_desert.Endpoint.Publisher.{DesertPublisher}
use rmw_desert.Endpoint.Subscriber
use rmw_desert.Endpoint.Subscriber.{DesertSubscriber}
use rmw_desert.Endpoint.Client.{DesertClient}
use rmw_desert.Endpoint.Service.{DesertService}
use rmw_desert.Endpoint.Rmw.{
  rmw_publish, rmw_take, rmw_send_request, rmw_send_response, rmw_take_request, rmw_take_response,
  Entries, get_has_triggered, wait_loop, wait_for, no_events, rmw_wait,
}
use rmw_desert.Endpoint.Carried.{quiet, IsCarried}
use rmw_desert.Endpoint.Delivery.{rmw_take-rmw_publish}
use rmw_desert.Endpoint.Requests.{numbered, rmw_take_response_misses}
use rmw_desert.Endpoint.Waits.{buffers, rmw_wait_keeps}
use rmw_desert.Endpoint.Conversation.{call}
use rmw_desert.Tests.Codec.{codec, codec-IsCodec}
use rmw_desert.Tests.Exchange.{publisher, config, idle, nothing, three_named, publisher_known}
use rmw_desert.Tests.Message.{
  floats, resized, resized-IsResize, new_message, new_message-IsShaped, point,
}

abbrev pub setup : Setup Unit Unit
setup = record {
  floats = floats;
  nanocbor = codec;
  alias = nothing;
  resized = resized;
  topics = config;
  wrap = some;
  unwrap = some;
}

abbrev here : Memory Unit Unit point
here = (negsuc 6, (1 ∷ 2 ∷ [], tt))

here-IsMessage : IsMessage floats Language.cpp_members point here
here-IsMessage = (
  (tt, tt, (omega arith, tt)),
  (((refl, omega arith), tt, ((omega arith, tt), ((omega arith, tt), tt))), tt),
)

abbrev chatter_publisher : DesertPublisher
chatter_publisher = record { id = 3; data_stream = publisher }

-- The stream of a subscriber, and one for another topic in front of it.
abbrev listening : List (RxStream Unit)
listening = waiting 1 4 0 ∷ waiting 1 3 0 ∷ []

here-IsCarried :
    IsCarried setup publisher subscriber_type
      (message_values floats Language.cpp_members point here)
      (encoded codec (
        message codec publisher
          (map item_of (message_values floats Language.cpp_members point here))))
here-IsCarried = record {
  small_type = omega arith;
  small_identifier = omega arith;
  named = three_named;
  known = publisher_known;
  fits = omega arith;
  wraps = refl;
  unwraps = refl;
  some_bytes = omega arith;
}

rmw_take-rmw_publish_example :
    (p' : DesertPublisher) × (w' : World Unit) × (w'' : World Unit) × (rmw_publish setup
        Language.cpp_members point here chatter_publisher
        (quiet idle [] listening [])
      ≡ Result.ok (p', w'))
    × (rmw_take setup Language.cpp_members point
          (new_message point)
          false
          (record { id = 3; data_stream = 1 })
          w'
        ≡ Result.ok ((here, true), w''))
rmw_take-rmw_publish_example =
    rmw_take-rmw_publish setup Language.cpp_members point here (new_message point) chatter_publisher
      (record { id = 3; data_stream = 1 }) idle [] listening []
      (encoded codec (
        message codec publisher
          (map item_of (message_values floats Language.cpp_members point here))))
      0 false codec-IsCodec resized-IsResize here-IsMessage (new_message-IsShaped point)
      (λ e. omega arith) here-IsCarried refl

-- A client and a service of topic 3, whose streams are the first and the second.
abbrev asking : TxStream
asking = record { stream_type = 2; stream_identifier = 3; overflow = false; packet = [] }

abbrev answering : TxStream
answering = record { stream_type = 3; stream_identifier = 3; overflow = false; packet = [] }

abbrev client : DesertClient
client = record {
  id = 3;
  sequence_id = pos 0;
  request_data_stream = asking;
  response_data_stream = 0;
}

abbrev service : DesertService
service = record {
  id = 3;
  sequence_id = pos 0;
  request_data_stream = 1;
  response_data_stream = answering;
}

abbrev pair : List (RxStream Unit)
pair = waiting 2 3 0 ∷ waiting 3 3 0 ∷ []

asking_known : stream_type_match 2 ≡ some 3
unfolding stream_type_match
asking_known = refl

answering_known : stream_type_match 3 ≡ some 2
unfolding stream_type_match
answering_known = refl

abbrev carried_bytes : TxStream → ℕ → List ℕ
carried_bytes t k =
    encoded codec (message codec t (map item_of (numbered setup Language.cpp_members point here k)))

asking-IsCarried :
    IsCarried setup asking service_type
      (numbered setup Language.cpp_members point here 7)
      (carried_bytes asking 7)
asking-IsCarried = record {
  small_type = omega arith;
  small_identifier = omega arith;
  named = three_named;
  known = asking_known;
  fits = omega arith;
  wraps = refl;
  unwraps = refl;
  some_bytes = omega arith;
}

answering-IsCarried :
    IsCarried setup answering client_type
      (numbered setup Language.cpp_members point here 7)
      (carried_bytes answering 7)
answering-IsCarried = record {
  small_type = omega arith;
  small_identifier = omega arith;
  named = three_named;
  known = answering_known;
  fits = omega arith;
  wraps = refl;
  unwraps = refl;
  some_bytes = omega arith;
}

call_example :
    (cli' : DesertClient) × (ser' : DesertService) × (ser'' : DesertService) × (w₁ : World Unit)
    × (w₂ : World Unit) × (w₃ : World Unit) × (w₄ : World Unit) × (rmw_send_request setup
          Language.cpp_members point here 4007 client
          (quiet idle [] pair [])
        ≡ Result.ok ((pos 7, cli'), w₁))
    × (rmw_take_request setup Language.cpp_members point
          (new_message point)
          (pos 0)
          false
          service
          w₁
        ≡ Result.ok ((here, pos 7, true, ser'), w₂))
    × (rmw_send_response setup Language.cpp_members point here (pos 1) ser' w₂
        ≡ Result.ok ((pos 7, ser''), w₃))
    × (rmw_take_response setup Language.cpp_members point (new_message point) (pos 0) false cli' w₃
        ≡ Result.ok ((here, pos 7, true), w₄))
call_example =
    call setup Language.cpp_members point point here (new_message point) here (new_message point)
      client service idle [] pair [] (carried_bytes asking 7) (carried_bytes answering 7) 4007 0 0
      (pos 0) (pos 1) (pos 0) false false codec-IsCodec resized-IsResize here-IsMessage
      (new_message-IsShaped point) here-IsMessage (new_message-IsShaped point) (λ e. omega arith)
      (λ e. omega arith) (λ e. omega arith) asking-IsCarried answering-IsCarried (λ e. omega arith)
      refl refl

-- The client waits for 5, and the service has taken 7 last.
rmw_take_response_misses_example :
    (ser' : DesertService) × (w' : World Unit) × (w'' : World Unit) × (rmw_send_response setup
        Language.cpp_members point here
        (pos 5)
        (record service { sequence_id = pos 7 })
        (quiet idle [] pair [])
      ≡ Result.ok ((pos 7, ser'), w'))
    × (rmw_take_response setup Language.cpp_members point
          (new_message point)
          (pos 0)
          false
          (record client { sequence_id = pos 5 })
          w'
        ≡ Result.ok ((new_message point, pos 0, false), w''))
rmw_take_response_misses_example =
    rmw_take_response_misses setup Language.cpp_members point here (new_message point)
      (record client { sequence_id = pos 5 }) (record service { sequence_id = pos 7 }) idle [] pair
      [] (carried_bytes answering 7) 5 7 0 (pos 5) (pos 0) false codec-IsCodec here-IsMessage
      (λ e. omega arith) (omega arith) (λ e. omega arith) (λ e. omega arith) refl refl
      answering-IsCarried refl

-- A wait for the subscriber of topic 3, which has a packet, and for a guard condition that was not
-- triggered.
abbrev holding : World Unit
holding = quiet idle [] (waiting 1 4 0 ∷ reading 1 3 (Field.uint 9 ∷ []) ∷ []) (false ∷ [])

abbrev asked : Entries
asked = record {
  subscriptions =
      some (
        some (record { id = 4; data_stream = 0 }) ∷ some (record { id = 3; data_stream = 1 }) ∷ []);
  clients = none;
  services = none;
  guard_conditions = some (some 0 ∷ []);
  events = none;
}

abbrev ready : Entries
ready = record asked {
  subscriptions = some (none ∷ some (record { id = 3; data_stream = 1 }) ∷ []);
  guard_conditions = some (none ∷ []);
}

rmw_wait-asked : rmw_wait setup asked holding ≡ Result.ok (ready, holding)
unfolding rmw_wait wait_for wait_loop Subscriber.has_data stream_has_data interpret of_outcome
    interpret_packets interpret_loop on_stream update_stream available data_available
    get_has_triggered no_events
rmw_wait-asked = refl

rmw_wait_keeps_example : get_elem? (buffers (holding.streams)) 1 ≡ some (Field.uint 9 ∷ [])
rmw_wait_keeps_example =
    rmw_wait_keeps setup asked ready holding holding 1 (Field.uint 9) [] rmw_wait-asked refl
