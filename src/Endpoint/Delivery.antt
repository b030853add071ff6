-- ===== src/Endpoint/Delivery.antt =====
-- Messages from `rmw_publish` to `rmw_take`, src/rmw.cpp, within one process.
use mathlib.Core.List.{append-nil}
use rmw_desert.Prelude.{
  ℕ, ◌<◌, ◌≡◌, refl, ◌≢◌, sym, Bool, true, false, some, List, [], ◌∷◌, ◌++◌, map, arith, ◌==◌,
  get_elem?, set, get_elem?-set_self, get_elem?-below, length-map, length,
}
use rmw_desert.Tcp.{Bytes, Receiver}
use rmw_desert.Cbor.{IsCodec}
use rmw_desert.Cbor.Tx.{start_transmission}
use rmw_desert.Cbor.Rx.{RxStream, clear_buffer}
use rmw_desert.Cbor.Interpret.{subscriber_type, field_of}
use rmw_desert.Cbor.Interpret.Fields.{deliver}
use rmw_desert.Cbor.Interpret.Values.{item_of}
use rmw_desert.Cbor.Interpret.Reads.{write_values}
use rmw_desert.Cbor.Interpret.Exchange.{waiting, reading}
use rmw_desert.Message.{Language, Members, Result, ◌>>=◌, Memory}
use rmw_desert.Message.Whole.{deserialize}
use rmw_desert.Message.Values.{message_values, IsMessage, IsShaped, IsResize}
use rmw_desert.Message.Writes.{serialize-values}
use rmw_desert.Message.Typed.{message-IsValue}
use rmw_desert.Message.Reads.{moved}
use rmw_desert.Message.RoundTrip.{deserialize-Gives}
use rmw_desert.Endpoint.{Setup, World}
use rmw_desert.Endpoint.Publisher.{DesertPublisher, push}
use rmw_desert.Endpoint.Subscriber.{DesertSubscriber, has_data, read_data}
use rmw_desert.Endpoint.Rmw.{rmw_publish, rmw_take}
use rmw_desert.Endpoint.Carried.{quiet, packet_of, sent, IsCarried, on_stream-found, has-sent}

module _ {F D : Type 0} (s : Setup F D) (lang : Language) (ms : Members) (m : Memory F D ms) where
  push-sent :
      (p : DesertPublisher) (w : World F)
      → IsMessage s.floats lang ms m
      → p.id ≢ 0
      → push s lang ms m p w
        ≡ Result.ok (
          record p {
            data_stream =
                write_values s.nanocbor
                  (message_values s.floats lang ms m)
                  (start_transmission s.nanocbor p.data_stream);
          },
          sent s p.data_stream (message_values s.floats lang ms m) w,
        )
  unfolding push
  push-sent p w ok enabled =
      let on : (p.id == 0) ≡ false = ground arith in
      rw (
        on,
        serialize-values s.floats s.nanocbor lang ms m (start_transmission s.nanocbor p.data_stream)
            ok,
      )

  read-reading :
      (old : Memory F D ms) (sub : DesertSubscriber) (w : World F) (type identifier : ℕ)
      → IsResize s.floats s.resized
      → IsMessage s.floats lang ms m
      → IsShaped s.floats ms old
      → get_elem? w.streams sub.data_stream
        ≡ some (
            reading type identifier
              (map field_of (map item_of (message_values s.floats lang ms m))))
      → (w' : World F) × (read_data s lang ms old sub w ≡ Result.ok (m, w'))
  unfolding read_data clear_buffer
  read-reading old sub w type identifier resize ok shaped here =
      let fields = map field_of (map item_of (message_values s.floats lang ms m)) in
      let (k, gives, end) =
        deserialize-Gives s.floats s.resized resize lang ms m old ok shaped
          (reading type identifier fields) [] (sym (append-nil fields)) in
      (
        record w {
          streams =
              set w.streams sub.data_stream
                (clear_buffer (moved (reading type identifier fields) k));
        },
        on_stream-found sub.data_stream
            (λ r.
              deserialize s.floats s.resized lang ms old r
              >>= (λ p. Result.ok (p.0, clear_buffer p.1)))
            w (reading type identifier fields)
            (clear_buffer (moved (reading type identifier fields) k)) m here (rw gives) refl,
      )

-- A message that is published is the message that `rmw_take` puts into the memory of a subscriber of
-- the same process, and `taken` is set; no call throws. Conditions: the message comes back from the
-- stream, as for a single packet (each value of its type, arrays at their size, no text for C with a
-- zero, no `bool` in a sequence for C++, no octet), the reader's memory has its arrays at their size,
-- the publisher's topic is enabled, its packet fits, is matched and named and comes back from the
-- security layer, the subscriber's stream is among those that listen, for that type and identifier, and
-- holds no packet, and nothing else has been received.
pub rmw_take-rmw_publish :
    {F D : Type 0} (s : Setup F D) (lang : Language) (ms : Members) (m old : Memory F D ms)
    (p : DesertPublisher) (sub : DesertSubscriber) (r : Receiver) (queued : List Bytes)
    (streams : List (RxStream F)) (guards : List Bool) (wrapped : Bytes) (iterator : ℕ)
    (taken : Bool)
    → IsCodec s.nanocbor
    → IsResize s.floats s.resized
    → IsMessage s.floats lang ms m
    → IsShaped s.floats ms old
    → p.id ≢ 0
    → IsCarried s p.data_stream subscriber_type (message_values s.floats lang ms m) wrapped
    → get_elem? streams sub.data_stream
      ≡ some (waiting subscriber_type p.data_stream.stream_identifier iterator)
    → (p' : DesertPublisher) × (w' : World F) × (w'' : World F) × (rmw_publish s lang ms m p
          (quiet r queued streams guards)
        ≡ Result.ok (p', w'))
      × (rmw_take s lang ms old taken sub w' ≡ Result.ok ((m, true), w''))
unfolding rmw_publish rmw_take has_data
rmw_take-rmw_publish {F} s lang ms m old p sub r queued streams guards wrapped iterator taken codec
      resize ok shaped enabled way here =
    let vs = message_values s.floats lang ms m in
    let w = quiet r queued streams guards in
    let after : World F =
      quiet r (queued ++ wrapped ∷ [])
        (set (map (deliver (packet_of s p.data_stream vs) subscriber_type) streams) sub.data_stream
          (reading subscriber_type p.data_stream.stream_identifier (map field_of (map item_of vs))))
        guards in
    let below : sub.data_stream
        < length (map (deliver (packet_of s p.data_stream vs) subscriber_type) streams) =
      omega (
        arith,
        length-map streams (deliver (packet_of s p.data_stream vs) subscriber_type),
        get_elem?-below streams sub.data_stream
            (waiting subscriber_type p.data_stream.stream_identifier iterator) here,
      ) in
    let (w'', reads) =
      read-reading s lang ms m old sub after subscriber_type p.data_stream.stream_identifier resize
        ok shaped (get_elem?-set_self _ _ _ below) in
    (
      record p {
        data_stream = write_values s.nanocbor vs (start_transmission s.nanocbor p.data_stream);
      },
      sent s p.data_stream vs w,
      w'',
      push-sent s lang ms m p w ok enabled,
      rw (
        has-sent s p.data_stream subscriber_type vs wrapped r queued streams guards sub.data_stream
            iterator codec (message-IsValue s.floats lang ms m ok) way here,
        reads,
      ),
    )
