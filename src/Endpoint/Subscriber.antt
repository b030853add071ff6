-- ===== src/Endpoint/Subscriber.antt =====
-- src/desert_classes/DesertSubscriber.cpp
use rmw_desert.Prelude.{ℕ, Bool}
use rmw_desert.Prelude.Int.{pos}
use rmw_desert.Cbor.Rx.{clear_buffer}
use rmw_desert.Message.{Language, Members, Result, ◌>>=◌, Memory}
use rmw_desert.Message.Whole.{deserialize}
use rmw_desert.Endpoint.{Setup, World, on_stream, stream_has_data}

pub record DesertSubscriber : Type 0 where
  pub id : ℕ
  pub data_stream : ℕ

module _ {F D : Type 0} (s : Setup F D) where
  unfoldable pub has_data : DesertSubscriber → World F → Result (Bool × World F)
  has_data sub w = stream_has_data s (pos 0) sub.data_stream w

  unfoldable pub read_data :
      Language
      → (ms : Members) → Memory F D ms
      → DesertSubscriber
      → World F
      → Result (Memory F D ms × World F)
  read_data lang ms msg sub w =
      on_stream sub.data_stream
        (λ r.
          deserialize s.floats s.resized lang ms msg r >>= (λ p. Result.ok (p.0, clear_buffer p.1)))
        w
