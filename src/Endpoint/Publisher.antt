-- ===== src/Endpoint/Publisher.antt =====
-- src/desert_classes/DesertPublisher.cpp. The type support that the constructor looks up is an argument
-- of `push`: the language it is for, and the members of the message type.
use Prim.Native.String.{String}
use rmw_desert.Prelude.{ℕ, false, [], ◌==◌, if◌then◌else◌}
use rmw_desert.Topics.{TopicsConfig, get_topic_identifier}
use rmw_desert.Cbor.Tx.{TxStream, start_transmission, end_transmission}
use rmw_desert.Cbor.Interpret.{publisher_type}
use rmw_desert.Message.{Language, Members, Result, ◌>>=◌, Memory}
use rmw_desert.Message.Whole.{serialize}
use rmw_desert.Endpoint.{Setup, World}

pub record DesertPublisher : Type 0 where
  pub id : ℕ
  pub data_stream : TxStream

unfoldable pub make : TopicsConfig → String → DesertPublisher
make topics topic_name = record {
  id = get_topic_identifier topics topic_name;
  data_stream = record {
    stream_type = publisher_type;
    stream_identifier = get_topic_identifier topics topic_name;
    overflow = false;
    packet = [];
  };
}

module _ {F D : Type 0} (s : Setup F D) where
  -- The identifier 0 is that of a topic which is disabled.
  unfoldable pub push :
      Language
      → (ms : Members) → Memory F D ms
      → DesertPublisher
      → World F
      → Result (DesertPublisher × World F)
  push lang ms msg p w =
      if p.id == 0
      then Result.ok (p, w)
      else serialize s.floats s.nanocbor lang ms msg (start_transmission s.nanocbor p.data_stream)
        >>= (λ t. Result.ok (
          record p { data_stream = t },
          record w { daemon = end_transmission s.wrap t w.daemon },
        ))
