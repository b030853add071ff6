-- ===== src/Endpoint/Client.antt =====
-- src/desert_classes/DesertClient.cpp
use rmw_desert.Prelude.{ℕ, Bool, ◌==◌, if◌then◌else◌}
use rmw_desert.Prelude.Int.{ℤ, pattern_of}
use rmw_desert.Cbor.Tx.{TxStream, start_transmission_sequence, end_transmission}
use rmw_desert.Cbor.Rx.{clear_buffer}
use rmw_desert.Message.{Language, Members, Result, ◌>>=◌, Memory}
use rmw_desert.Message.Whole.{serialize, deserialize}
use rmw_desert.Endpoint.{Setup, World, on_stream, stream_has_data}

pub record DesertClient : Type 0 where
  pub id : ℕ
  pub sequence_id : ℤ
  pub request_data_stream : TxStream
  pub response_data_stream : ℕ

module _ {F D : Type 0} (s : Setup F D) where
  unfoldable pub has_data : DesertClient → World F → Result (Bool × World F)
  has_data cli w = stream_has_data s cli.sequence_id cli.response_data_stream w

  -- The response and the sequence number that the header is given.
  unfoldable pub read_response :
      Language
      → (ms : Members) → Memory F D ms
      → DesertClient
      → World F
      → Result ((Memory F D ms × ℤ) × World F)
  read_response lang ms res cli w =
      on_stream cli.response_data_stream
        (λ r.
          deserialize s.floats s.resized lang ms res r
          >>= (λ p. Result.ok ((p.0, cli.sequence_id), clear_buffer p.1)))
        w

  -- The identifier 0 is that of a service which is disabled.
  unfoldable pub send_request :
      Language
      → (ms : Members) → Memory F D ms
      → ℤ
      → DesertClient
      → World F
      → Result (DesertClient × World F)
  send_request lang ms req sequence_id cli w =
      if cli.id == 0
      then Result.ok (cli, w)
      else serialize s.floats s.nanocbor lang ms req (
          start_transmission_sequence s.nanocbor (pattern_of 64 sequence_id)
            cli.request_data_stream)
        >>= (λ t. Result.ok (
          record cli { sequence_id = sequence_id; request_data_stream = t },
          record w { daemon = end_transmission s.wrap t w.daemon },
        ))
