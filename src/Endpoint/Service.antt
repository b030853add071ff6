-- ===== src/Endpoint/Service.antt =====
-- src/desert_classes/DesertService.cpp
use rmw_desert.Prelude.{ℕ, Bool, ◌==◌, if◌then◌else◌}
use rmw_desert.Prelude.Int.{ℤ, pos, pattern_of}
use rmw_desert.Cbor.Tx.{TxStream, start_transmission_sequence, end_transmission}
use rmw_desert.Cbor.Rx.{RxStream, read_int64, clear_buffer}
use rmw_desert.Message.{Language, Members, Result, ◌>>=◌, Memory}
use rmw_desert.Message.Fields.{assigned}
use rmw_desert.Message.Whole.{serialize, deserialize}
use rmw_desert.Endpoint.{Setup, World, on_stream, stream_has_data}

pub record DesertService : Type 0 where
  pub id : ℕ
  pub sequence_id : ℤ
  pub request_data_stream : ℕ
  pub response_data_stream : TxStream

module _ {F D : Type 0} (s : Setup F D) where
  unfoldable pub has_data : DesertService → World F → Result (Bool × World F)
  has_data ser w = stream_has_data s (pos 0) ser.request_data_stream w

  -- `_request_data_stream >> _sequence_id`, then the request.
  unfoldable pub take_fields :
      Language
      → (ms : Members) → Memory F D ms
      → ℤ
      → RxStream F
      → Result ((Memory F D ms × ℤ) × RxStream F)
  take_fields lang ms req old r =
      let (sequence_id, r') = assigned old (read_int64 r) in
      deserialize s.floats s.resized lang ms req r'
      >>= (λ p. Result.ok ((p.0, sequence_id), clear_buffer p.1))

  -- The request, the sequence number that the header is given, and the service, which keeps it.
  unfoldable pub read_request :
      Language
      → (ms : Members) → Memory F D ms
      → DesertService
      → World F
      → Result ((Memory F D ms × ℤ × DesertService) × World F)
  read_request lang ms req ser w =
      on_stream ser.request_data_stream (take_fields lang ms req ser.sequence_id) w
      >>= (λ p. Result.ok ((p.0.0, p.0.1, record ser { sequence_id = p.0.1 }), p.1))

  -- The sequence number of the header is overwritten, and is part of the result.
  unfoldable pub send_response :
      Language
      → (ms : Members) → Memory F D ms
      → ℤ
      → DesertService
      → World F
      → Result ((ℤ × DesertService) × World F)
  send_response lang ms res sequence_number ser w =
      if ser.id == 0
      then Result.ok ((sequence_number, ser), w)
      else serialize s.floats s.nanocbor lang ms res (
          start_transmission_sequence s.nanocbor (pattern_of 64 ser.sequence_id)
            ser.response_data_stream)
        >>= (λ t. Result.ok (
          (ser.sequence_id, record ser { response_data_stream = t }),
          record w { daemon = end_transmission s.wrap t w.daemon },
        ))
