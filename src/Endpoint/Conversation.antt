-- ===== src/Endpoint/Conversation.antt =====
-- A call of a service, src/rmw.cpp, from the request of a client to the response that it takes.
use rmw_desert.Prelude.{
  ℕ, ◌%◌, ◌^◌, ◌<◌, ◌≡◌, ◌≢◌, refl, ap, ◌∙◌, Bool, true, some, List, [], ◌∷◌, ◌++◌, map, arith,
  get_elem?, get_elem?-set_ne, get_elem?-map, set,
}
use rmw_desert.Prelude.Int.{ℤ, pos}
use rmw_desert.Tcp.{Bytes, Receiver}
use rmw_desert.Cbor.{IsCodec}
use rmw_desert.Cbor.Rx.{RxStream}
use rmw_desert.Cbor.Interpret.{client_type, service_type, field_of}
use rmw_desert.Cbor.Interpret.Fields.{deliver}
use rmw_desert.Cbor.Interpret.Values.{item_of}
use rmw_desert.Cbor.Interpret.Exchange.{waiting, reading}
use rmw_desert.Message.{Language, Members, Result, Memory}
use rmw_desert.Message.Values.{IsMessage, IsShaped, IsResize}
use rmw_desert.Endpoint.{Setup, World}
use rmw_desert.Endpoint.Client.{DesertClient}
use rmw_desert.Endpoint.Service.{DesertService}
use rmw_desert.Endpoint.Rmw.{
  rmw_send_request, rmw_send_response, rmw_take_request, rmw_take_response,
}
use rmw_desert.Endpoint.Carried.{quiet, packet_of, IsCarried}
use rmw_desert.Endpoint.Requests.{
  numbered, rmw_take_request-rmw_send_request, rmw_take_response-rmw_send_response,
}

-- A call of a service of the same process: the service takes the request of the client, with its
-- number, and the client then takes the response of the service, with the same number; no call throws,
-- and `taken` is set both times, whatever number the header of the response carries. Conditions:
-- request and response come back from the stream, the memory of each reader has its arrays at their
-- size, both endpoints are enabled, the random number is not a multiple of 1000, both packets are
-- carried, each stream listens for the other endpoint's packets, is not the other one's stream and
-- holds no packet, and nothing else is received or sent.
pub call :
    {F D : Type 0} (s : Setup F D) (lang : Language) (asked answered : Members)
    (req old_req : Memory F D asked) (res old_res : Memory F D answered) (cli : DesertClient)
    (ser : DesertService) (r : Receiver) (queued : List Bytes) (streams : List (RxStream F))
    (guards : List Bool) (wrapped_req wrapped_res : Bytes) (random it_cli it_ser : ℕ)
    (header number header' : ℤ) (taken taken' : Bool)
    → IsCodec s.nanocbor
    → IsResize s.floats s.resized
    → IsMessage s.floats lang asked req
    → IsShaped s.floats asked old_req
    → IsMessage s.floats lang answered res
    → IsShaped s.floats answered old_res
    → cli.id ≢ 0
    → ser.id ≢ 0
    → random % 1000 ≢ 0
    → IsCarried s cli.request_data_stream service_type
        (numbered s lang asked req (random % 1000))
        wrapped_req
    → IsCarried s ser.response_data_stream client_type
        (numbered s lang answered res (random % 1000))
        wrapped_res
    → ser.request_data_stream ≢ cli.response_data_stream
    → get_elem? streams ser.request_data_stream
      ≡ some (waiting service_type cli.request_data_stream.stream_identifier it_ser)
    → get_elem? streams cli.response_data_stream
      ≡ some (waiting client_type ser.response_data_stream.stream_identifier it_cli)
    → (cli' : DesertClient) × (ser' : DesertService) × (ser'' : DesertService) × (w₁ : World F)
      × (w₂ : World F) × (w₃ : World F) × (w₄ : World F) × (rmw_send_request s lang asked req random
            cli
            (quiet r queued streams guards)
          ≡ Result.ok ((pos (random % 1000), cli'), w₁))
      × (rmw_take_request s lang asked old_req header taken ser w₁
          ≡ Result.ok ((req, pos (random % 1000), true, ser'), w₂))
      × (rmw_send_response s lang answered res number ser' w₂
          ≡ Result.ok ((pos (random % 1000), ser''), w₃))
      × (rmw_take_response s lang answered old_res header' taken' cli' w₃
          ≡ Result.ok ((res, pos (random % 1000), true), w₄))
call {F} s lang asked answered req old_req res old_res cli ser r queued streams guards wrapped_req
      wrapped_res random it_cli it_ser header number header' taken taken' codec resize req_ok
      req_shaped res_ok res_shaped cli_on ser_on some_number req_way res_way apart ser_here
      cli_here =
    let k = random % 1000 in
    let small : k < 2 ^ 63 = omega arith in
    let identifier = cli.request_data_stream.stream_identifier in
    let packet = packet_of s cli.request_data_stream (numbered s lang asked req k) in
    let (cli', at, w₁, sends, waits, own, takes) =
      rmw_take_request-rmw_send_request s lang asked req old_req cli ser r queued streams guards
        wrapped_req random it_ser header taken codec resize req_ok req_shaped cli_on req_way
        ser_here in
    let delivered = map (deliver packet service_type) streams in
    let buffered =
      reading service_type identifier (map field_of (map item_of (numbered s lang asked req k))) in
    let streams' : List (RxStream F) =
      set (set delivered ser.request_data_stream buffered) ser.request_data_stream
        (waiting service_type identifier at) in
    let still : get_elem? streams' cli'.response_data_stream
        ≡ some (waiting client_type ser.response_data_stream.stream_identifier it_cli) =
      ap (get_elem? streams') own
      ∙ get_elem?-set_ne (set delivered ser.request_data_stream buffered)
          (waiting service_type identifier at) apart
      ∙ get_elem?-set_ne delivered buffered apart
      ∙ get_elem?-map (deliver packet service_type) streams cli.response_data_stream
          (waiting client_type ser.response_data_stream.stream_identifier it_cli) cli_here in
    let ser' = record ser { sequence_id = pos k } in
    let (ser'', w₃, w₄, answers, gets) =
      rmw_take_response-rmw_send_response s lang answered res old_res cli' ser' r
        (queued ++ wrapped_req ∷ []) streams' guards wrapped_res k it_cli number header' taken'
        codec resize res_ok res_shaped ser_on small some_number refl waits res_way still in
    (
      cli',
      ser',
      ser'',
      w₁,
      quiet r (queued ++ wrapped_req ∷ []) streams' guards,
      w₃,
      w₄,
      sends,
      takes,
      answers,
      gets,
    )
