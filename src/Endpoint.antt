-- ===== src/Endpoint.antt =====
-- src/desert_classes/DesertPublisher.cpp, DesertSubscriber.cpp, DesertClient.cpp and DesertService.cpp:
-- the endpoints of a process, which share the daemon and the list of listening streams.
pub mod Publisher
pub mod Subscriber
pub mod Client
pub mod Service
pub mod Rmw
pub mod Carried
pub mod Delivery
pub mod Requests
pub mod Conversation
pub mod Waits
use rmw_desert.Prelude.{if◌then◌else◌, ℕ, Bool, Option, none, some, List, get_elem?, set}
use rmw_desert.Prelude.Int.{ℤ}
use rmw_desert.Tcp.{Bytes, Daemon}
use rmw_desert.Topics.{TopicsConfig}
use rmw_desert.Cbor.{Nanocbor}
use rmw_desert.Cbor.Rx.{Field, Lookup, RxStream, data_available}
use rmw_desert.Cbor.Interpret.{Outcome, interpret_packets}
use rmw_desert.Message.{Members, Result, ◌>>=◌, Memory}
use rmw_desert.Message.Fields.{Floats}

-- What the process runs with: the machine's floats, the libraries, the generated code, the topics that
-- are configured and the security layer.
pub record Setup (F D : Type 0) : Type 0 where
  pub floats : Floats F D
  pub nanocbor : Nanocbor F
  pub alias : Field F → ℤ
  pub resized : (ms : Members) → ℕ → List (Memory F D ms)
  pub topics : TopicsConfig
  pub wrap : Bytes → Option Bytes
  pub unwrap : Bytes → Option Bytes

-- The daemon's queues, `_listening_streams`, and the flags of the guard conditions. An endpoint names
-- its stream by the place in the list.
pub record World (F : Type 0) : Type 0 where
  pub daemon : Daemon
  pub streams : List (RxStream F)
  pub guards : List Bool

unfoldable pub of_outcome : {A : Type 0} → Outcome A → Result A
of_outcome (Outcome.done a) = Result.ok a
of_outcome Outcome.out_of_range = Result.throws
of_outcome Outcome.endless = Result.endless

-- What an operation does to the stream of an endpoint, with the stream where it is found; it is
-- undefined where a read was behind the end of the packet.
unfoldable pub update_stream :
    {F A : Type 0}
    → ℕ
    → World F
    → Option (RxStream F)
    → (RxStream F → Result (A × RxStream F))
    → Result (A × World F)
update_stream i w none act = Result.undefined
update_stream i w (some r) act = act r >>= (λ p.
    if p.1.overrun
    then Result.undefined
    else Result.ok (p.0, record w { streams = set w.streams i p.1 }))

unfoldable pub on_stream :
    {F A : Type 0} → ℕ → (RxStream F → Result (A × RxStream F)) → World F → Result (A × World F)
on_stream i act w = update_stream i w (get_elem? w.streams i) act

unfoldable pub available : {F : Type 0} → Lookup (Bool × RxStream F) → Result (Bool × RxStream F)
available (Lookup.returns p) = Result.ok p
available Lookup.out_of_range = Result.throws
available Lookup.undefined = Result.undefined

module _ {F D : Type 0} (s : Setup F D) where
  -- `cbor::RxStream::interpret_packets()`
  unfoldable pub interpret : World F → Result (World F)
  interpret w =
      of_outcome (interpret_packets s.nanocbor s.topics s.unwrap w.daemon w.streams)
      >>= (λ p. Result.ok (record w { daemon = p.0; streams = p.1 }))

  -- The body of the three `has_data`.
  unfoldable pub stream_has_data : ℤ → ℕ → World F → Result (Bool × World F)
  stream_has_data sequence_id i w =
      interpret w >>= (λ w'. on_stream i (λ r. available (data_available s.alias sequence_id r)) w')
