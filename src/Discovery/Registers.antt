-- ===== src/Discovery/Registers.antt =====
-- A beacon of src/desert_classes/Discovery.cpp from `send_discovery_beacon` to the graph of the process
-- that receives it.
use mathlib.Core.List.{append-nil}
use rmw_desert.Prelude.{
  ℕ, ◌^◌, ◌<◌, ◌≡◌, refl, sym, Bool, false, some, List, [], ◌∷◌, ◌++◌, map, arith, ltb, get_elem?,
  set, get_elem?-set_self, get_elem?-below, length-map, length,
}
use rmw_desert.Tcp.{Bytes, Receiver}
use rmw_desert.Cbor.{IsCodec}
use rmw_desert.Cbor.Tx.{TxStream}
use rmw_desert.Cbor.Rx.{RxStream, clear_buffer}
use rmw_desert.Cbor.Interpret.{subscriber_type, field_of}
use rmw_desert.Cbor.Interpret.Fields.{deliver}
use rmw_desert.Cbor.Interpret.Values.{item_of}
use rmw_desert.Cbor.Interpret.Exchange.{waiting, reading}
use rmw_desert.Message.{Result, ◌>>=◌}
use rmw_desert.Message.Reads.{moved}
use rmw_desert.Message.Writes.{take-length}
use rmw_desert.Endpoint.{Setup, World, on_stream}
use rmw_desert.Endpoint.Carried.{quiet, packet_of, IsCarried, on_stream-found, has-sent}
use rmw_desert.Discovery.{
  EntityBeacon, GraphCache, send_discovery_beacon, read_beacon, copy_gid, discovery_round,
}
use rmw_desert.Discovery.Fields.{
  beacon_values, IsBeacon, send_discovery_beacon-values, read_beacon-Gives, beacon_values-IsValue,
}
use rmw_desert.Discovery.Nodes.{graph_described, register-described}

-- The process once the beacon is sent, its stream being `t`.
abbrev pub announced : {F D : Type 0} → Setup F D → TxStream → EntityBeacon → World F → World F
announced s t b w = record w { daemon = send_discovery_beacon s.nanocbor s.wrap t b w.daemon }

take-whole : (n : ℕ) (gid : List ℕ) → length gid ≡ n → copy_gid n gid ≡ Result.ok gid
unfolding copy_gid
take-whole n gid size =
    let enough : ltb (length gid) n ≡ false = ground (arith, size) in
    rw (enough, take-length n gid size)

module _ {F D : Type 0} (s : Setup F D) where
  read-reading :
      (size : ℕ) (b : EntityBeacon) (w : World F) (i type identifier : ℕ)
      → IsBeacon size b
      → get_elem? w.streams i
        ≡ some (reading type identifier (map field_of (map item_of (beacon_values b))))
      → (w' : World F) × (on_stream i
            (λ r. read_beacon s.floats r >>= (λ q. Result.ok (q.0, clear_buffer q.1)))
            w
          ≡ Result.ok (b, w'))
  unfolding clear_buffer
  read-reading size b w i type identifier ok here =
      let fields = map field_of (map item_of (beacon_values b)) in
      let (k, gives, end) =
        read_beacon-Gives s.floats size b ok (reading type identifier fields) []
          (sym (append-nil fields)) in
      (
        record w {
          streams = set w.streams i (clear_buffer (moved (reading type identifier fields) k));
        },
        on_stream-found i (λ r. read_beacon s.floats r >>= (λ q. Result.ok (q.0, clear_buffer q.1)))
            w (reading type identifier fields)
            (clear_buffer (moved (reading type identifier fields) k)) b here (rw gives) refl,
      )

-- A beacon that is sent is registered by the next round of the discovery thread, which neither throws
-- nor does what is undefined. The graph is given the beacon's node with the identifier of the entity,
-- if it arrives, and all those that the graph has for the endpoints of this node but, if the entity
-- leaves, its own; then the entity is removed, or added under its type and topic, as a reader exactly
-- if it is a subscriber. Conditions: the beacon is of its C++ types and its identifier is whole, its
-- packet fits, is matched and named and comes back from the security layer, the thread's stream is
-- among those that listen, for that type and identifier, and holds no packet, and nothing else has
-- been received.
pub discovery_round-beacon :
    {F D G : Type 0} (s : Setup F D) (cache : GraphCache G) (g : G) (t : TxStream)
    (b : EntityBeacon) (r : Receiver) (queued : List Bytes) (streams : List (RxStream F))
    (guards : List Bool) (wrapped : Bytes) (i iterator : ℕ)
    → IsCodec s.nanocbor
    → IsBeacon cache.gid_storage_size b
    → IsCarried s t subscriber_type (beacon_values b) wrapped
    → get_elem? streams i ≡ some (waiting subscriber_type t.stream_identifier iterator)
    → (w' : World F) × (discovery_round cache s i
          (announced s t b (quiet r queued streams guards))
          g
        ≡ Result.ok (w', graph_described cache b b.entity_gid g))
unfolding discovery_round
discovery_round-beacon {F} s cache g t b r queued streams guards wrapped i iterator codec ok way
      here =
    let vs = beacon_values b in
    let streams' = map (deliver (packet_of s t vs) subscriber_type) streams in
    let after : World F =
      quiet r (queued ++ wrapped ∷ [])
        (set streams' i
          (reading subscriber_type t.stream_identifier (map field_of (map item_of vs))))
        guards in
    let below : i < length streams' = omega (
      arith,
      length-map streams (deliver (packet_of s t vs) subscriber_type),
      get_elem?-below streams i (waiting subscriber_type t.stream_identifier iterator) here,
    ) in
    let small : length b.entity_gid < 2 ^ 32 = omega (arith, ok.gid_whole, ok.size_fits) in
    let (w', reads) =
      read-reading s cache.gid_storage_size b after i subscriber_type t.stream_identifier ok
        (get_elem?-set_self _ _ _ below) in
    (
      w',
      rw (
        send_discovery_beacon-values s.nanocbor s.wrap t b (quiet r queued streams guards).daemon
            small,
        has-sent s t subscriber_type vs wrapped r queued streams guards i iterator codec
            (beacon_values-IsValue F cache.gid_storage_size b ok) way here,
        reads,
        take-whole cache.gid_storage_size b.entity_gid ok.gid_whole,
        register-described cache b b.entity_gid g,
      ),
    )
