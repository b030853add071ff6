-- ===== src/Discovery.antt =====
-- src/desert_classes/Discovery.cpp: the beacons on the wire, and the thread that registers them in the
-- graph. `GraphCache` of rmw_dds_common is not part of the repository: it is a parameter.
pub mod Text
pub mod Demangle
pub mod Thread
pub mod Fields
pub mod Nodes
pub mod Registers
pub mod Queries
use rmw_desert.Prelude.{
  ℕ, Bool, true, false, not, ◌&&◌, ◌||◌, Option, none, some, List, [], ◌∷◌, ◌++◌, ltb,
  if◌then◌else◌, length, take,
}
use rmw_desert.Prelude.Int.{ℤ, pos}
use rmw_desert.Tcp.{Bytes, Daemon}
use rmw_desert.Cbor.{Nanocbor}
use rmw_desert.Cbor.Tx.{
  TxStream, write_string, write_int32, write_uint8, write_bool, write_vector, start_transmission,
  end_transmission,
}
use rmw_desert.Cbor.Rx.{RxStream, read_string, read_int32, read_bool, clear_buffer, same}
use rmw_desert.Cbor.Interpret.{subscriber_type}
use rmw_desert.Message.{Scalar, Result, ◌>>=◌}
use rmw_desert.Message.Fields.{Floats, assigned, read_vector}
use rmw_desert.Discovery.Text.{equal, to_string}
use rmw_desert.Endpoint.{Setup, World, on_stream, stream_has_data}

-- The arguments of `send_discovery_beacon`, and the variables that the thread reads a beacon into.
pub record EntityBeacon : Type 0 where
  pub node_name : List ℕ
  pub node_namespace : List ℕ
  pub entity_type : ℤ
  pub entity_gid : List ℕ
  pub topic_name : List ℕ
  pub type_name : List ℕ
  pub disconnect : Bool

unfoldable pub send_discovery_beacon :
    {F : Type 0} → Nanocbor F → (Bytes → Option Bytes) → TxStream → EntityBeacon → Daemon → Daemon
send_discovery_beacon c wrap stream b d =
    let names =
      write_string c b.node_namespace (write_string c b.node_name (start_transmission c stream)) in
    let entity = write_vector c (write_uint8 c) b.entity_gid (write_int32 c b.entity_type names) in
    end_transmission wrap
      (write_bool c b.disconnect (write_string c b.type_name (write_string c b.topic_name entity)))
      d

unfoldable pub send_discovery_request :
    {F : Type 0} → Nanocbor F → (Bytes → Option Bytes) → TxStream → Daemon → Daemon
send_discovery_request c wrap stream d = end_transmission wrap (start_transmission c stream) d

-- A use of `entity_type` or `disconnect` where the stream has not assigned it is undefined.
unfoldable pub settle : Option ℤ → Option Bool → (ℤ → Bool → EntityBeacon) → Result EntityBeacon
settle none disconnect beacon = Result.undefined
settle (some entity_type) none beacon = Result.undefined
settle (some entity_type) (some disconnect) beacon = Result.ok (beacon entity_type disconnect)

module _ {F D : Type 0} (floats : Floats F D) where
  -- The reads behind that of `entity_gid`.
  unfoldable pub read_names :
      List ℕ → List ℕ → Option ℤ → List ℕ → RxStream F → Result (EntityBeacon × RxStream F)
  read_names node_name node_namespace entity_type entity_gid r =
      let (topic_name, r') = assigned [] (read_string r) in
      let (type_name, r'') = assigned [] (read_string r') in
      let (disconnect, r''') = read_bool r'' in
      settle entity_type disconnect (λ type leaving. record {
        node_name = node_name;
        node_namespace = node_namespace;
        entity_type = type;
        entity_gid = entity_gid;
        topic_name = topic_name;
        type_name = type_name;
        disconnect = leaving;
      })
      >>= (λ b. Result.ok (b, r'''))

  -- The seven reads of the thread.
  unfoldable pub read_beacon : RxStream F → Result (EntityBeacon × RxStream F)
  read_beacon r =
      let (node_name, r') = assigned [] (read_string r) in
      let (node_namespace, r'') = assigned [] (read_string r') in
      let (entity_type, r''') = read_int32 r'' in
      read_vector floats Scalar.uint8 r'''
      >>= (λ p. read_names node_name node_namespace entity_type p.0 p.1)

-- `std::copy_n(entity_gid.begin(), RMW_GID_STORAGE_SIZE, gid.data.begin())`
unfoldable pub copy_gid : ℕ → List ℕ → Result (List ℕ)
copy_gid gid_storage_size entity_gid =
    if ltb (length entity_gid) gid_storage_size
    then Result.undefined
    else Result.ok (take gid_storage_size entity_gid)

-- `rmw_topic_endpoint_info_t`, as far as it is used.
pub record EndpointInfo : Type 0 where
  pub node_name : List ℕ
  pub node_namespace : List ℕ
  pub endpoint_gid : List ℕ

-- `rmw_dds_common::msg::NodeEntitiesInfo`
pub record NodeEntitiesInfo : Type 0 where
  pub node_name : List ℕ
  pub node_namespace : List ℕ
  pub reader_gid_seq : List (List ℕ)
  pub writer_gid_seq : List (List ℕ)

-- `GraphCache`, with the arguments that the thread varies. The names that a call finds are put into an
-- array, the last argument, which the thread does not empty between its two calls.
pub record GraphCache (G : Type 0) : Type 0 where
  pub gid_storage_size : ℕ
  pub get_writer_names_and_types_by_node : G → List ℕ → List ℕ → List (List ℕ) → List (List ℕ)
  pub get_reader_names_and_types_by_node : G → List ℕ → List ℕ → List (List ℕ) → List (List ℕ)
  pub get_writers_info_by_topic : G → List ℕ → List EndpointInfo
  pub get_readers_info_by_topic : G → List ℕ → List EndpointInfo
  pub update_participant_entities : List NodeEntitiesInfo → G → G
  pub add_entity : List ℕ → List ℕ → List ℕ → Bool → G → G
  pub remove_entity : List ℕ → Bool → G → G

-- The loop over the endpoints of a topic: those of the node of the beacon go behind `seq`, but for
-- one that disconnects.
unfoldable pub push_previous :
    EntityBeacon → List ℕ → List EndpointInfo → List (List ℕ) → List (List ℕ)
push_previous b gid [] seq = seq
push_previous b gid (info ∷ infos) seq = push_previous b gid infos (
    if not (equal info.node_name b.node_name) || not (equal info.node_namespace b.node_namespace)
    then seq
    else if b.disconnect && equal gid info.endpoint_gid
    then seq
    else seq ++ info.endpoint_gid ∷ [])

-- The loop over the topics.
unfoldable pub push_topics :
    EntityBeacon
    → List ℕ
    → (List ℕ → List EndpointInfo)
    → List (List ℕ)
    → List (List ℕ)
    → List (List ℕ)
push_topics b gid infos [] seq = seq
push_topics b gid infos (name ∷ names) seq =
    push_topics b gid infos names (push_previous b gid (infos name) seq)

unfoldable pub is_reader : EntityBeacon → Bool
is_reader b = same b.entity_type (pos subscriber_type)

module _ {G : Type 0} (cache : GraphCache G) where
  -- The node of the beacon, with the entity and those that the graph has already.
  unfoldable pub entities_of : EntityBeacon → List ℕ → G → NodeEntitiesInfo
  entities_of b gid g =
      let arrives = not b.disconnect in
      let readers = if arrives && is_reader b then gid ∷ [] else [] in
      let writers = if arrives && not (is_reader b) then gid ∷ [] else [] in
      let written = cache.get_writer_names_and_types_by_node g b.node_name b.node_namespace [] in
      let read = cache.get_reader_names_and_types_by_node g b.node_name b.node_namespace written in
      record {
        node_name = b.node_name;
        node_namespace = b.node_namespace;
        reader_gid_seq = push_topics b gid (cache.get_readers_info_by_topic g) read readers;
        writer_gid_seq = push_topics b gid (cache.get_writers_info_by_topic g) written writers;
      }

  -- What is done with a beacon once it is read.
  unfoldable pub register : EntityBeacon → List ℕ → G → G
  register b gid g =
      let known = cache.update_participant_entities (entities_of b gid g ∷ []) g in
      if b.disconnect
      then cache.remove_entity gid (is_reader b) known
      else cache.add_entity gid (to_string b.entity_type ++ b.topic_name) b.type_name (is_reader b)
          known

  -- A round of `discovery_thread`, whose stream is the listening stream `i`.
  unfoldable pub discovery_round :
      {F D : Type 0} → Setup F D → ℕ → World F → G → Result (World F × G)
  discovery_round s i w g = stream_has_data s (pos 0) i w >>= (λ p.
      if p.0
      then on_stream i (λ r. read_beacon s.floats r >>= (λ q. Result.ok (q.0, clear_buffer q.1)))
          p.1
        >>= (λ q.
            copy_gid cache.gid_storage_size q.0.entity_gid
            >>= (λ gid. Result.ok (q.1, register q.0 gid g)))
      else Result.ok (p.1, g))
