-- ===== src/Node.antt =====
-- src/desert_classes/DesertNode.cpp: the endpoints that a node has registered, and the beacons that it
-- sends about them. A call of `Discovery::send_discovery_beacon` is the beacon it is called with; the
-- thread that answers requests is taken one round at a time.
pub mod Registry
pub mod Requests
pub mod Handles
pub mod Beacons
use Prim.Native.String.{String}
use rmw_desert.Prelude.{
  ℕ, zero, suc, Bool, true, false, not, Option, some, none, List, [], ◌∷◌, ◌++◌, ◌==◌,
  if◌then◌else◌,
}
use rmw_desert.Prelude.Int.{ℤ, pos}
use rmw_desert.Topics.{TopicsConfig, get_topic_identifier}
use rmw_desert.Cbor.Rx.{Field, Lookup, RxStream, data_available}
use rmw_desert.Cbor.Interpret.{publisher_type, subscriber_type, client_type, service_type}

-- A publisher, subscriber, client or service: its address, its topic or service, and the type that is
-- announced, which is that of the request for a client and of the response for a service.
pub record Endpoint : Type 0 where
  pub address : ℕ
  pub name : String
  pub type_name : String
  pub gid : List ℕ

pub record Beacon : Type 0 where
  pub node_name : String
  pub node_namespace : String
  pub entity_type : ℕ
  pub gid : List ℕ
  pub entity_name : String
  pub type_name : String
  pub disconnect : Bool

-- `beacons` are those that have been sent.
pub record Node : Type 0 where
  pub name : String
  pub namespace : String
  pub publishers : List Endpoint
  pub subscribers : List Endpoint
  pub clients : List Endpoint
  pub services : List Endpoint
  pub beacons : List Beacon

unfoldable pub is_configured : TopicsConfig → String → Bool
is_configured config name = not (get_topic_identifier config name == 0)

abbrev pub beacon_of : Node → ℕ → Endpoint → Beacon
beacon_of node entity_type e = record {
  node_name = node.name;
  node_namespace = node.namespace;
  entity_type = entity_type;
  gid = e.gid;
  entity_name = e.name;
  type_name = e.type_name;
  disconnect = false;
}

unfoldable pub announce : ℕ → Endpoint → Node → Node
announce entity_type e node = record node {
  beacons = node.beacons ++ beacon_of node entity_type e ∷ [];
}

unfoldable pub withdraw : ℕ → Endpoint → Node → Node
withdraw entity_type e node = record node {
  beacons =
      node.beacons
      ++ record (beacon_of node entity_type e) {
        entity_name = "";
        type_name = "";
        disconnect = true;
      }
        ∷ [];
}

unfoldable pub add_publisher : TopicsConfig → Endpoint → Node → Node
add_publisher config pub_ node =
    if not (is_configured config pub_.name)
    then node
    else let added = record node { publishers = node.publishers ++ pub_ ∷ [] } in
      if not (is_configured config "/discovery") then added else announce publisher_type pub_ added

unfoldable pub add_subscriber : TopicsConfig → Endpoint → Node → Node
add_subscriber config sub node =
    if not (is_configured config sub.name)
    then node
    else let added = record node { subscribers = node.subscribers ++ sub ∷ [] } in
      if not (is_configured config "/discovery") then added else announce subscriber_type sub added

unfoldable pub add_client : TopicsConfig → Endpoint → Node → Node
add_client config cli node =
    if not (is_configured config cli.name)
    then node
    else let added = record node { clients = node.clients ++ cli ∷ [] } in
      if not (is_configured config "/discovery") then added else announce client_type cli added

unfoldable pub add_service : TopicsConfig → Endpoint → Node → Node
add_service config ser node =
    if not (is_configured config ser.name)
    then node
    else let added = record node { services = node.services ++ ser ∷ [] } in
      if not (is_configured config "/discovery") then added else announce service_type ser added

-- `std::find` of the address, and `erase` if it is found.
unfoldable pub erase : ℕ → List Endpoint → List Endpoint
erase address [] = []
erase address (e ∷ es) = if e.address == address then es else e ∷ erase address es

unfoldable pub remove_publisher : TopicsConfig → Endpoint → Node → Node
remove_publisher config pub_ node =
    if not (is_configured config pub_.name)
    then node
    else if not (is_configured config "/discovery")
    then node
    else record (withdraw publisher_type pub_ node) {
      publishers = erase pub_.address node.publishers;
    }

unfoldable pub remove_subscriber : TopicsConfig → Endpoint → Node → Node
remove_subscriber config sub node =
    if not (is_configured config sub.name)
    then node
    else if not (is_configured config "/discovery")
    then node
    else record (withdraw subscriber_type sub node) {
      subscribers = erase sub.address node.subscribers;
    }

unfoldable pub remove_client : TopicsConfig → Endpoint → Node → Node
remove_client config cli node =
    if not (is_configured config cli.name)
    then node
    else if not (is_configured config "/discovery")
    then node
    else record (withdraw client_type cli node) { clients = erase cli.address node.clients }

unfoldable pub remove_service : TopicsConfig → Endpoint → Node → Node
remove_service config ser node =
    if not (is_configured config ser.name)
    then node
    else if not (is_configured config "/discovery")
    then node
    else record (withdraw service_type ser node) { services = erase ser.address node.services }

-- One of the loops of `publish_all_beacons`.
unfoldable pub announce_all : ℕ → List Endpoint → Node → Node
announce_all entity_type [] node = node
announce_all entity_type (e ∷ es) node = announce_all entity_type es (announce entity_type e node)

unfoldable pub publish_all_beacons : Node → Node
publish_all_beacons node = announce_all service_type node.services (
    announce_all client_type node.clients (
      announce_all subscriber_type node.subscribers
        (announce_all publisher_type node.publishers node)))

-- A round of `_discovery_request` behind `interpret_packets`.
unfoldable pub discovery_request :
    {F : Type 0} → (Field F → ℤ) → RxStream F → Node → Lookup (RxStream F × Node)
discovery_request alias r node = elim (data_available alias (pos 0) r) [
  | Lookup.out_of_range ↦ Lookup.out_of_range
  | Lookup.undefined ↦ Lookup.undefined
  | Lookup.returns (available, r') ↦
      Lookup.returns (r', if available then publish_all_beacons node else node)
]

-- The first rounds, with no packet received between them.
unfoldable pub discovery_requests :
    {F : Type 0} → (Field F → ℤ) → ℕ → RxStream F → Node → Lookup (RxStream F × Node)
discovery_requests alias zero r node = Lookup.returns (r, node)
discovery_requests alias (suc rounds) r node = elim (discovery_request alias r node) [
  | Lookup.out_of_range ↦ Lookup.out_of_range
  | Lookup.undefined ↦ Lookup.undefined
  | Lookup.returns (r', node') ↦ discovery_requests alias rounds r' node'
]
