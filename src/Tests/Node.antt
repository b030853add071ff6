-- ===== src/Tests/Node.antt =====
-- src/desert_classes/DesertNode.cpp on a node with one endpoint.
use rmw_desert.Prelude.{◌≡◌, [], ◌∷◌, ◌++◌, arith}
use rmw_desert.Prelude.Int.{ℤ, pos}
use rmw_desert.Topics.{TopicsConfig, load_configuration}
use rmw_desert.Cbor.Rx.{Field, Lookup}
use rmw_desert.Cbor.Interpret.{publisher_type, subscriber_type, client_type, service_type}
use rmw_desert.Node.{
  Endpoint, Node, add_publisher, add_subscriber, add_client, add_service, remove_publisher,
  remove_subscriber, remove_client, remove_service, discovery_requests,
}
use rmw_desert.Node.Beacons.{after_both, endpoint_comes_and_goes}
use rmw_desert.Node.Requests.{announcements, sent, repeated, requested, discovery_requests_answered}

abbrev config : TopicsConfig
config = load_configuration (("/discovery", 1) ∷ ("chatter", 3) ∷ [])

abbrev talker : Endpoint
talker = record { address = 4096; name = "chatter"; type_name = "String"; gid = 7 ∷ [] }

abbrev bare : Node
bare = record {
  name = "node";
  namespace = "/";
  publishers = [];
  subscribers = [];
  clients = [];
  services = [];
  beacons = [];
}

endpoint_comes_and_goes_example :
    (remove_publisher config talker (add_publisher config talker bare)
      ≡ after_both config publisher_type talker bare
          (record bare { publishers = [] ++ talker ∷ [] }))
    × (remove_subscriber config talker (add_subscriber config talker bare)
        ≡ after_both config subscriber_type talker bare
            (record bare { subscribers = [] ++ talker ∷ [] }))
    × (remove_client config talker (add_client config talker bare)
        ≡ after_both config client_type talker bare (record bare { clients = [] ++ talker ∷ [] }))
    × (remove_service config talker (add_service config talker bare)
        ≡ after_both config service_type talker bare (record bare { services = [] ++ talker ∷ [] }))
endpoint_comes_and_goes_example = endpoint_comes_and_goes config talker bare tt tt tt tt

abbrev talking : Node
talking = record bare { publishers = talker ∷ [] }

abbrev nothing : Field Unit → ℤ
nothing f = pos 0

discovery_requests_answered_example :
    discovery_requests nothing 5 (requested 1 2 2) talking
    ≡ Lookup.returns (requested 1 2 0, sent (repeated 2 (announcements talking)) talking)
discovery_requests_answered_example =
    discovery_requests_answered nothing 5 2 1 2 talking (omega arith)
