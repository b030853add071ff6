-- ===== src/Tests/Discovery.antt =====
-- The discovery of src/desert_classes/Discovery.cpp and demangle.cpp and the contexts of src/init.cpp
-- on concrete inputs.
use rmw_desert.Prelude.{
  ℕ, ◌≡◌, refl, Bool, true, false, not, ◌||◌, some, none, List, [], ◌∷◌, ◌++◌, map, arith,
  if◌then◌else◌,
}
use rmw_desert.Prelude.Int.{pos, negsuc}
use rmw_desert.Cbor.Tx.Whole.{encoded, message}
use rmw_desert.Cbor.Interpret.{subscriber_type}
use rmw_desert.Cbor.Interpret.Values.{item_of}
use rmw_desert.Cbor.Interpret.Exchange.{waiting}
use rmw_desert.Cbor.Rx.{same}
use rmw_desert.Message.{Result}
use rmw_desert.Endpoint.{World}
use rmw_desert.Endpoint.Carried.{quiet, IsCarried}
use rmw_desert.Discovery.{
  EntityBeacon, EndpointInfo, NodeEntitiesInfo, GraphCache, is_reader, discovery_round,
}
use rmw_desert.Discovery.Text.{equal, to_string, digits}
use rmw_desert.Discovery.Fields.{beacon_values, IsBeacon}
use rmw_desert.Discovery.Nodes.{graph_described}
use rmw_desert.Discovery.Registers.{announced, discovery_round-beacon}
use rmw_desert.Discovery.Demangle.{demangle_topic, demangle_service_from_topic}
use rmw_desert.Discovery.Demangle.Prefixes.{found, demangle-to_string}
use rmw_desert.Discovery.Thread.{Ret, discovery_thread_start, discovery_thread_stop}
use rmw_desert.Init.{
  Impl, forget, new_impl, started, get_desert_port, rmw_init, rmw_shutdown, rmw_context_fini,
}
use rmw_desert.Init.Lifecycle.{Reach, Step, AreIdle, stopped, lifecycle}
use rmw_desert.Tests.Codec.{codec, codec-IsCodec}
use rmw_desert.Tests.Exchange.{publisher, idle, three_named, publisher_known}
use rmw_desert.Tests.Endpoint.{setup}

-- A graph that holds the readers and the writers of one topic, each a node and an identifier, with the
-- nodes and the changes of entities that it was told of.
pub record Graph : Type 0 where
  pub endpoints : List EndpointInfo
  pub nodes : List NodeEntitiesInfo
  pub entities : List (List ℕ × Bool)

abbrev cache : GraphCache Graph
cache = record {
  gid_storage_size = 2;
  get_writer_names_and_types_by_node = λ g name namespace old. (48 ∷ 47 ∷ []) ∷ [];
  get_reader_names_and_types_by_node = λ g name namespace old. old;
  get_writers_info_by_topic = λ g topic. g.endpoints;
  get_readers_info_by_topic = λ g topic. [];
  update_participant_entities = λ nodes g. record g { nodes = nodes };
  add_entity =
      λ gid topic type reader g. record g { entities = (gid ++ topic, reader) ∷ g.entities };
  remove_entity = λ gid reader g. record g { entities = (gid, not reader) ∷ g.entities };
}

-- A publisher of /a arrives at the node n, which has one endpoint already.
abbrev beacon : EntityBeacon
beacon = record {
  node_name = 110 ∷ [];
  node_namespace = 47 ∷ [];
  entity_type = pos 0;
  entity_gid = 7 ∷ 8 ∷ [];
  topic_name = 47 ∷ 97 ∷ [];
  type_name = 116 ∷ [];
  disconnect = false;
}

abbrev graph : Graph
graph = record {
  endpoints =
      record { node_name = 110 ∷ []; node_namespace = 47 ∷ []; endpoint_gid = 1 ∷ 2 ∷ [] }
      ∷ record { node_name = 111 ∷ []; node_namespace = 47 ∷ []; endpoint_gid = 3 ∷ 4 ∷ [] }
      ∷ [];
  nodes = [];
  entities = [];
}

beacon-IsBeacon : IsBeacon 2 beacon
beacon-IsBeacon = record {
  type_fits = omega arith;
  gid_bytes = (omega arith, (omega arith, tt));
  gid_whole = refl;
  size_fits = omega arith;
}

beacon-IsCarried :
    IsCarried setup publisher subscriber_type
      (beacon_values beacon)
      (encoded codec (message codec publisher (map item_of (beacon_values beacon))))
beacon-IsCarried = record {
  small_type = omega arith;
  small_identifier = omega arith;
  named = three_named;
  known = publisher_known;
  fits = omega arith;
  wraps = refl;
  unwraps = refl;
  some_bytes = omega arith;
}

discovery_round-beacon_example :
    (w' : World Unit) × (discovery_round cache setup 0
        (announced setup publisher beacon (quiet idle [] (waiting 1 3 0 ∷ []) []))
        graph
      ≡ Result.ok (w', graph_described cache beacon (7 ∷ 8 ∷ []) graph))
discovery_round-beacon_example =
    discovery_round-beacon setup cache graph publisher beacon idle [] (waiting 1 3 0 ∷ []) []
      (encoded codec (message codec publisher (map item_of (beacon_values beacon)))) 0 0
      codec-IsCodec beacon-IsBeacon beacon-IsCarried refl

-- The new writer stands in front of the one that the node had, and the entity is named 0/a.
registered_entities : graph_described cache beacon (7 ∷ 8 ∷ []) graph ≡ record graph {
  nodes =
      record {
        node_name = 110 ∷ [];
        node_namespace = 47 ∷ [];
        reader_gid_seq = [];
        writer_gid_seq = (7 ∷ 8 ∷ []) ∷ (1 ∷ 2 ∷ []) ∷ [];
      }
      ∷ [];
  entities = (7 ∷ 8 ∷ 48 ∷ 47 ∷ 97 ∷ [], false) ∷ [];
}
unfolding is_reader equal to_string digits same
registered_entities = refl

demangle-to_string_example :
    (demangle_topic (to_string (pos 1) ++ 47 ∷ 97 ∷ []) ≡ (
      if same (pos 1) (pos 0) || same (pos 1) (pos 1) then found (47 ∷ 97 ∷ []) else Result.ok []))
    × (demangle_service_from_topic (to_string (pos 1) ++ 47 ∷ 97 ∷ []) ≡ (
        if same (pos 1) (pos 3) || same (pos 1) (pos 2)
        then found (47 ∷ 97 ∷ [])
        else Result.ok []))
demangle-to_string_example = demangle-to_string (pos 1) (47 ∷ 97 ∷ [])

-- The decimal numbers.
negative : to_string (negsuc 119) ≡ 45 ∷ 49 ∷ 50 ∷ 48 ∷ []
unfolding to_string digits
negative = refl

abbrev running : Impl
running = record {
  common = record { thread_is_running = true; joinable = true };
  is_shutdown = false;
}

-- The object of the context that was shut down.
abbrev left_behind : Impl
left_behind = record {
  common = record { thread_is_running = false; joinable = false };
  is_shutdown = true;
}

-- A context is initialised, shut down and initialised again.
running-Reach : Reach (record { context = some running; lost = left_behind ∷ [] })
unfolding rmw_init rmw_shutdown started forget new_impl discovery_thread_start discovery_thread_stop
    get_desert_port
running-Reach =
    Reach.next
      (Reach.next
        (Reach.next Reach.zeroed
          (Step.init (record { context = none; lost = [] }) none (λ port. true) true true tt))
        (Step.shutdown [] refl))
      (Step.init (record { context = stopped; lost = [] }) none (λ port. true) true true refl)

lifecycle_example :
    AreIdle (left_behind ∷ [])
    × (rmw_shutdown (some running) ≡ Result.ok (Ret.ret_ok, stopped))
    × (rmw_shutdown stopped ≡ Result.ok (Ret.ret_ok, stopped))
    × (rmw_context_fini (some running) ≡ Result.ok (Ret.ret_invalid_argument, some running))
lifecycle_example = lifecycle running (left_behind ∷ []) running-Reach
