-- ===== src/Discovery/Queries.antt =====
-- The questions that src/rmw.cpp and src/get_node_info_and_types.cpp put to the graph. A count is the value
-- that is written to the caller's variable; the code that the graph returns is passed on and left out.
pub mod Graph
pub mod Counts
pub mod Unlisted
use rmw_desert.Prelude.{ℕ, Bool, List, ◌++◌, ltb}
use rmw_desert.Prelude.Int.{pos}
use rmw_desert.Cbor.Interpret.{publisher_type, subscriber_type, client_type, service_type}
use rmw_desert.Message.{Result}
use rmw_desert.Discovery.Text.{to_string}
use rmw_desert.Discovery.Demangle.{
  demangle_publisher_from_topic, demangle_subscriber_from_topic,
  demangle_service_request_from_topic, demangle_service_reply_from_topic,
}

-- The questions of `GraphCache`: a count for a name in the graph, and for a node what the graph makes of
-- its names, which it gives to the function that is passed.
pub record GraphQueries (G N : Type 0) : Type 0 where
  pub get_writer_count : List ℕ → G → ℕ
  pub get_reader_count : List ℕ → G → ℕ
  pub get_writers_by_node : List ℕ → List ℕ → (List ℕ → Result (List ℕ)) → G → N
  pub get_readers_by_node : List ℕ → List ℕ → (List ℕ → Result (List ℕ)) → G → N

module _ {G N : Type 0} (q : GraphQueries G N) where
  unfoldable pub rmw_count_publishers : List ℕ → G → ℕ
  rmw_count_publishers name g = q.get_writer_count (to_string (pos publisher_type) ++ name) g

  unfoldable pub rmw_count_subscribers : List ℕ → G → ℕ
  rmw_count_subscribers name g = q.get_reader_count (to_string (pos subscriber_type) ++ name) g

  unfoldable pub rmw_count_clients : List ℕ → G → ℕ
  rmw_count_clients name g = q.get_writer_count (to_string (pos client_type) ++ name) g

  unfoldable pub rmw_count_services : List ℕ → G → ℕ
  rmw_count_services name g = q.get_writer_count (to_string (pos service_type) ++ name) g

  unfoldable pub rmw_service_server_is_available : List ℕ → G → Bool
  rmw_service_server_is_available name g = ltb 0 (rmw_count_services name g)

  unfoldable pub rmw_get_publisher_names_and_types_by_node : List ℕ → List ℕ → G → N
  rmw_get_publisher_names_and_types_by_node node_name node_namespace g =
      q.get_writers_by_node node_name node_namespace demangle_publisher_from_topic g

  unfoldable pub rmw_get_subscriber_names_and_types_by_node : List ℕ → List ℕ → G → N
  rmw_get_subscriber_names_and_types_by_node node_name node_namespace g =
      q.get_readers_by_node node_name node_namespace demangle_subscriber_from_topic g

  unfoldable pub rmw_get_client_names_and_types_by_node : List ℕ → List ℕ → G → N
  rmw_get_client_names_and_types_by_node node_name node_namespace g =
      q.get_readers_by_node node_name node_namespace demangle_service_request_from_topic g

  unfoldable pub rmw_get_service_names_and_types_by_node : List ℕ → List ℕ → G → N
  rmw_get_service_names_and_types_by_node node_name node_namespace g =
      q.get_readers_by_node node_name node_namespace demangle_service_reply_from_topic g
