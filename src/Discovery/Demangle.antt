-- ===== src/Discovery/Demangle.antt =====
-- src/desert_classes/demangle.cpp: the names of the graph, which have the type of their entity in front.
pub mod Prefixes
use rmw_desert.Prelude.{
  ℕ, Bool, true, false, not, ◌&&◌, Option, none, some, List, [], ◌∷◌, ◌==◌, if◌then◌else◌, length,
  drop, get_elem?,
}
use rmw_desert.Prelude.Int.{ℤ, pos}
use rmw_desert.Cbor.Interpret.{publisher_type, subscriber_type, client_type, service_type}
use rmw_desert.Message.{Result, ◌>>=◌}
use rmw_desert.Discovery.Text.{to_string}

-- `name.rfind(prefix, 0) == 0`
unfoldable pub starts_with : List ℕ → List ℕ → Bool
starts_with [] name = true
starts_with (x ∷ xs) [] = false
starts_with (x ∷ xs) (y ∷ ys) = x == y && starts_with xs ys

-- The two conditions behind the `&&`: `at` throws where the name is the prefix.
unfoldable pub resolve_prefix : List ℕ → List ℕ → Result (List ℕ)
resolve_prefix name prefix =
    if starts_with prefix name
    then elim (get_elem? name (length prefix)) [
      | none ↦ Result.throws
      | some c ↦ Result.ok (if c == b'/' then drop (length prefix) name else [])
    ]
    else Result.ok []

unfoldable pub demangle_publisher_from_topic : List ℕ → Result (List ℕ)
demangle_publisher_from_topic topic_name =
    resolve_prefix topic_name (to_string (pos publisher_type))

unfoldable pub demangle_subscriber_from_topic : List ℕ → Result (List ℕ)
demangle_subscriber_from_topic topic_name =
    resolve_prefix topic_name (to_string (pos subscriber_type))

-- The first name unless it is empty.
unfoldable pub or_else : List ℕ → Result (List ℕ) → Result (List ℕ)
or_else [] other = other
or_else (x ∷ xs) other = Result.ok (x ∷ xs)

unfoldable pub demangle_topic : List ℕ → Result (List ℕ)
demangle_topic topic_name =
    demangle_publisher_from_topic topic_name
    >>= (λ found. or_else found (demangle_subscriber_from_topic topic_name))

unfoldable pub demangle_service_request_from_topic : List ℕ → Result (List ℕ)
demangle_service_request_from_topic topic_name =
    resolve_prefix topic_name (to_string (pos client_type))

unfoldable pub demangle_service_reply_from_topic : List ℕ → Result (List ℕ)
demangle_service_reply_from_topic topic_name =
    resolve_prefix topic_name (to_string (pos service_type))

unfoldable pub demangle_service_from_topic : List ℕ → Result (List ℕ)
demangle_service_from_topic topic_name =
    demangle_service_reply_from_topic topic_name
    >>= (λ found. or_else found (demangle_service_request_from_topic topic_name))
