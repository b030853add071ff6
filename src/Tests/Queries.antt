-- ===== src/Tests/Queries.antt =====
-- The questions of src/rmw.cpp to a graph that is the list of its entities.
use rmw_desert.Prelude.{
  ℕ, ◌+◌, ◌≡◌, refl, Bool, true, false, List, [], ◌∷◌, if◌then◌else◌, All, Bool-cases, inl, inr,
}
use rmw_desert.Prelude.Int.{pos}
use rmw_desert.Message.{Result}
use rmw_desert.Cbor.Rx.{same}
use rmw_desert.Discovery.{EntityBeacon, GraphCache, register, is_reader, entities_of, push_topics}
use rmw_desert.Discovery.Text.{equal, to_string, digits}
use rmw_desert.Discovery.Queries.{
  GraphQueries, rmw_count_services, rmw_get_client_names_and_types_by_node,
  rmw_get_service_names_and_types_by_node,
}
use rmw_desert.Discovery.Queries.Graph.{
  Entity, Class, IsGraph, count, without, count_of, counted, announces,
}
use rmw_desert.Discovery.Queries.Counts.{register-counts}
use rmw_desert.Discovery.Queries.Unlisted.{ListsReaders, Registers, services_unlisted}

abbrev cache : GraphCache (List Entity)
cache = record {
  gid_storage_size = 1;
  get_writer_names_and_types_by_node = λ g name namespace found. found;
  get_reader_names_and_types_by_node = λ g name namespace found. found;
  get_writers_info_by_topic = λ g topic. [];
  get_readers_info_by_topic = λ g topic. [];
  update_participant_entities = λ nodes g. g;
  add_entity = λ gid name type reader g. record { gid = gid; name = name; reader = reader } ∷ g;
  remove_entity = λ gid reader g. without gid reader g;
}

-- A name in front of the others, unless it is empty.
abbrev listed : Result (List ℕ) → List (List ℕ) → List (List ℕ)
listed (Result.ok []) names = names
listed (Result.ok (c ∷ cs)) names = (c ∷ cs) ∷ names
listed Result.throws names = names
listed Result.undefined names = names
listed Result.endless names = names

abbrev names_of : Bool → (List ℕ → Result (List ℕ)) → List Entity → List (List ℕ)
names_of reader f [] = []
names_of true f (x ∷ xs) =
    let rest = names_of true f xs in if x.reader then listed (f x.name) rest else rest
names_of false f (x ∷ xs) =
    let rest = names_of false f xs in if x.reader then rest else listed (f x.name) rest

abbrev queries : GraphQueries (List Entity) (List (List ℕ))
queries = record {
  get_writer_count = count false;
  get_reader_count = count true;
  get_writers_by_node = λ name namespace f g. names_of false f g;
  get_readers_by_node = λ name namespace f g. names_of true f g;
}

abbrev graph : IsGraph cache queries
graph = record {
  entities = λ g. g;
  entities-update = λ nodes g. refl;
  entities-add = λ gid name type reader g new. refl;
  entities-remove = λ gid reader g. refl;
  writers = λ name g. refl;
  readers = λ name g. refl;
}

names_of-none :
    (f : List ℕ → Result (List ℕ)) (g : List Entity)
    → All (λ x. x.reader ≡ true → f x.name ≡ Result.ok []) g
    → names_of true f g ≡ []
names_of-none f [] h = refl
names_of-none f (x ∷ xs) h = elim (Bool-cases x.reader) [
  | inl read ↦ rw (read, h.0 read, names_of-none f xs h.1) refl
  | inr write ↦ rw (write, names_of-none f xs h.1) refl
]

queries-ListsReaders : ListsReaders queries (λ g. g) []
queries-ListsReaders node_name node_namespace f g h = names_of-none f g h

-- The service `/s` of the node `n`, and its end.
abbrev arrival : EntityBeacon
arrival = record {
  node_name = 110 ∷ [];
  node_namespace = 47 ∷ [];
  entity_type = pos 3;
  entity_gid = 7 ∷ [];
  topic_name = 47 ∷ 115 ∷ [];
  type_name = 84 ∷ [];
  disconnect = false;
}

abbrev departure : EntityBeacon
departure = record arrival { topic_name = []; type_name = []; disconnect = true }

abbrev joined : List Entity
joined = register cache arrival (7 ∷ []) []

register-counts_example :
    (count_of queries Class.service (47 ∷ 115 ∷ []) joined
      ≡ counted (announces Class.service (47 ∷ 115 ∷ []) arrival)
        + count_of queries Class.service (47 ∷ 115 ∷ []) [])
    × (count_of queries Class.service (47 ∷ 115 ∷ []) (register cache departure (7 ∷ []) joined)
        ≡ count_of queries Class.service (47 ∷ 115 ∷ []) [])
register-counts_example =
    register-counts cache queries graph arrival departure (7 ∷ []) Class.service Class.service
      (47 ∷ 115 ∷ []) [] refl refl refl refl tt

service_counted : count_of queries Class.service (47 ∷ 115 ∷ []) joined ≡ 1
unfolding register is_reader entities_of push_topics same to_string digits equal rmw_count_services
service_counted = refl

services_unlisted_example :
    (rmw_get_service_names_and_types_by_node queries (110 ∷ []) (47 ∷ []) joined ≡ [])
    × (rmw_get_client_names_and_types_by_node queries (110 ∷ []) (47 ∷ []) joined ≡ [])
services_unlisted_example =
    services_unlisted cache queries graph [] [] joined (110 ∷ []) (47 ∷ []) queries-ListsReaders
      refl
      (Registers.arrives arrival (7 ∷ []) Class.service [] joined refl refl tt
        (Registers.stop joined))
