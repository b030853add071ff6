-- ===== src/Discovery/Queries/Graph.antt =====
-- What the queries of src/rmw.cpp rely on the graph of rmw_dds_common for, and the classes of its entities.
use rmw_desert.Prelude.{
  ℕ, ◌+◌, ◌≡◌, Bool, true, false, not, ◌&&◌, List, [], ◌∷◌, ◌++◌, if◌then◌else◌, All,
}
use rmw_desert.Prelude.Int.{pos}
use rmw_desert.Cbor.Rx.{same}
use rmw_desert.Cbor.Interpret.{publisher_type, subscriber_type, client_type, service_type}
use rmw_desert.Discovery.{EntityBeacon, NodeEntitiesInfo, GraphCache, is_reader}
use rmw_desert.Discovery.Text.{equal, to_string}
use rmw_desert.Discovery.Queries.{
  GraphQueries, rmw_count_publishers, rmw_count_subscribers, rmw_count_clients, rmw_count_services,
}

-- A reader or a writer of the graph.
pub record Entity : Type 0 where
  pub gid : List ℕ
  pub name : List ℕ
  pub reader : Bool

-- 1 where both tests hold.
abbrev pub counted : Bool → ℕ
counted b = if b then 1 else 0

abbrev pub is_named : Bool → List ℕ → Entity → Bool
is_named true name x = x.reader && equal x.name name
is_named false name x = not x.reader && equal x.name name

-- The readers, or the writers, that have a name.
abbrev pub count : Bool → List ℕ → List Entity → ℕ
count reader name [] = 0
count reader name (x ∷ xs) = counted (is_named reader name x) + count reader name xs

abbrev pub is_entity : List ℕ → Bool → Entity → Bool
is_entity gid true x = x.reader && equal x.gid gid
is_entity gid false x = not x.reader && equal x.gid gid

abbrev pub without : List ℕ → Bool → List Entity → List Entity
without gid reader [] = []
without gid reader (x ∷ xs) =
    let rest = without gid reader xs in if is_entity gid reader x then rest else x ∷ rest

-- No entity has the identifier.
abbrev pub IsNew : List ℕ → List Entity → Type 0
IsNew gid xs = All (λ x. equal x.gid gid ≡ false) xs

-- What the calls rely on: the graph has entities, which `add_entity` adds to where the identifier is new
-- and `remove_entity` removes from, the nodes of a participant do not touch them, and a count counts them.
pub record IsGraph {G N : Type 0} (cache : GraphCache G) (q : GraphQueries G N) : Type 0 where
  pub entities : G → List Entity
  pub entities-update :
      (nodes : List NodeEntitiesInfo) (g : G)
      → entities (cache.update_participant_entities nodes g) ≡ entities g
  pub entities-add :
      (gid name type : List ℕ) (reader : Bool) (g : G)
      → IsNew gid (entities g)
      → entities (cache.add_entity gid name type reader g)
        ≡ record { gid = gid; name = name; reader = reader } ∷ entities g
  pub entities-remove :
      (gid : List ℕ) (reader : Bool) (g : G)
      → entities (cache.remove_entity gid reader g) ≡ without gid reader (entities g)
  pub writers : (name : List ℕ) (g : G) → q.get_writer_count name g ≡ count false name (entities g)
  pub readers : (name : List ℕ) (g : G) → q.get_reader_count name g ≡ count true name (entities g)

-- The classes of entities.
pub data Class : Type 0 where
  publisher : Class
  subscriber : Class
  client : Class
  service : Class

abbrev pub type_of : Class → ℕ
type_of Class.publisher = publisher_type
type_of Class.subscriber = subscriber_type
type_of Class.client = client_type
type_of Class.service = service_type

abbrev pub reads : Class → Bool
reads Class.subscriber = true
reads _ = false

-- The count of a class.
abbrev pub count_of : {G N : Type 0} → GraphQueries G N → Class → List ℕ → G → ℕ
count_of q Class.publisher = rmw_count_publishers q
count_of q Class.subscriber = rmw_count_subscribers q
count_of q Class.client = rmw_count_clients q
count_of q Class.service = rmw_count_services q

-- The beacon announces an entity of the class and the name.
abbrev pub announces : Class → List ℕ → EntityBeacon → Bool
announces k name b = same b.entity_type (pos (type_of k)) && equal b.topic_name name

abbrev pub entity_of : EntityBeacon → List ℕ → Entity
entity_of b gid = record {
  gid = gid;
  name = to_string b.entity_type ++ b.topic_name;
  reader = is_reader b;
}
