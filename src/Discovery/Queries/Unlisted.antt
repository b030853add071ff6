-- ===== src/Discovery/Queries/Unlisted.antt =====
-- The services and clients of a node, for which src/get_node_info_and_types.cpp asks among the readers of the
-- graph, while src/desert_classes/Discovery.cpp registers only subscribers as readers.
use rmw_desert.Prelude.{
  ℕ, ◌≡◌, refl, sym, ap, ◌∙◌, Bool, true, false, List, [], ◌∷◌, ◌++◌, All, Bool-cases, inl, inr,
}
use rmw_desert.Prelude.Int.{pos}
use rmw_desert.Cbor.Interpret.{subscriber_type}
use rmw_desert.Message.{Result}
use rmw_desert.Discovery.{EntityBeacon, GraphCache, is_reader, register}
use rmw_desert.Discovery.Text.{to_string, digits}
use rmw_desert.Discovery.Demangle.{
  starts_with, resolve_prefix, demangle_service_request_from_topic,
  demangle_service_reply_from_topic,
}
use rmw_desert.Discovery.Queries.{
  GraphQueries, rmw_get_client_names_and_types_by_node, rmw_get_service_names_and_types_by_node,
}
use rmw_desert.Discovery.Queries.Graph.{
  Entity, Class, type_of, IsNew, IsGraph, is_entity, without, entity_of,
}
use rmw_desert.Discovery.Queries.Counts.{is_reader-class, entities-arrive, entities-leave}

-- A reader has the name of a subscriber.
abbrev pub IsSubscriber : Entity → Type 0
IsSubscriber x =
    x.reader ≡ true → (topic : List ℕ) × (x.name ≡ to_string (pos subscriber_type) ++ topic)

-- Where no reader of the graph has a name that the function keeps, there is nothing to list.
abbrev pub ListsReaders : {G N : Type 0} → GraphQueries G N → (G → List Entity) → N → Type 0
ListsReaders {G} q entities nothing =
    (node_name node_namespace : List ℕ) (f : List ℕ → Result (List ℕ)) (g : G)
    → All (λ x. x.reader ≡ true → f x.name ≡ Result.ok []) (entities g)
    → q.get_readers_by_node node_name node_namespace f g ≡ nothing

-- Beacons that are registered one after the other: an entity that arrives has a new identifier.
pub data Registers {G N : Type 0} (cache : GraphCache G) (q : GraphQueries G N)
    (graph : IsGraph cache q) : G → G → Type 0 where
  stop : (g : G) → Registers cache q graph g g
  arrives :
      (b : EntityBeacon) (gid : List ℕ) (j : Class) (g h : G)
      → b.entity_type ≡ pos (type_of j)
      → b.disconnect ≡ false
      → IsNew gid (graph.entities g)
      → Registers cache q graph (register cache b gid g) h
      → Registers cache q graph g h
  leaves :
      (b : EntityBeacon) (gid : List ℕ) (g h : G)
      → b.disconnect ≡ true
      → Registers cache q graph (register cache b gid g) h
      → Registers cache q graph g h

without-All :
    (P : Entity → Type 0) (gid : List ℕ) (reader : Bool) (xs : List Entity)
    → All P xs
    → All P (without gid reader xs)
without-All P gid reader [] h = h
without-All P gid reader (x ∷ xs) h = elim (Bool-cases (is_entity gid reader x)) [
  | inl hit ↦ rw hit (without-All P gid reader xs h.1)
  | inr other ↦ rw other (h.0, without-All P gid reader xs h.1)
]

map-All :
    {P Q : Entity → Type 0} (f : (x : Entity) → P x → Q x) (xs : List Entity) → All P xs → All Q xs
map-All f [] h = tt
map-All f (x ∷ xs) h = (f x h.0, map-All f xs h.1)

entity_of-IsSubscriber :
    (b : EntityBeacon) (gid : List ℕ) (j : Class)
    → b.entity_type ≡ pos (type_of j)
    → IsSubscriber (entity_of b gid)
entity_of-IsSubscriber b gid Class.subscriber type yes' =
    (b.topic_name, ap (λ z. to_string z ++ b.topic_name) type)
entity_of-IsSubscriber b gid Class.publisher type yes' =
    absurd (let e : false ≡ true = sym (is_reader-class b Class.publisher type) ∙ yes' in cc)
entity_of-IsSubscriber b gid Class.client type yes' =
    absurd (let e : false ≡ true = sym (is_reader-class b Class.client type) ∙ yes' in cc)
entity_of-IsSubscriber b gid Class.service type yes' =
    absurd (let e : false ≡ true = sym (is_reader-class b Class.service type) ∙ yes' in cc)

demangle-subscriber :
    (x : Entity)
    → IsSubscriber x
    → (x.reader ≡ true → demangle_service_request_from_topic x.name ≡ Result.ok [])
      × (x.reader ≡ true → demangle_service_reply_from_topic x.name ≡ Result.ok [])
unfolding demangle_service_request_from_topic demangle_service_reply_from_topic resolve_prefix
    starts_with to_string digits
demangle-subscriber x h = (
  λ yes'. let (topic, named) = h yes' in rw named refl,
  λ yes'. let (topic, named) = h yes' in rw named refl,
)

module _ {G N : Type 0} (cache : GraphCache G) (q : GraphQueries G N)
    (graph : IsGraph cache q) where
  Registers-IsSubscriber :
      (g h : G)
      → Registers cache q graph g h
      → All IsSubscriber (graph.entities g)
      → All IsSubscriber (graph.entities h)
  Registers-IsSubscriber g h (Registers.stop _) ok = ok
  Registers-IsSubscriber g h (Registers.arrives b gid j _ _ type stays new rest) ok =
      Registers-IsSubscriber (register cache b gid g) h rest (
        rw (entities-arrive cache q graph b gid g stays new)
          (entity_of-IsSubscriber b gid j type, ok))
  Registers-IsSubscriber g h (Registers.leaves b gid _ _ goes rest) ok =
      Registers-IsSubscriber (register cache b gid g) h rest (
        rw (entities-leave cache q graph b gid g goes)
          (without-All IsSubscriber gid (is_reader b) (graph.entities g) ok))

  -- From a graph without entities, whatever beacons are registered: the services and the clients of a
  -- node are never listed, although their beacons were registered. Conditions: the graph keeps its
  -- entities, as `IsGraph` says, lists nothing where no reader has a name that is kept, and each entity
  -- that arrives is of one of the four classes and has an identifier that is new.
  pub services_unlisted :
      (nothing : N) (g h : G) (node_name node_namespace : List ℕ)
      → ListsReaders q graph.entities nothing
      → graph.entities g ≡ []
      → Registers cache q graph g h
      → (rmw_get_service_names_and_types_by_node q node_name node_namespace h ≡ nothing)
        × (rmw_get_client_names_and_types_by_node q node_name node_namespace h ≡ nothing)
  unfolding rmw_get_service_names_and_types_by_node rmw_get_client_names_and_types_by_node
  services_unlisted nothing g h node_name node_namespace lists bare steps =
      let ok : All IsSubscriber (graph.entities h) =
        Registers-IsSubscriber g h steps (rw bare tt) in
      (
        lists node_name node_namespace demangle_service_reply_from_topic h
            (map-All (λ x p. (demangle-subscriber x p).1) (graph.entities h) ok),
        lists node_name node_namespace demangle_service_request_from_topic h
            (map-All (λ x p. (demangle-subscriber x p).0) (graph.entities h) ok),
      )
