-- ===== src/Discovery/Queries/Counts.antt =====
-- What the counts of src/rmw.cpp say after a beacon that src/desert_classes/Discovery.cpp registers.
use rmw_desert.Prelude.{
  ℕ, ◌+◌, ◌≡◌, refl, sym, ap, ◌∙◌, Bool, true, false, ◌&&◌, List, [], ◌∷◌, ◌++◌, if◌then◌else◌,
  Bool-cases, inl, inr, arith,
}
use rmw_desert.Prelude.Int.{pos}
use rmw_desert.Cbor.Rx.{same}
use rmw_desert.Cbor.Interpret.{publisher_type, subscriber_type, client_type, service_type}
use rmw_desert.Discovery.{EntityBeacon, GraphCache, is_reader, entities_of, register}
use rmw_desert.Discovery.Text.{equal, to_string, digits}
use rmw_desert.Discovery.Queries.{
  GraphQueries, rmw_count_publishers, rmw_count_subscribers, rmw_count_clients, rmw_count_services,
}
use rmw_desert.Discovery.Queries.Graph.{
  Entity, counted, is_named, count, without, IsNew, IsGraph, Class, type_of, reads, count_of,
  announces, entity_of,
}

-- An entity of one class is counted for a class exactly where it is of this class and has the name.
is_named-class :
    (j k : Class) (topic name : List ℕ) (gid : List ℕ)
    → is_named
        (reads k)
        (to_string (pos (type_of k)) ++ name)
        (record { gid = gid; name = to_string (pos (type_of j)) ++ topic; reader = reads j })
      ≡ (same (pos (type_of j)) (pos (type_of k)) && equal topic name)
unfolding to_string digits equal same
is_named-class Class.publisher Class.publisher topic name gid = refl
is_named-class Class.publisher Class.subscriber topic name gid = refl
is_named-class Class.publisher Class.client topic name gid = refl
is_named-class Class.publisher Class.service topic name gid = refl
is_named-class Class.subscriber Class.publisher topic name gid = refl
is_named-class Class.subscriber Class.subscriber topic name gid = refl
is_named-class Class.subscriber Class.client topic name gid = refl
is_named-class Class.subscriber Class.service topic name gid = refl
is_named-class Class.client Class.publisher topic name gid = refl
is_named-class Class.client Class.subscriber topic name gid = refl
is_named-class Class.client Class.client topic name gid = refl
is_named-class Class.client Class.service topic name gid = refl
is_named-class Class.service Class.publisher topic name gid = refl
is_named-class Class.service Class.subscriber topic name gid = refl
is_named-class Class.service Class.client topic name gid = refl
is_named-class Class.service Class.service topic name gid = refl

pub is_reader-class :
    (b : EntityBeacon) (j : Class) → b.entity_type ≡ pos (type_of j) → is_reader b ≡ reads j
unfolding is_reader same
is_reader-class b Class.publisher type = rw type refl
is_reader-class b Class.subscriber type = rw type refl
is_reader-class b Class.client type = rw type refl
is_reader-class b Class.service type = rw type refl

equal_refl : (xs : List ℕ) → equal xs xs ≡ true
unfolding equal
equal_refl [] = refl
equal_refl (x ∷ xs) = ground (arith, equal_refl xs)

without-IsNew :
    (gid : List ℕ) (reader : Bool) (xs : List Entity) → IsNew gid xs → without gid reader xs ≡ xs
without-IsNew gid reader [] new = refl
without-IsNew gid true (x ∷ xs) new = elim (Bool-cases x.reader) [
  | inl yes' ↦ rw (yes', new.0, without-IsNew gid true xs new.1) refl
  | inr no' ↦ rw (no', without-IsNew gid true xs new.1) refl
]
without-IsNew gid false (x ∷ xs) new = elim (Bool-cases x.reader) [
  | inl yes' ↦ rw (yes', without-IsNew gid false xs new.1) refl
  | inr no' ↦ rw (no', new.0, without-IsNew gid false xs new.1) refl
]

without-own :
    (gid : List ℕ) (reader : Bool) (x : Entity) (xs : List Entity)
    → x.gid ≡ gid
    → x.reader ≡ reader
    → IsNew gid xs
    → without gid reader (x ∷ xs) ≡ xs
without-own gid true x xs own role new =
    rw (role, own, equal_refl gid, without-IsNew gid true xs new) refl
without-own gid false x xs own role new =
    rw (role, own, equal_refl gid, without-IsNew gid false xs new) refl

then_branch : {A : Type 0} (b : Bool) (x y : A) → b ≡ true → (if b then x else y) ≡ x
then_branch b x y h = rw h refl

else_branch : {A : Type 0} (b : Bool) (x y : A) → b ≡ false → (if b then x else y) ≡ y
else_branch b x y h = rw h refl

module _ {G N : Type 0} (cache : GraphCache G) (q : GraphQueries G N)
    (graph : IsGraph cache q) where
  count_of-entities :
      (k : Class) (name : List ℕ) (g : G)
      → count_of q k name g
        ≡ count (reads k) (to_string (pos (type_of k)) ++ name) (graph.entities g)
  unfolding rmw_count_publishers rmw_count_subscribers rmw_count_clients rmw_count_services
  count_of-entities Class.publisher name g =
      graph.writers (to_string (pos publisher_type) ++ name) g
  count_of-entities Class.subscriber name g =
      graph.readers (to_string (pos subscriber_type) ++ name) g
  count_of-entities Class.client name g = graph.writers (to_string (pos client_type) ++ name) g
  count_of-entities Class.service name g = graph.writers (to_string (pos service_type) ++ name) g

  pub entities-arrive :
      (b : EntityBeacon) (gid : List ℕ) (g : G)
      → b.disconnect ≡ false
      → IsNew gid (graph.entities g)
      → graph.entities (register cache b gid g) ≡ entity_of b gid ∷ graph.entities g
  unfolding register
  entities-arrive b gid g arrives new =
      let nodes = entities_of cache b gid g ∷ [] in
      ap graph.entities (else_branch b.disconnect _ _ arrives)
      ∙ graph.entities-add gid (to_string b.entity_type ++ b.topic_name) b.type_name (is_reader b)
          (cache.update_participant_entities nodes g) (rw (graph.entities-update nodes g) new)
      ∙ ap (λ es. entity_of b gid ∷ es) (graph.entities-update nodes g)

  pub entities-leave :
      (b : EntityBeacon) (gid : List ℕ) (g : G)
      → b.disconnect ≡ true
      → graph.entities (register cache b gid g) ≡ without gid (is_reader b) (graph.entities g)
  unfolding register
  entities-leave b gid g leaves =
      let nodes = entities_of cache b gid g ∷ [] in
      ap graph.entities (then_branch b.disconnect _ _ leaves)
      ∙ graph.entities-remove gid (is_reader b) (cache.update_participant_entities nodes g)
      ∙ ap (without gid (is_reader b)) (graph.entities-update nodes g)

  -- A beacon that announces an entity of one of the four classes, whose identifier the graph does not
  -- have, raises the count of each class and name by one if it is the class and the name of the entity,
  -- and by nothing otherwise; a second beacon, by which the entity leaves, brings each count back.
  -- Condition: the graph keeps and counts its entities, as `IsGraph` says.
  pub register-counts :
      (b leaving : EntityBeacon) (gid : List ℕ) (j k : Class) (name : List ℕ) (g : G)
      → b.entity_type ≡ pos (type_of j)
      → b.disconnect ≡ false
      → leaving.entity_type ≡ b.entity_type
      → leaving.disconnect ≡ true
      → IsNew gid (graph.entities g)
      → (count_of q k name (register cache b gid g)
          ≡ counted (announces k name b) + count_of q k name g)
        × (count_of q k name (register cache leaving gid (register cache b gid g))
            ≡ count_of q k name g)
  register-counts b leaving gid j k name g type arrives type' leaves new =
      let here = register cache b gid g in
      let role : is_reader leaving ≡ reads j = is_reader-class leaving j (type' ∙ type) in
      let raised : count (reads k) (to_string (pos (type_of k)) ++ name)
            (entity_of b gid ∷ graph.entities g)
          ≡ counted (announces k name b) + count_of q k name g =
        rw
          (
            count_of-entities k name g,
            is_reader-class b j type,
            type,
            is_named-class j k b.topic_name name gid,
          )
          refl in
      (
        rw (count_of-entities k name here, entities-arrive b gid g arrives new) raised,
        rw
            (
              count_of-entities k name (register cache leaving gid here),
              entities-leave leaving gid here leaves,
              entities-arrive b gid g arrives new,
              without-own gid (is_reader leaving) (entity_of b gid) (graph.entities g) refl
                  (is_reader-class b j type ∙ sym role) new,
              count_of-entities k name g,
            )
            refl,
      )
