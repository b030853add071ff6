-- ===== src/Discovery/Nodes.antt =====
-- The node that `discovery_thread` of src/desert_classes/Discovery.cpp passes to the graph, described
-- without the loops.
use mathlib.Core.List.{append-nil, append_assoc}
use rmw_desert.Prelude.{
  ◌≡◌, refl, sym, ap, ◌∙◌, Bool, true, false, not, ◌&&◌, ◌||◌, List, ℕ, [], ◌∷◌, ◌++◌, map,
  if◌then◌else◌,
}
use rmw_desert.Discovery.{
  EntityBeacon, EndpointInfo, NodeEntitiesInfo, GraphCache, push_previous, push_topics, is_reader,
  entities_of, register,
}
use rmw_desert.Discovery.Text.{equal, to_string}

-- The elements that pass a test.
abbrev pub chosen : {A : Type 0} → (A → Bool) → List A → List A
chosen p [] = []
chosen p (x ∷ xs) = if p x then x ∷ chosen p xs else chosen p xs

abbrev pub joined : {A B : Type 0} → (A → List B) → List A → List B
joined f [] = []
joined f (x ∷ xs) = f x ++ joined f xs

-- An endpoint of the node of the beacon that is not the one which leaves.
abbrev pub remains : EntityBeacon → List ℕ → EndpointInfo → Bool
remains b gid info =
    equal info.node_name b.node_name
    && equal info.node_namespace b.node_namespace
    && not (b.disconnect && equal gid info.endpoint_gid)

abbrev pub gids_remaining : EntityBeacon → List ℕ → List EndpointInfo → List (List ℕ)
gids_remaining b gid infos = map (λ info. info.endpoint_gid) (chosen (remains b gid) infos)

-- One round of the loop over the endpoints, for each outcome of its tests.
kept-step :
    (same_name same_namespace leaves : Bool) (info : EndpointInfo) (infos : List EndpointInfo)
    (seq : List (List ℕ))
    → (if not same_name || not same_namespace
          then seq
          else if leaves
          then seq
          else seq ++ info.endpoint_gid ∷ [])
        ++ map (λ e. e.endpoint_gid) infos
      ≡ seq
        ++ map
            (λ e. e.endpoint_gid)
            (if same_name && same_namespace && not leaves then info ∷ infos else infos)
kept-step true true true info infos seq = refl
kept-step true true false info infos seq =
    append_assoc seq (info.endpoint_gid ∷ []) (map (λ e. e.endpoint_gid) infos)
kept-step true false leaves info infos seq = refl
kept-step false same_namespace leaves info infos seq = refl

push_previous-remaining :
    (b : EntityBeacon) (gid : List ℕ) (infos : List EndpointInfo) (seq : List (List ℕ))
    → push_previous b gid infos seq ≡ seq ++ gids_remaining b gid infos
unfolding push_previous
push_previous-remaining b gid [] seq = sym (append-nil seq)
push_previous-remaining b gid (info ∷ infos) seq =
    push_previous-remaining b gid infos _
    ∙ kept-step (equal info.node_name b.node_name) (equal info.node_namespace b.node_namespace)
        (b.disconnect && equal gid info.endpoint_gid) info (chosen (remains b gid) infos) seq

push_topics-remaining :
    (b : EntityBeacon) (gid : List ℕ) (infos : List ℕ → List EndpointInfo) (names : List (List ℕ))
    (seq : List (List ℕ))
    → push_topics b gid infos names seq
      ≡ seq ++ joined (λ name. gids_remaining b gid (infos name)) names
unfolding push_topics
push_topics-remaining b gid infos [] seq = sym (append-nil seq)
push_topics-remaining b gid infos (name ∷ names) seq =
    push_topics-remaining b gid infos names (push_previous b gid (infos name) seq)
    ∙ ap (λ xs. xs ++ joined (λ n. gids_remaining b gid (infos n)) names)
        (push_previous-remaining b gid (infos name) seq)
    ∙ append_assoc seq (gids_remaining b gid (infos name))
        (joined (λ n. gids_remaining b gid (infos n)) names)

module _ {G : Type 0} (cache : GraphCache G) where
  -- The names of the topics that the node writes, as the graph gives them, and those that it reads.
  abbrev pub written : EntityBeacon → G → List (List ℕ)
  written b g = cache.get_writer_names_and_types_by_node g b.node_name b.node_namespace []

  abbrev pub read : EntityBeacon → G → List (List ℕ)
  read b g = cache.get_reader_names_and_types_by_node g b.node_name b.node_namespace (written b g)

  -- The entity, if it arrives, and the identifiers that the graph has for the node and that stay.
  abbrev pub node_described : EntityBeacon → List ℕ → G → NodeEntitiesInfo
  node_described b gid g = record {
    node_name = b.node_name;
    node_namespace = b.node_namespace;
    reader_gid_seq =
        (if not b.disconnect && is_reader b then gid ∷ [] else [])
        ++ joined (λ name. gids_remaining b gid (cache.get_readers_info_by_topic g name))
            (read b g);
    writer_gid_seq =
        (if not b.disconnect && not (is_reader b) then gid ∷ [] else [])
        ++ joined (λ name. gids_remaining b gid (cache.get_writers_info_by_topic g name))
            (written b g);
  }

  abbrev pub graph_described : EntityBeacon → List ℕ → G → G
  graph_described b gid g =
      let known = cache.update_participant_entities (node_described b gid g ∷ []) g in
      if b.disconnect
      then cache.remove_entity gid (is_reader b) known
      else cache.add_entity gid (to_string b.entity_type ++ b.topic_name) b.type_name (is_reader b)
          known

  entities_of-described :
      (b : EntityBeacon) (gid : List ℕ) (g : G) → entities_of cache b gid g ≡ node_described b gid g
  unfolding entities_of
  entities_of-described b gid g = rw (
    push_topics-remaining b gid (cache.get_readers_info_by_topic g) (read b g)
        (if not b.disconnect && is_reader b then gid ∷ [] else []),
    push_topics-remaining b gid (cache.get_writers_info_by_topic g) (written b g)
        (if not b.disconnect && not (is_reader b) then gid ∷ [] else []),
  )

  pub register-described :
      (b : EntityBeacon) (gid : List ℕ) (g : G) → register cache b gid g ≡ graph_described b gid g
  unfolding register
  register-described b gid g = rw (entities_of-described b gid g)
