-- ===== src/Node/Beacons.antt =====
-- The beacons that src/desert_classes/DesertNode.cpp sends when an endpoint is added and removed.
use mathlib.Core.List.{append_assoc}
use rmw_desert.Prelude.{
  ℕ, ◌≡◌, ap, true, false, not, List, [], ◌∷◌, ◌++◌, if◌then◌else◌, inl, inr, arith, Bool-cases,
}
use rmw_desert.Topics.{TopicsConfig}
use rmw_desert.Cbor.Interpret.{publisher_type, subscriber_type, client_type, service_type}
use rmw_desert.Node.{
  Endpoint, Beacon, Node, is_configured, announce, withdraw, erase, add_publisher, add_subscriber,
  add_client, add_service, remove_publisher, remove_subscriber, remove_client, remove_service,
}
use rmw_desert.Node.Registry.{Unused}

-- What the other nodes are told of an endpoint that comes.
abbrev pub arrival : Node → ℕ → Endpoint → Beacon
arrival n entity_type e = record {
  node_name = n.name;
  node_namespace = n.namespace;
  entity_type = entity_type;
  gid = e.gid;
  entity_name = e.name;
  type_name = e.type_name;
  disconnect = false;
}

-- And of one that goes: its identifier, without names.
abbrev pub departure : Node → ℕ → Endpoint → Beacon
departure n entity_type e = record {
  node_name = n.name;
  node_namespace = n.namespace;
  entity_type = entity_type;
  gid = e.gid;
  entity_name = "";
  type_name = "";
  disconnect = true;
}

-- The node after an endpoint was added and removed, `kept` being the node that still has it.
abbrev pub after_both : TopicsConfig → ℕ → Endpoint → Node → Node → Node
after_both config entity_type e n kept =
    if not (is_configured config e.name)
    then n
    else if not (is_configured config "/discovery")
    then kept
    else record n {
      beacons = n.beacons ++ arrival n entity_type e ∷ departure n entity_type e ∷ [];
    }

erase-append :
    (e : Endpoint) (es : List Endpoint) → Unused e.address es → erase e.address (es ++ e ∷ []) ≡ es
unfolding erase
erase-append e [] h = ground arith
erase-append e (x ∷ es) h = ground (arith, erase-append e es h.1)

-- Two beacons that are sent one after the other.
two_beacons :
    (n : Node) (a b : Beacon)
    → ◌≡◌ {A = Node}
        (record n { beacons = (n.beacons ++ a ∷ []) ++ b ∷ [] })
        (record n { beacons = n.beacons ++ a ∷ b ∷ [] })
two_beacons n a b = ap (λ bs. record n { beacons = bs }) (append_assoc n.beacons (a ∷ []) (b ∷ []))

module _ (config : TopicsConfig) where
  remove_publisher-add_publisher :
      (e : Endpoint) (n : Node)
      → Unused e.address n.publishers
      → remove_publisher config e (add_publisher config e n)
        ≡ after_both config publisher_type e n (record n { publishers = n.publishers ++ e ∷ [] })
  unfolding remove_publisher add_publisher withdraw announce
  remove_publisher-add_publisher e n fresh = elim (Bool-cases (is_configured config e.name)) [
    | inl ok ↦ elim (Bool-cases (is_configured config "/discovery")) [
      | inl on ↦
          rw (ok, on, erase-append e n.publishers fresh)
            (two_beacons n (arrival n publisher_type e) (departure n publisher_type e))
      | inr off ↦ rw (ok, off)
    ]
    | inr off ↦ rw off
  ]

  remove_subscriber-add_subscriber :
      (e : Endpoint) (n : Node)
      → Unused e.address n.subscribers
      → remove_subscriber config e (add_subscriber config e n)
        ≡ after_both config subscriber_type e n (record n { subscribers = n.subscribers ++ e ∷ [] })
  unfolding remove_subscriber add_subscriber withdraw announce
  remove_subscriber-add_subscriber e n fresh = elim (Bool-cases (is_configured config e.name)) [
    | inl ok ↦ elim (Bool-cases (is_configured config "/discovery")) [
      | inl on ↦
          rw (ok, on, erase-append e n.subscribers fresh)
            (two_beacons n (arrival n subscriber_type e) (departure n subscriber_type e))
      | inr off ↦ rw (ok, off)
    ]
    | inr off ↦ rw off
  ]

  remove_client-add_client :
      (e : Endpoint) (n : Node)
      → Unused e.address n.clients
      → remove_client config e (add_client config e n)
        ≡ after_both config client_type e n (record n { clients = n.clients ++ e ∷ [] })
  unfolding remove_client add_client withdraw announce
  remove_client-add_client e n fresh = elim (Bool-cases (is_configured config e.name)) [
    | inl ok ↦ elim (Bool-cases (is_configured config "/discovery")) [
      | inl on ↦
          rw (ok, on, erase-append e n.clients fresh)
            (two_beacons n (arrival n client_type e) (departure n client_type e))
      | inr off ↦ rw (ok, off)
    ]
    | inr off ↦ rw off
  ]

  remove_service-add_service :
      (e : Endpoint) (n : Node)
      → Unused e.address n.services
      → remove_service config e (add_service config e n)
        ≡ after_both config service_type e n (record n { services = n.services ++ e ∷ [] })
  unfolding remove_service add_service withdraw announce
  remove_service-add_service e n fresh = elim (Bool-cases (is_configured config e.name)) [
    | inl ok ↦ elim (Bool-cases (is_configured config "/discovery")) [
      | inl on ↦
          rw (ok, on, erase-append e n.services fresh)
            (two_beacons n (arrival n service_type e) (departure n service_type e))
      | inr off ↦ rw (ok, off)
    ]
    | inr off ↦ rw off
  ]

  -- An endpoint of any class that is added and removed leaves the node as it was where its topic has no
  -- identifier. With one, and one for `/discovery`, all that is left of it are two beacons behind those
  -- of before, one with its identifier and names and one with its identifier, without names, that says
  -- it is gone. With none for `/discovery` no beacon is sent, and the endpoint stays registered behind
  -- the others. Condition: its address was not registered for the class.
  pub endpoint_comes_and_goes :
      (e : Endpoint) (n : Node)
      → Unused e.address n.publishers
      → Unused e.address n.subscribers
      → Unused e.address n.clients
      → Unused e.address n.services
      → (remove_publisher config e (add_publisher config e n)
          ≡ after_both config publisher_type e n (record n { publishers = n.publishers ++ e ∷ [] }))
        × (remove_subscriber config e (add_subscriber config e n)
            ≡ after_both config subscriber_type e n
                (record n { subscribers = n.subscribers ++ e ∷ [] }))
        × (remove_client config e (add_client config e n)
            ≡ after_both config client_type e n (record n { clients = n.clients ++ e ∷ [] }))
        × (remove_service config e (add_service config e n)
            ≡ after_both config service_type e n (record n { services = n.services ++ e ∷ [] }))
  endpoint_comes_and_goes e n p s c v = (
    remove_publisher-add_publisher e n p,
    remove_subscriber-add_subscriber e n s,
    remove_client-add_client e n c,
    remove_service-add_service e n v,
  )
