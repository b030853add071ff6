-- ===== src/Node/Requests.antt =====
-- The rounds in which src/desert_classes/DesertNode.cpp answers requests.
use mathlib.Core.List.{append_assoc, append-nil}
use rmw_desert.Prelude.{
  ℕ, zero, suc, ◌≡◌, false, ap, ◌∙◌, List, [], ◌∷◌, ◌++◌, map, arith, replicate, ◌≤◌,
}
use rmw_desert.Prelude.Int.{ℤ}
use rmw_desert.Cbor.Rx.{Field, Lookup, RxStream, data_available, take_front, same}
use rmw_desert.Cbor.Interpret.{publisher_type, subscriber_type, client_type, service_type}
use rmw_desert.Node.{
  Endpoint, Beacon, Node, beacon_of, announce, announce_all, publish_all_beacons, discovery_request,
  discovery_requests,
}

-- One beacon for each endpoint.
abbrev pub announcements : Node → List Beacon
announcements n =
    map (beacon_of n publisher_type) n.publishers
    ++ (map (beacon_of n subscriber_type) n.subscribers
        ++ (map (beacon_of n client_type) n.clients ++ map (beacon_of n service_type) n.services))

abbrev pub sent : List Beacon → Node → Node
sent bs n = record n { beacons = n.beacons ++ bs }

abbrev pub repeated : ℕ → List Beacon → List Beacon
repeated zero bs = []
repeated (suc k) bs = bs ++ repeated k bs

append-four {ℓ} :
    {A : Type ℓ} (b p q r s : List A) → (((b ++ p) ++ q) ++ r) ++ s ≡ b ++ (p ++ (q ++ (r ++ s)))
append-four b p q r s =
    append_assoc ((b ++ p) ++ q) r s
    ∙ append_assoc (b ++ p) q (r ++ s)
    ∙ append_assoc b p (q ++ (r ++ s))

announce_all-sent :
    (entity_type : ℕ) (es : List Endpoint) (n : Node)
    → announce_all entity_type es n ≡ sent (map (beacon_of n entity_type) es) n
unfolding announce_all announce
announce_all-sent entity_type [] n = rw (append-nil n.beacons)
announce_all-sent entity_type (e ∷ es) n =
    announce_all-sent entity_type es (sent (beacon_of n entity_type e ∷ []) n)
    ∙ ap (λ bs. record n { beacons = bs })
        (append_assoc n.beacons (beacon_of n entity_type e ∷ []) (map (beacon_of n entity_type) es))

-- A request is answered with one beacon for each endpoint that is registered, and nothing else changes.
pub publish_all_beacons-announcements :
    (n : Node) → publish_all_beacons n ≡ sent (announcements n) n
unfolding publish_all_beacons
publish_all_beacons-announcements n =
    rw
      (
        announce_all-sent publisher_type n.publishers n,
        announce_all-sent subscriber_type n.subscribers
            (sent (map (beacon_of n publisher_type) n.publishers) n),
        announce_all-sent client_type n.clients,
        announce_all-sent service_type n.services,
      )
      (ap (λ bs. record n { beacons = bs })
        (append-four n.beacons (map (beacon_of n publisher_type) n.publishers)
          (map (beacon_of n subscriber_type) n.subscribers)
          (map (beacon_of n client_type) n.clients) (map (beacon_of n service_type) n.services)))

-- The stream of requests with `k` of them received: a request has no fields.
abbrev pub requested : {F : Type 0} → ℕ → ℕ → ℕ → RxStream F
requested type identifier k = record {
  stream_type = type;
  stream_identifier = identifier;
  buffered_iterator = 0;
  buffered_packet = [];
  received_packets = replicate k [];
  overrun = false;
}

module _ {F : Type 0} (alias : Field F → ℤ) where
  -- Each request that has been received is answered once, with one beacon for each endpoint, in as many
  -- rounds as there are requests, and further rounds send nothing.
  pub discovery_requests_answered :
      (rounds k type identifier : ℕ) (n : Node)
      → k ≤ rounds
      → discovery_requests alias rounds (requested type identifier k) n
        ≡ Lookup.returns (requested type identifier 0, sent (repeated k (announcements n)) n)
  unfolding discovery_requests discovery_request data_available take_front same
  discovery_requests_answered zero zero type identifier n h = rw (append-nil n.beacons)
  discovery_requests_answered zero (suc k) type identifier n h = absurd (omega arith)
  discovery_requests_answered (suc rounds) zero type identifier n h =
      discovery_requests_answered rounds zero type identifier n (omega arith)
  discovery_requests_answered (suc rounds) (suc k) type identifier n h =
      ap (discovery_requests alias rounds (requested type identifier k))
        (publish_all_beacons-announcements n)
      ∙ discovery_requests_answered rounds k type identifier (sent (announcements n) n)
          (omega arith)
      ∙ rw (append_assoc n.beacons (announcements n) (repeated k (announcements n)))
