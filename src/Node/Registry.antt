-- ===== src/Node/Registry.antt =====
-- The endpoints that src/desert_classes/DesertNode.cpp has registered, over any calls of its operations.
use rmw_desert.Prelude.{
  inl, inr, Bool-cases, ℕ, ◌≡◌, ◌≢◌, refl, Bool, true, false, not, List, [], ◌∷◌, ◌++◌, ◌==◌,
  if◌then◌else◌, All,
}
use rmw_desert.Topics.{TopicsConfig}
use rmw_desert.Cbor.Interpret.{publisher_type, subscriber_type, client_type, service_type}
use rmw_desert.Node.{
  Endpoint, Node, is_configured, announce, withdraw, add_publisher, add_subscriber, add_client,
  add_service, erase, remove_publisher, remove_subscriber, remove_client, remove_service,
  announce_all, publish_all_beacons,
}

-- One call.
pub data Step (config : TopicsConfig) : Node → Node → Type 0 where
  adds_publisher : (e : Endpoint) (n : Node) → Step config n (add_publisher config e n)
  adds_subscriber : (e : Endpoint) (n : Node) → Step config n (add_subscriber config e n)
  adds_client : (e : Endpoint) (n : Node) → Step config n (add_client config e n)
  adds_service : (e : Endpoint) (n : Node) → Step config n (add_service config e n)
  removes_publisher : (e : Endpoint) (n : Node) → Step config n (remove_publisher config e n)
  removes_subscriber : (e : Endpoint) (n : Node) → Step config n (remove_subscriber config e n)
  removes_client : (e : Endpoint) (n : Node) → Step config n (remove_client config e n)
  removes_service : (e : Endpoint) (n : Node) → Step config n (remove_service config e n)
  publishes : (n : Node) → Step config n (publish_all_beacons n)

-- Any number of calls.
pub data Steps (config : TopicsConfig) : Node → Node → Type 0 where
  stop : (n : Node) → Steps config n n
  after : (l m n : Node) → Step config l m → Steps config m n → Steps config l n

abbrev pub Allowed : TopicsConfig → List Endpoint → Type 0
Allowed config es = All (λ e. is_configured config e.name ≡ true) es

-- Every endpoint that is registered has a topic identifier.
pub record IsAllowed (config : TopicsConfig) (n : Node) : Type 0 where
  pub publishers : Allowed config n.publishers
  pub subscribers : Allowed config n.subscribers
  pub clients : Allowed config n.clients
  pub services : Allowed config n.services

pub All-append_one :
    (P : Endpoint → Type 0) (es : List Endpoint) (e : Endpoint)
    → All P es
    → P e
    → All P (es ++ e ∷ [])
All-append_one P [] e h p = (p, tt)
All-append_one P (x ∷ es) e h p = (h.0, All-append_one P es e h.1 p)

pub All-erase :
    (P : Endpoint → Type 0) (address : ℕ) (es : List Endpoint) → All P es → All P (erase address es)
unfolding erase
All-erase P address [] h = h
All-erase P address (e ∷ es) h = elim (Bool-cases (e.address == address)) [
  | inl hit ↦ rw hit h.1
  | inr other ↦ rw other (h.0, All-erase P address es h.1)
]

-- No endpoint of the list has the address.
abbrev pub Unused : ℕ → List Endpoint → Type 0
Unused address es = All (λ x. x.address ≢ address) es

module _ (config : TopicsConfig) where
  guarded :
      (b : Bool) (n m : Node)
      → IsAllowed config n
      → (b ≡ true → IsAllowed config m)
      → IsAllowed config (if not b then n else m)
  guarded true n m here there = there refl
  guarded false n m here there = here

  announce-IsAllowed :
      (entity_type : ℕ) (e : Endpoint) (n : Node)
      → IsAllowed config n
      → IsAllowed config (announce entity_type e n)
  unfolding announce
  announce-IsAllowed entity_type e n h = record {
    publishers = h.publishers;
    subscribers = h.subscribers;
    clients = h.clients;
    services = h.services;
  }

  announce_all-IsAllowed :
      (entity_type : ℕ) (es : List Endpoint) (n : Node)
      → IsAllowed config n
      → IsAllowed config (announce_all entity_type es n)
  unfolding announce_all
  announce_all-IsAllowed entity_type [] n h = h
  announce_all-IsAllowed entity_type (e ∷ es) n h =
      announce_all-IsAllowed entity_type es (announce entity_type e n)
        (announce-IsAllowed entity_type e n h)

  add_publisher-IsAllowed :
      (e : Endpoint) (n : Node) → IsAllowed config n → IsAllowed config (add_publisher config e n)
  unfolding add_publisher
  add_publisher-IsAllowed e n h =
      let more : Node = record n { publishers = n.publishers ++ e ∷ [] } in
      let on = is_configured config "/discovery" in
      let told : Node = announce publisher_type e more in
      guarded (is_configured config e.name) n (if not on then more else told) h (λ ok.
        let added : IsAllowed config more = record {
          publishers =
              All-append_one (λ x. is_configured config x.name ≡ true) n.publishers e h.publishers
                ok;
          subscribers = h.subscribers;
          clients = h.clients;
          services = h.services;
        } in
        guarded on more told added (λ yes. announce-IsAllowed publisher_type e more added))

  remove_publisher-IsAllowed :
      (e : Endpoint) (n : Node)
      → IsAllowed config n
      → IsAllowed config (remove_publisher config e n)
  unfolding remove_publisher withdraw
  remove_publisher-IsAllowed e n h =
      let on = is_configured config "/discovery" in
      let left : Node = record (withdraw publisher_type e n) {
        publishers = erase e.address n.publishers;
      } in
      guarded (is_configured config e.name) n (if not on then n else left) h (λ ok.
        guarded on n left h (λ yes. record {
          publishers =
              All-erase (λ x. is_configured config x.name ≡ true) e.address n.publishers
                h.publishers;
          subscribers = h.subscribers;
          clients = h.clients;
          services = h.services;
        }))

  add_subscriber-IsAllowed :
      (e : Endpoint) (n : Node) → IsAllowed config n → IsAllowed config (add_subscriber config e n)
  unfolding add_subscriber
  add_subscriber-IsAllowed e n h =
      let more : Node = record n { subscribers = n.subscribers ++ e ∷ [] } in
      let on = is_configured config "/discovery" in
      let told : Node = announce subscriber_type e more in
      guarded (is_configured config e.name) n (if not on then more else told) h (λ ok.
        let added : IsAllowed config more = record {
          publishers = h.publishers;
          subscribers =
              All-append_one (λ x. is_configured config x.name ≡ true) n.subscribers e h.subscribers
                ok;
          clients = h.clients;
          services = h.services;
        } in
        guarded on more told added (λ yes. announce-IsAllowed subscriber_type e more added))

  remove_subscriber-IsAllowed :
      (e : Endpoint) (n : Node)
      → IsAllowed config n
      → IsAllowed config (remove_subscriber config e n)
  unfolding remove_subscriber withdraw
  remove_subscriber-IsAllowed e n h =
      let on = is_configured config "/discovery" in
      let left : Node = record (withdraw subscriber_type e n) {
        subscribers = erase e.address n.subscribers;
      } in
      guarded (is_configured config e.name) n (if not on then n else left) h (λ ok.
        guarded on n left h (λ yes. record {
          publishers = h.publishers;
          subscribers =
              All-erase (λ x. is_configured config x.name ≡ true) e.address n.subscribers
                h.subscribers;
          clients = h.clients;
          services = h.services;
        }))

  add_client-IsAllowed :
      (e : Endpoint) (n : Node) → IsAllowed config n → IsAllowed config (add_client config e n)
  unfolding add_client
  add_client-IsAllowed e n h =
      let more : Node = record n { clients = n.clients ++ e ∷ [] } in
      let on = is_configured config "/discovery" in
      let told : Node = announce client_type e more in
      guarded (is_configured config e.name) n (if not on then more else told) h (λ ok.
        let added : IsAllowed config more = record {
          publishers = h.publishers;
          subscribers = h.subscribers;
          clients =
              All-append_one (λ x. is_configured config x.name ≡ true) n.clients e h.clients ok;
          services = h.services;
        } in
        guarded on more told added (λ yes. announce-IsAllowed client_type e more added))

  remove_client-IsAllowed :
      (e : Endpoint) (n : Node) → IsAllowed config n → IsAllowed config (remove_client config e n)
  unfolding remove_client withdraw
  remove_client-IsAllowed e n h =
      let on = is_configured config "/discovery" in
      let left : Node = record (withdraw client_type e n) { clients = erase e.address n.clients } in
      guarded (is_configured config e.name) n (if not on then n else left) h (λ ok.
        guarded on n left h (λ yes. record {
          publishers = h.publishers;
          subscribers = h.subscribers;
          clients =
              All-erase (λ x. is_configured config x.name ≡ true) e.address n.clients h.clients;
          services = h.services;
        }))

  add_service-IsAllowed :
      (e : Endpoint) (n : Node) → IsAllowed config n → IsAllowed config (add_service config e n)
  unfolding add_service
  add_service-IsAllowed e n h =
      let more : Node = record n { services = n.services ++ e ∷ [] } in
      let on = is_configured config "/discovery" in
      let told : Node = announce service_type e more in
      guarded (is_configured config e.name) n (if not on then more else told) h (λ ok.
        let added : IsAllowed config more = record {
          publishers = h.publishers;
          subscribers = h.subscribers;
          clients = h.clients;
          services =
              All-append_one (λ x. is_configured config x.name ≡ true) n.services e h.services ok;
        } in
        guarded on more told added (λ yes. announce-IsAllowed service_type e more added))

  remove_service-IsAllowed :
      (e : Endpoint) (n : Node) → IsAllowed config n → IsAllowed config (remove_service config e n)
  unfolding remove_service withdraw
  remove_service-IsAllowed e n h =
      let on = is_configured config "/discovery" in
      let left : Node = record (withdraw service_type e n) {
        services = erase e.address n.services;
      } in
      guarded (is_configured config e.name) n (if not on then n else left) h (λ ok.
        guarded on n left h (λ yes. record {
          publishers = h.publishers;
          subscribers = h.subscribers;
          clients = h.clients;
          services =
              All-erase (λ x. is_configured config x.name ≡ true) e.address n.services h.services;
        }))

  Step-IsAllowed : (m n : Node) → Step config m n → IsAllowed config m → IsAllowed config n
  unfolding publish_all_beacons
  Step-IsAllowed m n (Step.adds_publisher e _) h = add_publisher-IsAllowed e m h
  Step-IsAllowed m n (Step.adds_subscriber e _) h = add_subscriber-IsAllowed e m h
  Step-IsAllowed m n (Step.adds_client e _) h = add_client-IsAllowed e m h
  Step-IsAllowed m n (Step.adds_service e _) h = add_service-IsAllowed e m h
  Step-IsAllowed m n (Step.removes_publisher e _) h = remove_publisher-IsAllowed e m h
  Step-IsAllowed m n (Step.removes_subscriber e _) h = remove_subscriber-IsAllowed e m h
  Step-IsAllowed m n (Step.removes_client e _) h = remove_client-IsAllowed e m h
  Step-IsAllowed m n (Step.removes_service e _) h = remove_service-IsAllowed e m h
  Step-IsAllowed m n (Step.publishes _) h =
      let p = announce_all publisher_type m.publishers m in
      let q = announce_all subscriber_type m.subscribers p in
      let r = announce_all client_type m.clients q in
      announce_all-IsAllowed service_type m.services r (
        announce_all-IsAllowed client_type m.clients q (
          announce_all-IsAllowed subscriber_type m.subscribers p
            (announce_all-IsAllowed publisher_type m.publishers m h)))

  -- Whatever calls are made, in any order, a node whose endpoints all have topic identifiers stays such
  -- a node.
  pub Steps-IsAllowed : (m n : Node) → Steps config m n → IsAllowed config m → IsAllowed config n
  Steps-IsAllowed m n (Steps.stop _) h = h
  Steps-IsAllowed l n (Steps.after _ m _ step steps) h =
      Steps-IsAllowed m n steps (Step-IsAllowed l m step h)
