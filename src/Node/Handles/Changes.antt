-- ===== src/Node/Handles/Changes.antt =====
-- The entities of src/rmw.cpp before and after a call that creates or destroys one.
use rmw_desert.Prelude.{◌≡◌, true, inl, inr, Bool-cases}
use rmw_desert.Topics.{TopicsConfig}
use rmw_desert.Node.{
  Endpoint, is_configured, announce, withdraw, add_publisher, add_subscriber, add_client,
  add_service, remove_publisher, remove_subscriber, remove_client, remove_service,
}
use rmw_desert.Node.Registry.{Unused}
use rmw_desert.Node.Handles.{
  Process, is_reserved, rmw_create_publisher, rmw_create_subscription, rmw_create_client,
  rmw_create_service, rmw_destroy_publisher, rmw_destroy_subscription, rmw_destroy_client,
  rmw_destroy_service,
}
use rmw_desert.Node.Handles.Tracked.{
  Listed, Follows, Follows-append, Follows-append_off, Follows-erase, Follows-erase_off,
}

-- The node's pointers are the live objects of each class whose topics have identifiers.
pub record IsTracked (config : TopicsConfig) (p : Process) : Type 0 where
  pub publishers : Follows config p.publishers p.node.publishers
  pub subscribers : Follows config p.subscribers p.node.subscribers
  pub clients : Follows config p.clients p.node.clients
  pub services : Follows config p.services p.node.services

module _ (config : TopicsConfig) (on : is_configured config "/discovery" ≡ true) where
  pub create_publisher-IsTracked :
      (e : Endpoint) (p : Process)
      → Unused e.address p.publishers
      → IsTracked config p
      → IsTracked config (rmw_create_publisher config e p).1
  unfolding rmw_create_publisher add_publisher announce
  create_publisher-IsTracked e p fresh h = elim (Bool-cases (is_reserved e.name)) [
    | inl taken ↦ rw taken h
    | inr free ↦ elim (Bool-cases (is_configured config e.name)) [
      | inl ok ↦
          rw (free, ok, on)
            (record {
              publishers =
                  Follows-append config p.publishers p.node.publishers e fresh free ok h.publishers;
              subscribers = h.subscribers;
              clients = h.clients;
              services = h.services;
            })
      | inr off ↦
          rw (free, off)
            (record {
              publishers =
                  Follows-append_off config p.publishers p.node.publishers e fresh free off
                    h.publishers;
              subscribers = h.subscribers;
              clients = h.clients;
              services = h.services;
            })
    ]
  ]

  pub destroy_publisher-IsTracked :
      (e : Endpoint) (p : Process)
      → Listed e p.publishers
      → IsTracked config p
      → IsTracked config (rmw_destroy_publisher config e p)
  unfolding rmw_destroy_publisher remove_publisher withdraw
  destroy_publisher-IsTracked e p listed h = elim (Bool-cases (is_configured config e.name)) [
    | inl ok ↦
        rw (ok, on)
          (record {
            publishers =
                Follows-erase config p.publishers p.node.publishers e listed ok h.publishers;
            subscribers = h.subscribers;
            clients = h.clients;
            services = h.services;
          })
    | inr off ↦ rw off (record {
      publishers =
          Follows-erase_off config p.publishers p.node.publishers e listed off h.publishers;
      subscribers = h.subscribers;
      clients = h.clients;
      services = h.services;
    })
  ]

  pub create_subscription-IsTracked :
      (e : Endpoint) (p : Process)
      → Unused e.address p.subscribers
      → IsTracked config p
      → IsTracked config (rmw_create_subscription config e p).1
  unfolding rmw_create_subscription add_subscriber announce
  create_subscription-IsTracked e p fresh h = elim (Bool-cases (is_reserved e.name)) [
    | inl taken ↦ rw taken h
    | inr free ↦ elim (Bool-cases (is_configured config e.name)) [
      | inl ok ↦
          rw (free, ok, on)
            (record {
              publishers = h.publishers;
              subscribers =
                  Follows-append config p.subscribers p.node.subscribers e fresh free ok
                    h.subscribers;
              clients = h.clients;
              services = h.services;
            })
      | inr off ↦
          rw (free, off)
            (record {
              publishers = h.publishers;
              subscribers =
                  Follows-append_off config p.subscribers p.node.subscribers e fresh free off
                    h.subscribers;
              clients = h.clients;
              services = h.services;
            })
    ]
  ]

  pub destroy_subscription-IsTracked :
      (e : Endpoint) (p : Process)
      → Listed e p.subscribers
      → IsTracked config p
      → IsTracked config (rmw_destroy_subscription config e p)
  unfolding rmw_destroy_subscription remove_subscriber withdraw
  destroy_subscription-IsTracked e p listed h = elim (Bool-cases (is_configured config e.name)) [
    | inl ok ↦
        rw (ok, on)
          (record {
            publishers = h.publishers;
            subscribers =
                Follows-erase config p.subscribers p.node.subscribers e listed ok h.subscribers;
            clients = h.clients;
            services = h.services;
          })
    | inr off ↦ rw off (record {
      publishers = h.publishers;
      subscribers =
          Follows-erase_off config p.subscribers p.node.subscribers e listed off h.subscribers;
      clients = h.clients;
      services = h.services;
    })
  ]

  pub create_client-IsTracked :
      (e : Endpoint) (p : Process)
      → Unused e.address p.clients
      → IsTracked config p
      → IsTracked config (rmw_create_client config e p).1
  unfolding rmw_create_client add_client announce
  create_client-IsTracked e p fresh h = elim (Bool-cases (is_reserved e.name)) [
    | inl taken ↦ rw taken h
    | inr free ↦ elim (Bool-cases (is_configured config e.name)) [
      | inl ok ↦
          rw (free, ok, on)
            (record {
              publishers = h.publishers;
              subscribers = h.subscribers;
              clients = Follows-append config p.clients p.node.clients e fresh free ok h.clients;
              services = h.services;
            })
      | inr off ↦
          rw (free, off)
            (record {
              publishers = h.publishers;
              subscribers = h.subscribers;
              clients =
                  Follows-append_off config p.clients p.node.clients e fresh free off h.clients;
              services = h.services;
            })
    ]
  ]

  pub destroy_client-IsTracked :
      (e : Endpoint) (p : Process)
      → Listed e p.clients
      → IsTracked config p
      → IsTracked config (rmw_destroy_client config e p)
  unfolding rmw_destroy_client remove_client withdraw
  destroy_client-IsTracked e p listed h = elim (Bool-cases (is_configured config e.name)) [
    | inl ok ↦
        rw (ok, on)
          (record {
            publishers = h.publishers;
            subscribers = h.subscribers;
            clients = Follows-erase config p.clients p.node.clients e listed ok h.clients;
            services = h.services;
          })
    | inr off ↦ rw off (record {
      publishers = h.publishers;
      subscribers = h.subscribers;
      clients = Follows-erase_off config p.clients p.node.clients e listed off h.clients;
      services = h.services;
    })
  ]

  pub create_service-IsTracked :
      (e : Endpoint) (p : Process)
      → Unused e.address p.services
      → IsTracked config p
      → IsTracked config (rmw_create_service config e p).1
  unfolding rmw_create_service add_service announce
  create_service-IsTracked e p fresh h = elim (Bool-cases (is_reserved e.name)) [
    | inl taken ↦ rw taken h
    | inr free ↦ elim (Bool-cases (is_configured config e.name)) [
      | inl ok ↦
          rw (free, ok, on)
            (record {
              publishers = h.publishers;
              subscribers = h.subscribers;
              clients = h.clients;
              services =
                  Follows-append config p.services p.node.services e fresh free ok h.services;
            })
      | inr off ↦
          rw (free, off)
            (record {
              publishers = h.publishers;
              subscribers = h.subscribers;
              clients = h.clients;
              services =
                  Follows-append_off config p.services p.node.services e fresh free off h.services;
            })
    ]
  ]

  pub destroy_service-IsTracked :
      (e : Endpoint) (p : Process)
      → Listed e p.services
      → IsTracked config p
      → IsTracked config (rmw_destroy_service config e p)
  unfolding rmw_destroy_service remove_service withdraw
  destroy_service-IsTracked e p listed h = elim (Bool-cases (is_configured config e.name)) [
    | inl ok ↦
        rw (ok, on)
          (record {
            publishers = h.publishers;
            subscribers = h.subscribers;
            clients = h.clients;
            services = Follows-erase config p.services p.node.services e listed ok h.services;
          })
    | inr off ↦ rw off (record {
      publishers = h.publishers;
      subscribers = h.subscribers;
      clients = h.clients;
      services = Follows-erase_off config p.services p.node.services e listed off h.services;
    })
  ]
