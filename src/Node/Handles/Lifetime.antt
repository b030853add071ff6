-- ===== src/Node/Handles/Lifetime.antt =====
-- The entities of src/rmw.cpp over any calls that create and destroy them.
use rmw_desert.Prelude.{◌≡◌, true}
use rmw_desert.Topics.{TopicsConfig}
use rmw_desert.Node.{Endpoint, is_configured, publish_all_beacons}
use rmw_desert.Node.Registry.{Unused}
use rmw_desert.Node.Requests.{publish_all_beacons-announcements}
use rmw_desert.Node.Handles.{
  Process, rmw_create_publisher, rmw_create_subscription, rmw_create_client, rmw_create_service,
  rmw_destroy_publisher, rmw_destroy_subscription, rmw_destroy_client, rmw_destroy_service,
}
use rmw_desert.Node.Handles.Changes.{
  IsTracked, create_publisher-IsTracked, destroy_publisher-IsTracked, create_subscription-IsTracked,
  destroy_subscription-IsTracked, create_client-IsTracked, destroy_client-IsTracked,
  create_service-IsTracked, destroy_service-IsTracked,
}
use rmw_desert.Node.Handles.Tracked.{Listed}

-- One call, or a request that is answered: `new` gives an address that no live object of the class has,
-- and what is destroyed is live.
pub data Step (config : TopicsConfig) : Process → Process → Type 0 where
  creates_publisher :
      (e : Endpoint) (p : Process)
      → Unused e.address p.publishers
      → Step config p (rmw_create_publisher config e p).1
  destroys_publisher :
      (e : Endpoint) (p : Process)
      → Listed e p.publishers
      → Step config p (rmw_destroy_publisher config e p)
  creates_subscription :
      (e : Endpoint) (p : Process)
      → Unused e.address p.subscribers
      → Step config p (rmw_create_subscription config e p).1
  destroys_subscription :
      (e : Endpoint) (p : Process)
      → Listed e p.subscribers
      → Step config p (rmw_destroy_subscription config e p)
  creates_client :
      (e : Endpoint) (p : Process)
      → Unused e.address p.clients
      → Step config p (rmw_create_client config e p).1
  destroys_client :
      (e : Endpoint) (p : Process)
      → Listed e p.clients
      → Step config p (rmw_destroy_client config e p)
  creates_service :
      (e : Endpoint) (p : Process)
      → Unused e.address p.services
      → Step config p (rmw_create_service config e p).1
  destroys_service :
      (e : Endpoint) (p : Process)
      → Listed e p.services
      → Step config p (rmw_destroy_service config e p)
  answers : (p : Process) → Step config p (record p { node = publish_all_beacons p.node })

pub data Steps (config : TopicsConfig) : Process → Process → Type 0 where
  stop : (p : Process) → Steps config p p
  after : (p q r : Process) → Step config p q → Steps config q r → Steps config p r

module _ (config : TopicsConfig) (on : is_configured config "/discovery" ≡ true) where
  Step-IsTracked : (p q : Process) → Step config p q → IsTracked config p → IsTracked config q
  Step-IsTracked p q (Step.creates_publisher e _ fresh) h =
      create_publisher-IsTracked config on e p fresh h
  Step-IsTracked p q (Step.destroys_publisher e _ listed) h =
      destroy_publisher-IsTracked config on e p listed h
  Step-IsTracked p q (Step.creates_subscription e _ fresh) h =
      create_subscription-IsTracked config on e p fresh h
  Step-IsTracked p q (Step.destroys_subscription e _ listed) h =
      destroy_subscription-IsTracked config on e p listed h
  Step-IsTracked p q (Step.creates_client e _ fresh) h =
      create_client-IsTracked config on e p fresh h
  Step-IsTracked p q (Step.destroys_client e _ listed) h =
      destroy_client-IsTracked config on e p listed h
  Step-IsTracked p q (Step.creates_service e _ fresh) h =
      create_service-IsTracked config on e p fresh h
  Step-IsTracked p q (Step.destroys_service e _ listed) h =
      destroy_service-IsTracked config on e p listed h
  Step-IsTracked p q (Step.answers _) h = rw (publish_all_beacons-announcements p.node) (record {
    publishers = h.publishers;
    subscribers = h.subscribers;
    clients = h.clients;
    services = h.services;
  })

  -- With an identifier for `/discovery`, over any calls that create entities, destroy live ones and
  -- answer requests, in any order: the pointers that the node keeps are, in order, those of the live
  -- entities of the class whose topics have identifiers, so that none is left behind by `delete`, and no
  -- live entity has a reserved name.
  pub Steps-IsTracked : (p q : Process) → Steps config p q → IsTracked config p → IsTracked config q
  Steps-IsTracked p q (Steps.stop _) h = h
  Steps-IsTracked p r (Steps.after _ q _ step steps) h =
      Steps-IsTracked q r steps (Step-IsTracked p q step h)
