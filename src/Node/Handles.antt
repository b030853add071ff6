-- ===== src/Node/Handles.antt =====
-- The entry points of src/rmw.cpp that create and destroy the entities of a node. An entity is the
-- object behind `data` of the handle: what `new` and the constructor make of it is an argument.
pub mod Tracked
pub mod Changes
pub mod Lifetime
use Prim.Native.String.{String}
use text.Mathlib.Text.{◌==◌ as str_eq}
use rmw_desert.Prelude.{ℕ, Bool, ◌||◌, Option, none, some, List, [], ◌∷◌, ◌++◌, if◌then◌else◌}
use rmw_desert.Topics.{TopicsConfig}
use rmw_desert.Node.{
  Endpoint, Node, add_publisher, add_subscriber, add_client, add_service, erase, remove_publisher,
  remove_subscriber, remove_client, remove_service,
}

-- A node, and the entities of each class that are made with `new` and not deleted, the oldest first.
pub record Process : Type 0 where
  pub node : Node
  pub publishers : List Endpoint
  pub subscribers : List Endpoint
  pub clients : List Endpoint
  pub services : List Endpoint

-- The names that the entry points refuse.
unfoldable pub is_reserved : String → Bool
is_reserved name = str_eq name "/discovery" || str_eq name "/discovery_request"

module _ (config : TopicsConfig) where
  -- The first part is the handle, or `none` for the null pointer.
  unfoldable pub rmw_create_publisher : Endpoint → Process → Option Endpoint × Process
  rmw_create_publisher pub_ p = if is_reserved pub_.name then (none, p) else (
    some pub_,
    record p { node = add_publisher config pub_ p.node; publishers = p.publishers ++ pub_ ∷ [] },
  )

  unfoldable pub rmw_create_subscription : Endpoint → Process → Option Endpoint × Process
  rmw_create_subscription sub p = if is_reserved sub.name then (none, p) else (
    some sub,
    record p { node = add_subscriber config sub p.node; subscribers = p.subscribers ++ sub ∷ [] },
  )

  unfoldable pub rmw_create_client : Endpoint → Process → Option Endpoint × Process
  rmw_create_client cli p = if is_reserved cli.name then (none, p) else (
    some cli,
    record p { node = add_client config cli p.node; clients = p.clients ++ cli ∷ [] },
  )

  unfoldable pub rmw_create_service : Endpoint → Process → Option Endpoint × Process
  rmw_create_service ser p = if is_reserved ser.name then (none, p) else (
    some ser,
    record p { node = add_service config ser p.node; services = p.services ++ ser ∷ [] },
  )

  unfoldable pub rmw_destroy_publisher : Endpoint → Process → Process
  rmw_destroy_publisher pub_ p = record p {
    node = remove_publisher config pub_ p.node;
    publishers = erase pub_.address p.publishers;
  }

  unfoldable pub rmw_destroy_subscription : Endpoint → Process → Process
  rmw_destroy_subscription sub p = record p {
    node = remove_subscriber config sub p.node;
    subscribers = erase sub.address p.subscribers;
  }

  unfoldable pub rmw_destroy_client : Endpoint → Process → Process
  rmw_destroy_client cli p = record p {
    node = remove_client config cli p.node;
    clients = erase cli.address p.clients;
  }

  unfoldable pub rmw_destroy_service : Endpoint → Process → Process
  rmw_destroy_service ser p = record p {
    node = remove_service config ser p.node;
    services = erase ser.address p.services;
  }
