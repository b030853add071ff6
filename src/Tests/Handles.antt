-- ===== src/Tests/Handles.antt =====
-- A process of src/rmw.cpp that creates two publishers, of which the second has no topic identifier, and
-- destroys the first.
use Prim.Native.String.{String}
use rmw_desert.Prelude.{ℕ, ◌≡◌, refl, true, none, [], ◌∷◌, inl, arith, ◌≢◌}
use rmw_desert.Topics.{TopicsConfig, load_configuration, get_topic_identifier, find_name}
use rmw_desert.Node.{Endpoint, is_configured}
use rmw_desert.Node.Handles.{Process, is_reserved, rmw_create_publisher, rmw_destroy_publisher}
use rmw_desert.Node.Handles.Tracked.{Follows}
use rmw_desert.Node.Handles.Changes.{IsTracked}
use rmw_desert.Node.Handles.Lifetime.{Step, Steps, Steps-IsTracked}

abbrev config : TopicsConfig
config = load_configuration (("/discovery", 1) ∷ ("chatter", 3) ∷ [])

abbrev publisher : ℕ → String → Endpoint
publisher address name = record {
  address = address;
  name = name;
  type_name = "String";
  gid = address ∷ [];
}

abbrev talker : Endpoint
talker = publisher 4096 "chatter"

abbrev whisperer : Endpoint
whisperer = publisher 8192 "quiet"

abbrev fresh : Process
fresh = record {
  node = record {
    name = "node";
    namespace = "/";
    publishers = [];
    subscribers = [];
    clients = [];
    services = [];
    beacons = [];
  };
  publishers = [];
  subscribers = [];
  clients = [];
  services = [];
}

none_yet : Follows config [] []
none_yet = record { same = refl; distinct = tt; unreserved = tt }

fresh-IsTracked : IsTracked config fresh
fresh-IsTracked = record {
  publishers = none_yet;
  subscribers = none_yet;
  clients = none_yet;
  services = none_yet;
}

abbrev talking : Process
talking = (rmw_create_publisher config talker fresh).1

abbrev both : Process
both = (rmw_create_publisher config whisperer talking).1

discovery_configured : is_configured config "/discovery" ≡ true
unfolding is_configured get_topic_identifier load_configuration find_name
discovery_configured = refl

talking_publishers : talking.publishers ≡ talker ∷ []
unfolding rmw_create_publisher is_reserved
talking_publishers = refl

both_publishers : both.publishers ≡ talker ∷ whisperer ∷ []
unfolding rmw_create_publisher is_reserved
both_publishers = refl

apart : talker.address ≢ whisperer.address
apart = omega arith

steps : Steps config fresh (rmw_destroy_publisher config talker both)
steps = Steps.after fresh talking _ (Step.creates_publisher talker fresh tt) (
    Steps.after talking both _
      (Step.creates_publisher whisperer talking (rw talking_publishers (apart, tt)))
      (Steps.after both _ _ (Step.destroys_publisher talker both (rw both_publishers (inl refl)))
        (Steps.stop _)))

Steps-IsTracked_example : IsTracked config (rmw_destroy_publisher config talker both)
Steps-IsTracked_example =
    Steps-IsTracked config discovery_configured fresh (rmw_destroy_publisher config talker both)
      steps fresh-IsTracked

reserved_name : rmw_create_publisher config (publisher 1 "/discovery") fresh ≡ (none, fresh)
unfolding rmw_create_publisher is_reserved
reserved_name = refl
