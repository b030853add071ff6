-- ===== src/Tests/Topics.antt =====
-- src/desert_classes/TopicsConfig.cpp on a configuration of two topics.
use Prim.Native.String.{String}
use rmw_desert.Prelude.{ℕ, ◌≡◌, ◌≢◌, none, List, [], ◌∷◌}
use rmw_desert.Topics.{find_name, load_configuration, get_topic_identifier, get_identifier_topic}
use rmw_desert.Topics.Inverse.{IsMap, IsInjective, topic_of_identifier}

abbrev topics : List (String × ℕ)
topics = ("chatter", 3) ∷ ("depth", 7) ∷ []

topics-IsMap : IsMap topics
topics-IsMap = (((λ e. cc), tt), (tt, tt))

topics-IsInjective : IsInjective topics
topics-IsInjective = (((λ e. cc), tt), (tt, tt))

chatter_known : find_name "chatter" topics ≢ none
unfolding find_name
chatter_known e = cc

topic_of_identifier_example :
    get_identifier_topic
      (load_configuration topics)
      (get_topic_identifier (load_configuration topics) "chatter")
    ≡ "chatter"
topic_of_identifier_example = topic_of_identifier topics "chatter" topics-IsInjective chatter_known
