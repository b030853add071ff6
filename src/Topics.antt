-- ===== src/Topics.antt =====
-- src/desert_classes/TopicsConfig.cpp: the two maps between topic names and identifiers. A `std::map`
-- is a list of its entries in key order; reading the file and parsing it as JSON are not modelled, and
-- `load_configuration` takes the map of topics that the parser returns.
pub mod Inverse
use Prim.Native.String.{String}
use text.Mathlib.Text.{◌==◌ as str_eq}
use rmw_desert.Prelude.{
  ℕ, Bool, true, false, Option, some, none, List, [], ◌∷◌, ◌==◌, if◌then◌else◌,
}

-- `_topics_list` and `_identifiers_list`.
pub record TopicsConfig : Type 0 where
  pub topics_list : List (String × ℕ)
  pub identifiers_list : List (ℕ × String)

-- `find`, on names and on identifiers.
unfoldable pub find_name : String → List (String × ℕ) → Option ℕ
find_name name [] = none
find_name name ((k, v) ∷ m) = if str_eq k name then some v else find_name name m

unfoldable pub find_identifier : ℕ → List (ℕ × String) → Option String
find_identifier identifier [] = none
find_identifier identifier ((k, v) ∷ m) =
    if k == identifier then some v else find_identifier identifier m

-- `identifiers[identifier] = name`
unfoldable pub assign : ℕ → String → List (ℕ × String) → List (ℕ × String)
assign identifier name [] = (identifier, name) ∷ []
assign identifier name ((k, v) ∷ m) =
    if k == identifier then (k, name) ∷ m else (k, v) ∷ assign identifier name m

-- The loop over the topics.
unfoldable pub invert : List (String × ℕ) → List (ℕ × String) → List (ℕ × String)
invert [] identifiers = identifiers
invert ((name, identifier) ∷ topics) identifiers =
    invert topics (assign identifier name identifiers)

unfoldable pub load_configuration : List (String × ℕ) → TopicsConfig
load_configuration topics = record { topics_list = topics; identifiers_list = invert topics [] }

unfoldable pub get_topic_identifier : TopicsConfig → String → ℕ
get_topic_identifier c name = elim (find_name name c.topics_list) [ none ↦ 0 | some i ↦ i ]

unfoldable pub get_identifier_topic : TopicsConfig → ℕ → String
get_identifier_topic c identifier = elim (find_identifier identifier c.identifiers_list) [
  | none ↦ ""
  | some name ↦ name
]
