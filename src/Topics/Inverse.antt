-- ===== src/Topics/Inverse.antt =====
-- The two maps of src/desert_classes/TopicsConfig.cpp against each other.
use Prim.Native.String.{String}
use text.Mathlib.TextEquality.{eq_iff}
use rmw_desert.Prelude.{
  ℕ, Option, some, none, List, [], ◌∷◌, ◌==◌, if◌then◌else◌, ◌≡◌, ◌≢◌, ◌⊎◌, inl, inr, refl, arith,
  Option-cases, ◌∙◌, ap,
}
use rmw_desert.Topics.{
  find_name, find_identifier, assign, invert, load_configuration, get_topic_identifier,
  get_identifier_topic,
}

-- The last topic of the map with an identifier, else `old`.
abbrev pub last_name : ℕ → List (String × ℕ) → Option String → Option String
last_name identifier [] old = old
last_name identifier ((name, i) ∷ topics) old =
    last_name identifier topics (if i == identifier then some name else old)

find_identifier-assign :
    (identifier i : ℕ) (name : String) (m : List (ℕ × String))
    → find_identifier identifier (assign i name m)
      ≡ (if i == identifier then some name else find_identifier identifier m)
unfolding find_identifier assign
find_identifier-assign identifier i name [] = refl
find_identifier-assign identifier i name ((k, v) ∷ m) =
    ground (arith, find_identifier-assign identifier i name m)

find_identifier-invert :
    (identifier : ℕ) (topics : List (String × ℕ)) (m : List (ℕ × String))
    → find_identifier identifier (invert topics m)
      ≡ last_name identifier topics (find_identifier identifier m)
unfolding invert
find_identifier-invert identifier [] m = refl
find_identifier-invert identifier ((name, i) ∷ topics) m =
    find_identifier-invert identifier topics (assign i name m)
    ∙ rw (find_identifier-assign identifier i name m)

-- The names of a map are different.
abbrev pub IsFresh : String → List (String × ℕ) → Type 0
IsFresh name [] = Unit {0}
IsFresh name ((k, i) ∷ topics) = (k ≢ name) × IsFresh name topics

abbrev pub IsMap : List (String × ℕ) → Type 0
IsMap [] = Unit {0}
IsMap ((name, i) ∷ topics) = IsFresh name topics × IsMap topics

find_name-IsFresh :
    (name : String) (topics : List (String × ℕ))
    → IsFresh name topics
    → find_name name topics ≡ none
unfolding find_name
find_name-IsFresh name [] fresh = refl
find_name-IsFresh name ((k, i) ∷ topics) fresh =
    ground (arith, eq_iff k name, find_name-IsFresh name topics fresh.1)

-- Where the last name comes from.
last_name-find :
    (identifier : ℕ) (topics : List (String × ℕ)) (old : Option String) {name : String}
    → IsMap topics
    → last_name identifier topics old ≡ some name
    → (old ≡ some name) ⊎ (find_name name topics ≡ some identifier)
unfolding find_name
last_name-find identifier [] old map e = inl e
last_name-find identifier ((k, i) ∷ topics) old {name} map e = ground (
  arith,
  last_name-find identifier topics (if i == identifier then some k else old) map.1 e,
  eq_iff k name,
  find_name-IsFresh k topics map.0,
)

abbrev or_unnamed : Option String → String
or_unnamed none = ""
or_unnamed (some name) = name

abbrev or_zero : Option ℕ → ℕ
or_zero none = 0
or_zero (some i) = i

-- The two getters after a load.
get_identifier_topic-load :
    (topics : List (String × ℕ)) (identifier : ℕ)
    → get_identifier_topic (load_configuration topics) identifier
      ≡ or_unnamed (last_name identifier topics none)
unfolding get_identifier_topic load_configuration find_identifier
get_identifier_topic-load topics identifier =
    shape (find_identifier identifier (invert topics []))
    ∙ ap or_unnamed (find_identifier-invert identifier topics [])
  where
    shape : (o : Option String) → elim o [ none ↦ "" | some name ↦ name ] ≡ or_unnamed o
    shape none = refl
    shape (some name) = refl

get_topic_identifier-load :
    (topics : List (String × ℕ)) (name : String)
    → get_topic_identifier (load_configuration topics) name ≡ or_zero (find_name name topics)
unfolding get_topic_identifier load_configuration
get_topic_identifier-load topics name = shape (find_name name topics)
  where
    shape : (o : Option ℕ) → elim o [ none ↦ 0 | some i ↦ i ] ≡ or_zero o
    shape none = refl
    shape (some i) = refl

-- The name that an identifier is resolved to, if it is not empty, is configured with this
-- identifier.
identifier_of_topic :
    (topics : List (String × ℕ)) (identifier : ℕ)
    → IsMap topics
    → get_identifier_topic (load_configuration topics) identifier ≢ ""
    → get_topic_identifier
        (load_configuration topics)
        (get_identifier_topic (load_configuration topics) identifier)
      ≡ identifier
identifier_of_topic topics identifier map named =
    elim (Option-cases (last_name identifier topics none)) [
      | inl missing ↦
          absurd (named (get_identifier_topic-load topics identifier ∙ ap or_unnamed missing))
      | inr (name, found) ↦
          rw (get_identifier_topic-load topics identifier, found)
            (get_topic_identifier-load topics name
              ∙ ground (arith, last_name-find identifier topics none map found))
    ]

-- No two topics share an identifier.
abbrev IsUnused : ℕ → List (String × ℕ) → Type 0
IsUnused identifier [] = Unit {0}
IsUnused identifier ((k, i) ∷ topics) = (i ≢ identifier) × IsUnused identifier topics

abbrev pub IsInjective : List (String × ℕ) → Type 0
IsInjective [] = Unit {0}
IsInjective ((name, i) ∷ topics) = IsUnused i topics × IsInjective topics

last_name-IsUnused :
    (identifier : ℕ) (topics : List (String × ℕ)) (old : Option String)
    → IsUnused identifier topics
    → last_name identifier topics old ≡ old
last_name-IsUnused identifier [] old unused = refl
last_name-IsUnused identifier ((k, i) ∷ topics) old unused =
    ground (arith, last_name-IsUnused identifier topics old unused.1)

find-last_name :
    (name : String) (topics : List (String × ℕ)) (old : Option String) (identifier : ℕ)
    → IsInjective topics
    → find_name name topics ≡ some identifier
    → last_name identifier topics old ≡ some name
unfolding find_name
find-last_name name [] old identifier injective e = cc
find-last_name name ((k, i) ∷ topics) old identifier injective e = ground (
  arith,
  eq_iff k name,
  last_name-IsUnused i topics (some k) injective.0,
  find-last_name name topics (if i == identifier then some k else old) identifier injective.1,
)

-- Where no two topics share an identifier, a configured name comes back from its identifier.
pub topic_of_identifier :
    (topics : List (String × ℕ)) (name : String)
    → IsInjective topics
    → find_name name topics ≢ none
    → get_identifier_topic
        (load_configuration topics)
        (get_topic_identifier (load_configuration topics) name)
      ≡ name
topic_of_identifier topics name injective known = elim (Option-cases (find_name name topics)) [
  | inl missing ↦ absurd (known missing)
  | inr (identifier, found) ↦ rw (
    get_topic_identifier-load topics name,
    found,
    get_identifier_topic-load topics identifier,
    find-last_name name topics none identifier injective found,
  )
]
