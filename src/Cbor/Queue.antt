-- ===== src/Cbor/Queue.antt =====
-- `CircularQueue` of src/desert_classes/CBorStream.h, with its capacity, the oldest element first.
pub mod Window
use rmw_desert.Prelude.{ℕ, List, [], ◌∷◌, ◌++◌, ◌==◌, if◌then◌else◌, length}

abbrev pub max_buffer_capacity : ℕ
max_buffer_capacity = 100

module _ {ℓ} {A : Type ℓ} where
  -- `pop_front` and `pop`; on an empty queue they are undefined, and here do nothing.
  unfoldable pub pop : List A → List A
  pop [] = []
  pop (x ∷ xs) = xs

  unfoldable pub push : List A → A → List A
  push queue value =
      (if length queue == max_buffer_capacity then pop queue else queue) ++ value ∷ []

  unfoldable pub push_all : List A → List A → List A
  push_all queue [] = queue
  push_all queue (value ∷ values) = push_all (push queue value) values
