-- ===== src/Cbor/Interpret/Ends.antt =====
-- How `interpret_packets` of src/desert_classes/NanoCBorStream.cpp ends on packets that no stream of
-- this middleware has written.
use text.Mathlib.Text.{◌==◌ as str_eq}
use rmw_desert.Prelude.{ℕ, ◌<◌, ◌≡◌, ◌⊎◌, some, none, ◌∷◌, length}
use rmw_desert.Tcp.{Bytes}
use rmw_desert.Cbor.{Item, Nanocbor}
use rmw_desert.Cbor.Interpret.{Outcome, interpret_field, interpret_fields}

-- A getter that succeeds takes a byte at least. `nanocbor_skip` goes forward, or leaves the bytes as they
-- are: it does the latter on an item that is cut off.
pub record IsForward {F : Type 0} (c : Nanocbor F) : Type 0 where
  pub get-shorter :
      (bytes : Bytes) (item : Item F) (rest : Bytes)
      → c.get bytes ≡ some (item, rest)
      → length rest < length bytes
  pub skip-forward :
      (bytes : Bytes) → (length (c.skip bytes) < length bytes) ⊎ (c.skip bytes ≡ bytes)

-- Neither the getter nor `nanocbor_skip` takes anything of what is left.
pub data IsStuck {F : Type 0} (c : Nanocbor F) : Bytes → Type 0 where
  stuck :
      (b : ℕ) (bs : Bytes) → c.get (b ∷ bs) ≡ none → c.skip (b ∷ bs) ≡ b ∷ bs → IsStuck c (b ∷ bs)

-- The loop over the fields comes from some bytes to others.
pub data Reaches {F : Type 0} (c : Nanocbor F) : Bytes → Bytes → Type 0 where
  here : (bytes : Bytes) → Reaches c bytes bytes
  round :
      (b : ℕ) (bs last : Bytes)
      → Reaches c (interpret_field c (b ∷ bs)).1 last
      → Reaches c (b ∷ bs) last

-- The loop over some bytes never ends: it comes to bytes of which nothing is taken, and no number of
-- rounds is enough.
pub record IsEndless {F : Type 0} (c : Nanocbor F) (bytes : Bytes) : Type 0 where
  pub last : Bytes
  pub reached : Reaches c bytes last
  pub blocked : IsStuck c last
  pub never : (fuel : ℕ) → interpret_fields c fuel bytes ≡ Outcome.endless
