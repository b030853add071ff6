-- ===== src/Cbor.antt =====
-- src/desert_classes/CBorStream.h and NanoCBorStream.cpp: the streams that write and read messages.
-- The NanoCBOR library is not part of the repository. It is a parameter, `Nanocbor`, and what is
-- relied on of it is `IsCodec`.
pub mod Queue
pub mod Tx
pub mod Rx
pub mod Interpret
use rmw_desert.Prelude.{ℕ, ◌+◌, ◌<◌, ◌≤◌, ◌^◌, ◌≡◌, Option, some, List, ◌++◌, length}

-- The CBOR items that the streams write and read; `nint n` is the integer -(n + 1), and `F` are the
-- values of `float`.
pub data Item (F : Type 0) : Type 0 where
  uint : ℕ → Item F
  nint : ℕ → Item F
  float : F → Item F
  tstr : List ℕ → Item F
  bstr : List ℕ → Item F

-- What the getters of the streams take: unsigned and signed integers of 64 bits.
abbrev pub IsItem : {F : Type 0} → Item F → Type 0
IsItem (Item.uint n) = n < 2 ^ 64
IsItem (Item.nint n) = n < 2 ^ 63
IsItem _ = Unit {0}

-- `put` is what the `nanocbor_fmt_…` and `nanocbor_put_…` functions append to the buffer; `get` reads
-- the item at the front by `nanocbor_get_type` and the getter of that type, and fails where they do;
-- `skip` is `nanocbor_skip` and
-- `get_uint8` is `nanocbor_get_uint8`, which fails on what is not below 256.
pub record Nanocbor (F : Type 0) : Type 0 where
  pub put : Item F → List ℕ
  pub get : List ℕ → Option (Item F × List ℕ)
  pub skip : List ℕ → List ℕ
  pub get_uint8 : List ℕ → Option (ℕ × List ℕ)

-- What is written is read back, and takes a byte at least.
pub record IsCodec {F : Type 0} (c : Nanocbor F) : Type 0 where
  pub get-put : (i : Item F) (rest : List ℕ) → IsItem i → c.get (c.put i ++ rest) ≡ some (i, rest)
  pub get_uint8-put :
      (n : ℕ) (rest : List ℕ)
      → n < 2 ^ 8
      → c.get_uint8 (c.put (Item.uint n) ++ rest) ≡ some (n, rest)
  pub put-pos : (i : Item F) → 0 < length (c.put i)
