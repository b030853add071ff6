-- ===== src/Tests/Codec.antt =====
-- A codec for the streams of src/desert_classes/NanoCBorStream.cpp on which the tests run: an item is
-- its kind, then its value, a string behind its length.
use rmw_desert.Prelude.{
  ◌⊎◌, inl, inr, ℕ, zero, suc, ◌<◌, ◌≡◌, refl, ap, Option, some, none, List, [], ◌∷◌, ◌++◌, arith,
  ltb, lt→ltb, if◌then◌else◌, length, take, drop, length-drop,
}
use rmw_desert.Cbor.{Item, IsItem, Nanocbor, IsCodec}
use rmw_desert.Cbor.Interpret.Ends.{IsForward}

abbrev put : Item Unit → List ℕ
put (Item.uint n) = 0 ∷ n ∷ []
put (Item.nint n) = 1 ∷ n ∷ []
put (Item.float f) = 2 ∷ []
put (Item.tstr s) = 3 ∷ length s ∷ s
put (Item.bstr s) = 4 ∷ length s ∷ s

abbrev get : List ℕ → Option (Item Unit × List ℕ)
get (zero ∷ n ∷ rest) = some (Item.uint n, rest)
get (suc zero ∷ n ∷ rest) = some (Item.nint n, rest)
get (suc (suc zero) ∷ rest) = some (Item.float tt, rest)
get (suc (suc (suc zero)) ∷ k ∷ rest) = some (Item.tstr (take k rest), drop k rest)
get (suc (suc (suc (suc zero))) ∷ k ∷ rest) = some (Item.bstr (take k rest), drop k rest)
get _ = none

abbrev get_uint8 : List ℕ → Option (ℕ × List ℕ)
get_uint8 (zero ∷ n ∷ rest) = if ltb n 256 then some (n, rest) else none
get_uint8 _ = none

abbrev pub codec : Nanocbor Unit
codec = record { put = put; get = get; skip = drop 1; get_uint8 = get_uint8 }

pub split :
    (s rest : List ℕ) → (take (length s) (s ++ rest) ≡ s) × (drop (length s) (s ++ rest) ≡ rest)
split [] rest = (refl, refl)
split (x ∷ s) rest = let (front, back) = split s rest in (ap (◌∷◌ x) front, back)

get-put : (i : Item Unit) (rest : List ℕ) → IsItem i → get (put i ++ rest) ≡ some (i, rest)
get-put (Item.uint n) rest h = refl
get-put (Item.nint n) rest h = refl
get-put (Item.float f) rest h = refl
get-put (Item.tstr s) rest h = rw ((split s rest).0, (split s rest).1)
get-put (Item.bstr s) rest h = rw ((split s rest).0, (split s rest).1)

put-pos : (i : Item Unit) → 0 < length (put i)
put-pos (Item.uint n) = omega arith
put-pos (Item.nint n) = omega arith
put-pos (Item.float f) = omega arith
put-pos (Item.tstr s) = omega arith
put-pos (Item.bstr s) = omega arith

pub codec-IsCodec : IsCodec codec
codec-IsCodec = record {
  get-put = get-put;
  get_uint8-put = λ n rest h. rw (lt→ltb n 256 h);
  put-pos = put-pos;
}

get-shorter :
    (bytes : List ℕ) (item : Item Unit) (rest : List ℕ)
    → get bytes ≡ some (item, rest)
    → length rest < length bytes
get-shorter [] item rest e = cc
get-shorter (zero ∷ []) item rest e = cc
get-shorter (zero ∷ n ∷ bs) item rest e = ground arith
get-shorter (suc zero ∷ []) item rest e = cc
get-shorter (suc zero ∷ n ∷ bs) item rest e = ground arith
get-shorter (suc (suc zero) ∷ bs) item rest e = ground arith
get-shorter (suc (suc (suc zero)) ∷ []) item rest e = cc
get-shorter (suc (suc (suc zero)) ∷ k ∷ bs) item rest e = ground (arith, length-drop k bs)
get-shorter (suc (suc (suc (suc zero))) ∷ []) item rest e = cc
get-shorter (suc (suc (suc (suc zero))) ∷ k ∷ bs) item rest e = ground (arith, length-drop k bs)
get-shorter (suc (suc (suc (suc (suc n)))) ∷ bs) item rest e = cc

skip-forward : (bytes : List ℕ) → (length (drop 1 bytes) < length bytes) ⊎ (drop 1 bytes ≡ bytes)
skip-forward [] = inr refl
skip-forward (b ∷ bs) = inl (omega arith)

pub codec-IsForward : IsForward codec
codec-IsForward = record { get-shorter = get-shorter; skip-forward = skip-forward }
