-- ===== src/Message/RoundTrip.antt =====
-- A message of src/desert_classes/MessageSerialization.h on its way from the memory of one endpoint to
-- that of another.
use rmw_desert.Prelude.{ℕ, zero, suc, ◌≡◌, refl, some, List, [], ◌∷◌, arith, length, All}
use rmw_desert.Cbor.Rx.{RxStream, read_uint32}
use rmw_desert.Cbor.Interpret.Values.{Value}
use rmw_desert.Message.{Language, Layout, Members, Result, Held, Memory}
use rmw_desert.Message.Fields.{Floats}
use rmw_desert.Message.Whole.{
  deserialize_each, deserialize_resized, deserialize_nested, deserialize_field, deserialize,
}
use rmw_desert.Message.Values.{
  flat, nested_values, field_values, message_values, IsSized, Each, IsMessage, HasShape, IsShaped,
  IsResize,
}
use rmw_desert.Message.Reads.{Gives, size-Reads, Reads-then, Gives-none, Gives-pair}
use rmw_desert.Message.Back.{deserialize_field-Gives}

module _ {F : Type 0} where
  deserialize_each-Gives :
      {M : Type 0} {P Q : M → Type 0} (read : M → RxStream F → Result (M × RxStream F))
      (values : M → List (Value F))
      → ((m old : M) → P m → Q old → Gives (values m) (read old) m)
      → (n : ℕ) (ms olds : List M) → length ms ≡ n
      → length olds ≡ n
      → All P ms
      → All Q olds
      → Gives (flat values ms) (deserialize_each read n olds) ms
  unfolding deserialize_each
  deserialize_each-Gives read values one zero [] [] size old_size h k = Gives-none []
  deserialize_each-Gives read values one zero ms (x ∷ olds) size old_size h k = absurd (omega arith)
  deserialize_each-Gives read values one zero (x ∷ ms) olds size old_size h k = absurd (omega arith)
  deserialize_each-Gives read values one (suc n) [] olds size old_size h k = absurd (omega arith)
  deserialize_each-Gives read values one (suc n) ms [] size old_size h k = absurd (omega arith)
  deserialize_each-Gives read values one (suc n) (m ∷ ms) (old ∷ olds) size old_size h k =
      Gives-pair (values m) (flat values ms) (read old) (deserialize_each read n olds) (◌∷◌) m ms
        (one m old h.0 k.0)
        (deserialize_each-Gives read values one n ms olds (omega arith) (omega arith) h.1 k.1)

  deserialize_nested-Gives :
      {M : Type 0} {P Q : M → Type 0} (resized : ℕ → List M)
      (read : M → RxStream F → Result (M × RxStream F)) (values : M → List (Value F))
      → ((m old : M) → P m → Q old → Gives (values m) (read old) m)
      → ((n : ℕ) → length (resized n) ≡ n)
      → ((n : ℕ) → All Q (resized n))
      → (layout : Layout) (v old : Held M layout) → IsSized M layout v
      → Each P layout v
      → HasShape Q layout old
      → Gives (nested_values values layout v) (deserialize_nested resized read layout old) v
  unfolding deserialize_nested deserialize_resized
  deserialize_nested-Gives resized read values one made shaped Layout.single m old sized h k =
      one m old h k
  deserialize_nested-Gives resized read values one made shaped (Layout.fixed n) ms olds sized h k =
      deserialize_each-Gives read values one n ms olds sized.0 k.0 h k.1
  deserialize_nested-Gives resized read values one made shaped (Layout.bounded n) ms olds sized h
        k =
      Reads-then (Value.uint32 (length ms) ∷ []) (flat values ms) read_uint32
        (deserialize_resized resized read) (some (length ms)) ms (size-Reads (length ms) sized)
        (deserialize_each-Gives read values one (length ms) ms (resized (length ms)) refl
          (made (length ms)) h (shaped (length ms)))
  deserialize_nested-Gives resized read values one made shaped Layout.unbounded ms olds sized h k =
      Reads-then (Value.uint32 (length ms) ∷ []) (flat values ms) read_uint32
        (deserialize_resized resized read) (some (length ms)) ms (size-Reads (length ms) sized)
        (deserialize_each-Gives read values one (length ms) ms (resized (length ms)) refl
          (made (length ms)) h (shaped (length ms)))

module _ {F D : Type 0} (floats : Floats F D) (resized : (ms : Members) → ℕ → List (Memory F D ms))
    (resize : IsResize floats resized) (lang : Language) where
  pub deserialize-Gives :
      (ms : Members) (m old : Memory F D ms)
      → IsMessage floats lang ms m
      → IsShaped floats ms old
      → Gives (message_values floats lang ms m) (deserialize floats resized lang ms old) m
  unfolding deserialize
  deserialize-Gives Members.end m old h k = Gives-none m
  deserialize-Gives (Members.scalar s layout ms) (v, m) (was, old) h k =
      Gives-pair (field_values floats lang s layout v) (message_values floats lang ms m)
        (deserialize_field floats lang s layout was) (deserialize floats resized lang ms old)
        (λ x y. (x, y)) v m (deserialize_field-Gives floats lang s layout v was h.0 k.0)
        (deserialize-Gives ms m old h.1 k.1)
  deserialize-Gives (Members.nested sub layout ms) (v, m) (was, old) h k =
      Gives-pair (nested_values (message_values floats lang sub) layout v)
        (message_values floats lang ms m)
        (deserialize_nested (resized sub) (deserialize floats resized lang sub) layout was)
        (deserialize floats resized lang ms old) (λ x y. (x, y)) v m
        (deserialize_nested-Gives (resized sub) (deserialize floats resized lang sub)
          (message_values floats lang sub) (deserialize-Gives sub) (resize.length-resized sub)
          (resize.resized-IsShaped sub) layout v was h.0 h.2 k.0)
        (deserialize-Gives ms m old h.3 k.1)
  deserialize-Gives (Members.octet layout ms) m old h k = absurd h
  deserialize-Gives (Members.unknown ms) m old h k = absurd h
