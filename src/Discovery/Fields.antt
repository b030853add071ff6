-- ===== src/Discovery/Fields.antt =====
-- A beacon of src/desert_classes/Discovery.cpp as the values of a packet, written and read.
use rmw_desert.Prelude.{
  ℕ, ◌%◌, ◌^◌, ◌<◌, ◌≡◌, refl, ap, ◌∙◌, Option, some, List, [], ◌∷◌, ◌++◌, map, arith, length, All,
}
use rmw_desert.Prelude.Int.{IsSigned}
use rmw_desert.Tcp.{Bytes, Daemon}
use rmw_desert.Cbor.{Nanocbor}
use rmw_desert.Cbor.Tx.{
  TxStream, write_uint8, write_vector, serialize_sequence, start_transmission, end_transmission,
}
use rmw_desert.Cbor.Interpret.Values.{Value, IsValue}
use rmw_desert.Cbor.Interpret.Reads.{write_values}
use rmw_desert.Message.{Language, Scalar}
use rmw_desert.Message.Fields.{Floats, read_scalar}
use rmw_desert.Message.Values.{IsScalar}
use rmw_desert.Message.Reads.{
  Gives, moved, fields_of, fields_of-append, scalar-Reads, signed-Reads, flag-Reads,
}
use rmw_desert.Message.Typed.{append-IsValue}
use rmw_desert.Message.Back.{read_vector-Gives}
use rmw_desert.Discovery.{EntityBeacon, send_discovery_beacon, settle, read_names, read_beacon}

module _ {F : Type 0} where
  abbrev pub gid_values : List ℕ → List (Value F)
  gid_values gid = map Value.uint8 gid

  abbrev pub later_values : EntityBeacon → List (Value F)
  later_values b =
      Value.string b.topic_name ∷ Value.string b.type_name ∷ Value.bool b.disconnect ∷ []

  abbrev pub beacon_values : EntityBeacon → List (Value F)
  beacon_values b =
      Value.string b.node_name
      ∷ Value.string b.node_namespace
      ∷ Value.int32 b.entity_type
      ∷ Value.uint32 (length b.entity_gid)
      ∷ (gid_values b.entity_gid ++ later_values b)

-- A beacon of its C++ types, with a whole identifier.
pub record IsBeacon (gid_storage_size : ℕ) (b : EntityBeacon) : Type 0 where
  pub type_fits : IsSigned 32 b.entity_type
  pub gid_bytes : All (λ x. x < 2 ^ 8) b.entity_gid
  pub gid_whole : length b.entity_gid ≡ gid_storage_size
  pub size_fits : gid_storage_size < 2 ^ 32

gid_values-then :
    {F : Type 0} (c : Nanocbor F) (gid : List ℕ) (vs : List (Value F)) (t : TxStream)
    → write_values c vs (serialize_sequence c (write_uint8 c) gid t)
      ≡ write_values c (gid_values gid ++ vs) t
unfolding serialize_sequence
gid_values-then c [] vs t = refl
gid_values-then c (x ∷ xs) vs t = gid_values-then c xs vs (write_uint8 c x t)

pub send_discovery_beacon-values :
    {F : Type 0} (c : Nanocbor F) (wrap : Bytes → Option Bytes) (t : TxStream) (b : EntityBeacon)
    (d : Daemon)
    → length b.entity_gid < 2 ^ 32
    → send_discovery_beacon c wrap t b d
      ≡ end_transmission wrap (write_values c (beacon_values b) (start_transmission c t)) d
unfolding send_discovery_beacon write_vector
send_discovery_beacon-values c wrap t b d small =
    let same : length b.entity_gid % 2 ^ 32 ≡ length b.entity_gid = omega arith in
    rw same
      (ap (λ x. end_transmission wrap x d) (gid_values-then c b.entity_gid (later_values b) _))

module _ {F D : Type 0} (floats : Floats F D) where
  read_names-Gives :
      (b : EntityBeacon)
      → Gives
          (later_values b)
          (read_names floats b.node_name b.node_namespace (some b.entity_type) b.entity_gid)
          b
  unfolding read_names settle read_scalar
  read_names-Gives b r rest e =
      let lang = Language.cpp_members in
      let (k, topic, next) =
        scalar-Reads floats lang Scalar.string b.topic_name [] (tt, tt) r
          (fields_of (Value.string b.type_name ∷ Value.bool b.disconnect ∷ []) ++ rest) e in
      let (k', type, next') =
        scalar-Reads floats lang Scalar.string b.type_name [] (tt, tt) (moved r k)
          (fields_of (Value.bool b.disconnect ∷ []) ++ rest) next in
      let (k'', flag, end) = flag-Reads b.disconnect (moved r k') rest next' in
      (k'', rw (topic, type, flag), end)

  gid-IsScalar :
      (gid : List ℕ)
      → All (λ x. x < 2 ^ 8) gid
      → All (IsScalar floats Language.cpp_members Scalar.uint8) gid
  gid-IsScalar [] h = tt
  gid-IsScalar (x ∷ xs) h = ((h.0, tt), gid-IsScalar xs h.1)

  pub read_beacon-Gives :
      (size : ℕ) (b : EntityBeacon)
      → IsBeacon size b
      → Gives (beacon_values b) (read_beacon floats) b
  unfolding read_beacon read_scalar
  read_beacon-Gives size b ok r rest e =
      let lang = Language.cpp_members in
      let gid : List (Value F) = Value.uint32 (length b.entity_gid) ∷ gid_values b.entity_gid in
      let later : List (Value F) = later_values b in
      let small : length b.entity_gid < 2 ^ 32 = omega (arith, ok.gid_whole, ok.size_fits) in
      let (k, name, next) =
        scalar-Reads floats lang Scalar.string b.node_name [] (tt, tt) r
          (fields_of (Value.string b.node_namespace ∷ Value.int32 b.entity_type ∷ (gid ++ later))
            ++ rest)
          e in
      let (k', namespace, next') =
        scalar-Reads floats lang Scalar.string b.node_namespace [] (tt, tt) (moved r k)
          (fields_of (Value.int32 b.entity_type ∷ (gid ++ later)) ++ rest) next in
      let (k'', type, next'') =
        signed-Reads b.entity_type ok.type_fits (moved r k') (fields_of (gid ++ later) ++ rest)
          next' in
      let (j, whole, after) =
        read_vector-Gives floats lang Scalar.uint8 b.entity_gid small
          (gid-IsScalar b.entity_gid ok.gid_bytes) (moved r k'') (fields_of later ++ rest)
          (next'' ∙ fields_of-append gid later rest) in
      let (j', names, end) = read_names-Gives b (moved r j) rest after in
      (j', rw (name, namespace, type, whole) names, end)

module _ (F : Type 0) where
  gid_values-IsValue :
      (gid : List ℕ) → All (λ x. x < 2 ^ 8) gid → All (IsValue {F = F}) (gid_values gid)
  gid_values-IsValue [] h = tt
  gid_values-IsValue (x ∷ xs) h = (h.0, gid_values-IsValue xs h.1)

  pub beacon_values-IsValue :
      (size : ℕ) (b : EntityBeacon) → IsBeacon size b → All (IsValue {F = F}) (beacon_values b)
  beacon_values-IsValue size b ok =
      let small : length b.entity_gid < 2 ^ 32 = omega (arith, ok.gid_whole, ok.size_fits) in
      (
        tt,
        (
          tt,
          (
            ok.type_fits,
            (
              small,
              append-IsValue (gid_values b.entity_gid) (later_values b)
                  (gid_values-IsValue b.entity_gid ok.gid_bytes) (tt, (tt, (tt, tt))),
            ),
          ),
        ),
      )
