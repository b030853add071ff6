-- ===== src/Message/Mixed.antt =====
-- The arrays of texts of src/desert_classes/MessageSerialization.h between C and C++.
use mathlib.Core.List.{append-nil}
use rmw_desert.Prelude.{
  ℕ, suc, ◌^◌, ◌≤◌, ◌<◌, ◌≡◌, ◌≢◌, refl, sym, ap, ◌∙◌, true, Option, some, List, [], ◌∷◌, ◌++◌, map,
  length, All,
}
use rmw_desert.Prelude.Int.{ℤ, pos}
use rmw_desert.Tcp.{Bytes, Receiver, Daemon, max_packet_length}
use rmw_desert.Topics.{TopicsConfig, get_identifier_topic}
use rmw_desert.Cbor.{Nanocbor, IsCodec}
use rmw_desert.Cbor.Tx.{TxStream, start_transmission, end_transmission}
use rmw_desert.Cbor.Tx.Whole.{encoded, message}
use rmw_desert.Cbor.Rx.{Field, Lookup, RxStream, current, advance, read_string, data_available}
use rmw_desert.Cbor.Interpret.{Outcome, stream_type_match, field_of, interpret_packets}
use rmw_desert.Cbor.Interpret.Values.{item_of}
use rmw_desert.Cbor.Interpret.Reads.{write_values}
use rmw_desert.Cbor.Interpret.Exchange.{waiting, reading, arrival}
use rmw_desert.Message.{Language, Scalar, Layout, Members, Result, Memory}
use rmw_desert.Message.Fields.{Floats, read_each, read_scalar, deserialize_cpp_field}
use rmw_desert.Message.Whole.{serialize, deserialize_field}
use rmw_desert.Message.Values.{value_of, field_values, message_values, IsScalar, IsMessage}
use rmw_desert.Message.Writes.{serialize-values}
use rmw_desert.Message.Typed.{message-IsValue}
use rmw_desert.Message.Reads.{
  ahead, ahead-current, fields_of, fields_of-append, moved, read_each-Reads, scalar-Reads,
}

module _ {F D : Type 0} (floats : Floats F D) where
  read_string-number :
      (n : ℕ) (old : List ℕ) (r : RxStream F)
      → current r ≡ some (Field.uint n)
      → read_scalar floats Scalar.string old r ≡ (old, advance r)
  unfolding read_scalar read_string advance
  read_string-number n old r e = rw e

  any-IsScalar :
      (texts : List (List ℕ)) → All (IsScalar floats Language.cpp_members Scalar.string) texts
  any-IsScalar [] = tt
  any-IsScalar (text ∷ texts) = ((tt, tt), any-IsScalar texts)

  texts_and_last :
      (texts : List (List ℕ)) (text : List ℕ) (rest : List (Field F))
      → fields_of (map (value_of floats Scalar.string) (texts ++ text ∷ [])) ++ rest
        ≡ fields_of (map (value_of floats Scalar.string) texts) ++ (Field.tstr text ∷ rest)
  unfolding field_of
  texts_and_last [] text rest = refl
  texts_and_last (x ∷ texts) text rest =
      ap (λ xs. Field.tstr x ∷ xs) (texts_and_last texts text rest)

-- A message type whose first member is an array of `n` texts.
abbrev pub array_first : ℕ → Members → Members
array_first n next = Members.scalar Scalar.string (Layout.fixed n) next

-- The packet of such a message of a C node.
abbrev pub sent_bytes :
    {F D : Type 0}
    → Floats F D
    → Nanocbor F
    → TxStream
    → List (List ℕ)
    → List ℕ
    → (next : Members) → Memory F D next
    → Bytes
sent_bytes floats c t texts last next m = encoded c (
    message c t (
      map item_of (
        message_values floats Language.c_members (array_first (suc (length texts)) next)
          (texts ++ last ∷ [], m))))

-- The same on a stream whose next fields are those of the array.
texts_late :
    {F D : Type 0} (floats : Floats F D) (texts olds : List (List ℕ)) (last old : List ℕ)
    (r : RxStream F) (rest : List (Field F))
    → length olds ≡ length texts
    → ahead r
      ≡ fields_of (
          field_values floats Language.c_members Scalar.string
            (Layout.fixed (suc (length texts)))
            (texts ++ last ∷ []))
        ++ rest
    → (r' : RxStream F) × (deserialize_field floats Language.cpp_members Scalar.string
          (Layout.fixed (suc (length texts)))
          (old ∷ olds)
          r
        ≡ Result.ok (old ∷ texts, r'))
      × (ahead r' ≡ Field.tstr last ∷ rest)
unfolding deserialize_field deserialize_cpp_field read_each field_of advance
texts_late {F} floats texts olds last old r rest size e =
    let others = fields_of (map (value_of floats Scalar.string) (texts ++ last ∷ [])) ++ rest in
    let (number, next) = ahead-current r (Field.uint (suc (length texts))) others e in
    let (k, reads, end) =
      read_each-Reads (read_scalar floats Scalar.string) (value_of floats Scalar.string)
        (scalar-Reads floats Language.cpp_members Scalar.string) texts olds size
        (any-IsScalar floats texts) (advance r) (Field.tstr last ∷ rest)
        (next ∙ texts_and_last floats texts last rest) in
    (moved r k, rw (read_string-number floats (suc (length texts)) old r number, reads), end)

-- A message that `serialize` writes for C, whose first member is an array of texts, and that arrives at
-- a C++ reader: the first element of the reader's array keeps what was in memory before, every other one
-- gets the text of the element in front of it, and the last text is left on the stream, in front of the
-- fields of the next members. Conditions: the message is of its type and its texts for C have no zero in
-- them, the reader's array has its size, and those on the way of a packet as for any message.
pub texts_one_late :
    {F D : Type 0} (floats : Floats F D) (c : Nanocbor F) (alias : Field F → ℤ)
    (topics : TopicsConfig) (wrap unwrap : Bytes → Option Bytes) (wrapped : Bytes) (t : TxStream)
    (texts olds : List (List ℕ)) (last old : List ℕ) (next : Members) (m : Memory F D next)
    (r : Receiver) (queued : List Bytes) (type iterator : ℕ)
    → IsCodec c
    → t.stream_type < 2 ^ 8
    → t.stream_identifier < 2 ^ 8
    → get_identifier_topic topics t.stream_identifier ≢ ""
    → stream_type_match t.stream_type ≡ some type
    → IsMessage floats Language.c_members
        (array_first (suc (length texts)) next)
        (texts ++ last ∷ [], m)
    → length olds ≡ length texts
    → length (sent_bytes floats c t texts last next m) ≤ max_packet_length
    → wrap (sent_bytes floats c t texts last next m) ≡ some wrapped
    → unwrap wrapped ≡ some (sent_bytes floats c t texts last next m)
    → 0 < length wrapped
    → (written : TxStream) × (d : Daemon) × (received : RxStream F) × (taken : RxStream F)
      × (left : RxStream F) × (serialize floats c Language.c_members
            (array_first (suc (length texts)) next)
            (texts ++ last ∷ [], m)
            (start_transmission c t)
          ≡ Result.ok written)
      × (interpret_packets c topics unwrap
            (end_transmission wrap written
              (record { receiver = record r { rx_packets = [] }; tx_packets = queued }))
            (waiting type t.stream_identifier iterator ∷ [])
          ≡ Outcome.done (d, received ∷ []))
      × (data_available alias (pos 0) received ≡ Lookup.returns (true, taken))
      × (deserialize_field floats Language.cpp_members Scalar.string
            (Layout.fixed (suc (length texts)))
            (old ∷ olds)
            taken
          ≡ Result.ok (old ∷ texts, left))
      × (ahead left ≡ Field.tstr last ∷ fields_of (message_values floats Language.c_members next m))
texts_one_late {F} floats c alias topics wrap unwrap wrapped t texts olds last old next m r queued
      type iterator codec small_type small_id named known ok size fits wraps unwraps some_bytes =
    let ms = array_first (suc (length texts)) next in
    let vs = message_values floats Language.c_members ms (texts ++ last ∷ [], m) in
    let here =
      field_values floats Language.c_members Scalar.string (Layout.fixed (suc (length texts)))
        (texts ++ last ∷ []) in
    let others = message_values floats Language.c_members next m in
    let taken = reading type t.stream_identifier (map field_of (map item_of vs)) in
    let (d, received, arrives, takes) =
      arrival c alias topics wrap unwrap wrapped t vs r queued type iterator codec small_type
        small_id named known
        (message-IsValue floats Language.c_members ms (texts ++ last ∷ [], m) ok) fits wraps unwraps
        some_bytes in
    let next_fields : ahead taken ≡ fields_of here ++ fields_of others =
      sym (append-nil (fields_of (here ++ others)))
      ∙ fields_of-append here others []
      ∙ ap (λ xs. fields_of here ++ xs) (append-nil (fields_of others)) in
    let (left, reads, end) =
      texts_late floats texts olds last old taken (fields_of others) size next_fields in
    (
      write_values c vs (start_transmission c t),
      d,
      received,
      taken,
      left,
      serialize-values floats c Language.c_members ms (texts ++ last ∷ [], m)
          (start_transmission c t) ok,
      arrives,
      takes,
      reads,
      end,
    )
