-- ===== src/Tests/Message.antt =====
-- Messages of src/desert_classes/MessageSerialization.h, with the codec of the tests.
use rmw_desert.Prelude.{
  ℕ, zero, suc, ◌≡◌, refl, true, some, List, [], ◌∷◌, map, arith, replicate, length-replicate, All,
}
use rmw_desert.Prelude.Int.{pos, negsuc}
use rmw_desert.Tcp.{Daemon}
use rmw_desert.Cbor.Tx.{TxStream, start_transmission, end_transmission}
use rmw_desert.Cbor.Tx.Whole.{encoded, message}
use rmw_desert.Cbor.Interpret.Values.{item_of}
use rmw_desert.Cbor.Rx.{Field, Lookup, RxStream, data_available}
use rmw_desert.Cbor.Interpret.{Outcome, interpret_packets}
use rmw_desert.Cbor.Interpret.Exchange.{waiting}
use rmw_desert.Message.{Language, Scalar, Layout, Members, Result, Memory, Held}
use rmw_desert.Message.Fields.{Floats, blank}
use rmw_desert.Message.Whole.{serialize, deserialize, deserialize_field}
use rmw_desert.Message.Values.{message_values, IsMessage, IsShaped, IsResize}
use rmw_desert.Message.Exchange.{exchange_message}
use rmw_desert.Message.Throws.{serialize_throws, Verdict, Breaks}
use rmw_desert.Message.Mixed.{array_first, sent_bytes, texts_one_late}
use rmw_desert.Message.Reads.{ahead, fields_of}
use rmw_desert.Tests.Codec.{codec, codec-IsCodec}
use rmw_desert.Tests.Exchange.{publisher, config, idle, nothing, three_named, publisher_known}

abbrev pub floats : Floats Unit Unit
floats = record {
  to_float = λ x. x;
  to_double = λ x. x;
  zero_float = tt;
  zero_double = tt;
  junk_uint64 = 77;
  junk_int64 = negsuc 77;
  junk_float = tt;
}

-- What a generated type support makes of a message that is new.
abbrev laid_out : {M : Type 0} → (layout : Layout) → M → Held M layout
laid_out Layout.single m = m
laid_out (Layout.fixed n) m = replicate n m
laid_out (Layout.bounded n) m = []
laid_out Layout.unbounded m = []

abbrev pub new_message : (ms : Members) → Memory Unit Unit ms
new_message Members.end = tt
new_message (Members.scalar s layout ms) = (laid_out layout (blank floats s), new_message ms)
new_message (Members.nested sub layout ms) = (laid_out layout (new_message sub), new_message ms)
new_message (Members.octet layout ms) = (laid_out layout 0, new_message ms)
new_message (Members.unknown ms) = new_message ms

replicate-All : {A : Type 0} (P : A → Type 0) (n : ℕ) (a : A) → P a → All P (replicate n a)
replicate-All P zero a h = tt
replicate-All P (suc n) a h = (h, replicate-All P n a h)

pub new_message-IsShaped : (ms : Members) → IsShaped floats ms (new_message ms)
new_message-IsShaped Members.end = tt
new_message-IsShaped (Members.scalar s Layout.single ms) = (tt, new_message-IsShaped ms)
new_message-IsShaped (Members.scalar s (Layout.fixed n) ms) = (
  (length-replicate n (blank floats s), replicate-All (λ x. Unit) n (blank floats s) tt),
  new_message-IsShaped ms,
)
new_message-IsShaped (Members.scalar s (Layout.bounded n) ms) = (tt, new_message-IsShaped ms)
new_message-IsShaped (Members.scalar s Layout.unbounded ms) = (tt, new_message-IsShaped ms)
new_message-IsShaped (Members.nested sub Layout.single ms) =
    (new_message-IsShaped sub, new_message-IsShaped ms)
new_message-IsShaped (Members.nested sub (Layout.fixed n) ms) = (
  (
    length-replicate n (new_message sub),
    replicate-All (IsShaped floats sub) n (new_message sub) (new_message-IsShaped sub),
  ),
  new_message-IsShaped ms,
)
new_message-IsShaped (Members.nested sub (Layout.bounded n) ms) = (tt, new_message-IsShaped ms)
new_message-IsShaped (Members.nested sub Layout.unbounded ms) = (tt, new_message-IsShaped ms)
new_message-IsShaped (Members.octet layout ms) = new_message-IsShaped ms
new_message-IsShaped (Members.unknown ms) = new_message-IsShaped ms

abbrev pub resized : (ms : Members) → ℕ → List (Memory Unit Unit ms)
resized ms n = replicate n (new_message ms)

pub resized-IsResize : IsResize floats resized
resized-IsResize = record {
  length-resized = λ ms n. length-replicate n (new_message ms);
  resized-IsShaped =
      λ ms n. replicate-All (IsShaped floats ms) n (new_message ms) (new_message-IsShaped ms);
}

-- A name and some points of at most three.
abbrev pub point : Members
point =
    Members.scalar Scalar.int16 Layout.single
      (Members.scalar Scalar.uint8 (Layout.fixed 2) Members.end)

abbrev path : Members
path = Members.scalar Scalar.string (Layout.fixed 2) (
    Members.nested point (Layout.bounded 3)
      (Members.scalar Scalar.boolean Layout.single Members.end))

abbrev sent : Memory Unit Unit path
sent = (
  (104 ∷ 105 ∷ []) ∷ [] ∷ [],
  ((negsuc 6, (1 ∷ 2 ∷ [], tt)) ∷ (pos 300, (3 ∷ 4 ∷ [], tt)) ∷ [], (true, tt)),
)

sent-IsMessage : IsMessage floats Language.c_members path sent
sent-IsMessage = (
  ((refl, omega arith), tt, ((tt, ((λ e. omega arith), ((λ e. omega arith), tt))), ((tt, tt), tt))),
  (
    omega arith,
    omega arith,
    (
      (
        (tt, tt, (omega arith, tt)),
        (((refl, omega arith), tt, ((omega arith, tt), ((omega arith, tt), tt))), tt),
      ),
      (
        (
          (tt, tt, (omega arith, tt)),
          (((refl, omega arith), tt, ((omega arith, tt), ((omega arith, tt), tt))), tt),
        ),
        tt,
      ),
    ),
    ((tt, tt, (tt, tt)), tt),
  ),
)

abbrev bytes : List ℕ
bytes =
    encoded codec
      (message codec publisher (map item_of (message_values floats Language.c_members path sent)))

exchange_message_example :
    (written : TxStream) × (d : Daemon) × (received : RxStream Unit) × (taken : RxStream Unit)
    × (left : RxStream Unit) × (serialize floats codec Language.c_members path sent
          (start_transmission codec publisher)
        ≡ Result.ok written)
    × (interpret_packets codec config some
          (end_transmission some written
            (record { receiver = record idle { rx_packets = [] }; tx_packets = [] }))
          (waiting 1 3 0 ∷ [])
        ≡ Outcome.done (d, received ∷ []))
    × (data_available nothing (pos 0) received ≡ Lookup.returns (true, taken))
    × (deserialize floats resized Language.c_members path (new_message path) taken
        ≡ Result.ok (sent, left))
exchange_message_example =
    exchange_message floats codec nothing config resized some some bytes publisher
      Language.c_members path sent (new_message path) idle [] 1 0 codec-IsCodec (omega arith)
      (omega arith) three_named publisher_known resized-IsResize sent-IsMessage
      (new_message-IsShaped path) (omega arith) refl refl (omega arith)

-- A sequence of three points where two are the bound.
abbrev short_path : Members
short_path = Members.nested point (Layout.bounded 2) Members.end

abbrev long : Memory Unit Unit short_path
long = let p : Memory Unit Unit point = (pos 1, (1 ∷ 2 ∷ [], tt)) in (p ∷ p ∷ p ∷ [], tt)

serialize_throws_example :
    Verdict
      (Breaks Unit Unit short_path long)
      (serialize floats codec Language.cpp_members short_path long publisher)
serialize_throws_example =
    serialize_throws floats codec Language.cpp_members short_path long publisher

-- Two texts and a number behind them, of a C node.
abbrev named_number : Members
named_number = array_first 2 (Members.scalar Scalar.uint8 Layout.single Members.end)

abbrev from_c : Memory Unit Unit named_number
from_c = ((104 ∷ []) ∷ (105 ∷ []) ∷ [], (7, tt))

from_c-IsMessage : IsMessage floats Language.c_members named_number from_c
from_c-IsMessage = (
  ((refl, omega arith), tt, ((tt, ((λ e. omega arith), tt)), ((tt, ((λ e. omega arith), tt)), tt))),
  ((tt, tt, (omega arith, tt)), tt),
)

abbrev bytes_from_c : List ℕ
bytes_from_c =
    sent_bytes floats codec publisher ((104 ∷ []) ∷ []) (105 ∷ [])
      (Members.scalar Scalar.uint8 Layout.single Members.end) (7, tt)

texts_one_late_example :
    (written : TxStream) × (d : Daemon) × (received : RxStream Unit) × (taken : RxStream Unit)
    × (left : RxStream Unit) × (serialize floats codec Language.c_members named_number from_c
          (start_transmission codec publisher)
        ≡ Result.ok written)
    × (interpret_packets codec config some
          (end_transmission some written
            (record { receiver = record idle { rx_packets = [] }; tx_packets = [] }))
          (waiting 1 3 0 ∷ [])
        ≡ Outcome.done (d, received ∷ []))
    × (data_available nothing (pos 0) received ≡ Lookup.returns (true, taken))
    × (deserialize_field floats Language.cpp_members Scalar.string
          (Layout.fixed 2)
          ([] ∷ [] ∷ [])
          taken
        ≡ Result.ok ([] ∷ (104 ∷ []) ∷ [], left))
    × (ahead left
        ≡ Field.tstr (105 ∷ [])
          ∷ fields_of (
              message_values floats Language.c_members
                (Members.scalar Scalar.uint8 Layout.single Members.end)
                (7, tt)))
texts_one_late_example =
    texts_one_late floats codec nothing config some some bytes_from_c publisher ((104 ∷ []) ∷ [])
      ([] ∷ []) (105 ∷ []) [] (Members.scalar Scalar.uint8 Layout.single Members.end) (7, tt) idle
      [] 1 0 codec-IsCodec (omega arith) (omega arith) three_named publisher_known from_c-IsMessage
      refl (omega arith) refl refl (omega arith)
