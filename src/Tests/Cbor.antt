-- ===== src/Tests/Cbor.antt =====
-- The queue of received packets of src/desert_classes/NanoCBorStream.cpp on concrete packets.
use rmw_desert.Prelude.{ℕ, ◌≡◌, ◌≤◌, refl, true, false, List, [], ◌∷◌, ◌++◌, arith, length}
use rmw_desert.Prelude.Int.{ℤ, pos}
use rmw_desert.Cbor.Queue.{push_all, max_buffer_capacity}
use rmw_desert.Cbor.Queue.Window.{newest, push_all-window}
use rmw_desert.Cbor.Rx.{Field, Lookup, RxStream, take_front, data_available, same, as_int64}
use rmw_desert.Cbor.Rx.Select.{Misses, Hits, data_available_picks}

abbrev numbers : List ℕ
numbers = 1 ∷ 2 ∷ 3 ∷ []

push_all-window_example :
    (push_all [] numbers ≡ newest numbers) × (length (push_all [] numbers) ≤ max_buffer_capacity)
push_all-window_example = push_all-window numbers

-- Packets of a service: a sequence identifier, then a string.
abbrev packet : ℕ → List (Field Unit)
packet n = Field.uint n ∷ Field.tstr (n ∷ []) ∷ []

abbrev nothing : Field Unit → ℤ
nothing f = pos 0

abbrev holding : List (List (Field Unit)) → RxStream Unit
holding queue = record {
  stream_type = 18;
  stream_identifier = 4;
  buffered_iterator = 0;
  buffered_packet = [];
  received_packets = queue;
  overrun = false;
}

five-Misses : Misses nothing (pos 7) (packet 5)
unfolding same as_int64
five-Misses = refl

seven-Hits : Hits nothing (pos 7) (packet 7)
unfolding same as_int64
seven-Hits = refl

seven_one : same (pos 7) (pos 0) ≡ false
unfolding same
seven_one = refl

data_available_picks_example :
    data_available nothing (pos 7) (holding (packet 5 ∷ packet 7 ∷ packet 9 ∷ []))
    ≡ Lookup.returns (
      true,
      take_front 1
          (packet 7)
          ((packet 9 ∷ []) ++ packet 5 ∷ [])
          (holding (packet 5 ∷ packet 7 ∷ packet 9 ∷ [])),
    )
data_available_picks_example =
    data_available_picks nothing (pos 7) (packet 5 ∷ []) (packet 7) (packet 9 ∷ [])
      (holding (packet 5 ∷ packet 7 ∷ packet 9 ∷ [])) refl refl (omega arith) seven_one
      (five-Misses, tt) seven-Hits
