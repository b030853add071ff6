-- ===== src/Tests/Tcp.antt =====
-- The framing and the queues of src/desert_classes/TcpDaemon.cpp on concrete bytes.
use mathlib.Core.List.{append-nil}
use rmw_desert.Prelude.{
  ◌≡◌, refl, false, List, [], ◌∷◌, ◌++◌, arith, take, drop, take-append-drop, map, All, replicate,
}
use rmw_desert.Tcp.{
  Bytes, Junk, Receiver, Daemon, start_marker, end_marker, end_byte, pop_back, real_size,
  check_header, check_tail, erase_oldest, check_overflow, receive_byte, receive, frame, send_rounds,
  read_loop, receive_rounds,
}
use rmw_desert.Tcp.Header.{IsTame}
use rmw_desert.Tcp.Delivery.{
  IsReady, IsFramable, IsCarried, Segment, delivered, stream, short-IsFramable, receive-frame_cut,
  receive-stream,
}
use rmw_desert.Tcp.Bounds.{IsBounded, receive-IsBounded}
use rmw_desert.Tcp.Queues.{single_reads, bytes_of, transfer}
use rmw_desert.Tcp.Socket.{read_loop_repeats}

abbrev zeros : Junk
zeros p k = 0

zeros-IsTame : IsTame zeros
zeros-IsTame = record { no_start = λ p k. omega arith; no_end = λ p k. omega arith }

abbrev fresh : Receiver
fresh = record { packet = []; found_header = false; dimension_in_header = 0; rx_packets = [] }

fresh-IsReady : IsReady fresh
fresh-IsReady = record { idle = refl; short = omega arith; quiet = λ e. cc }

abbrev payload : Bytes
payload = 7 ∷ end_marker ∷ start_marker ∷ []

-- A payload may hold markers.
receive_payload : (receive zeros fresh (1 ∷ 2 ∷ frame payload)).rx_packets ≡ payload ∷ []
unfolding receive receive_byte end_byte pop_back check_header real_size check_tail erase_oldest
    check_overflow frame
receive_payload = refl

payload-IsFramable : IsFramable payload
payload-IsFramable = short-IsFramable payload (omega arith)

segments : List Segment
segments =
    record { noise = 3 ∷ end_marker ∷ []; payload = payload }
    ∷ record { noise = []; payload = 9 ∷ [] }
    ∷ []

segments-IsCarried : All IsCarried segments
unfolding segments
segments-IsCarried = (
  record { clear = omega arith; framable = payload-IsFramable },
  (record { clear = tt; framable = short-IsFramable (9 ∷ []) (omega arith) }, tt),
)

receive-stream_example :
    ((receive zeros fresh (stream segments)).rx_packets
      ≡ fresh.rx_packets ++ map (λ s. s.payload) segments)
    × IsReady (receive zeros fresh (stream segments))
receive-stream_example =
    receive-stream zeros fresh segments zeros-IsTame fresh-IsReady segments-IsCarried

-- Two packets wait in one daemon.
abbrev sender : Daemon
sender = record { receiver = fresh; tx_packets = payload ∷ (9 ∷ []) ∷ [] }

abbrev receiving : Daemon
receiving = record { receiver = fresh; tx_packets = [] }

-- The bytes arrive in three chunks, of which the second is empty.
abbrev reads : List (Bytes × Bytes)
reads =
    ([], take 5 (send_rounds 2 sender).0)
    ∷ (1 ∷ [], [])
    ∷ (2 ∷ [], drop 5 (send_rounds 2 sender).0)
    ∷ []

reads_all : bytes_of reads ≡ (send_rounds 2 sender).0
reads_all =
    rw (append-nil (drop 5 (send_rounds 2 sender).0)) (take-append-drop 5 (send_rounds 2 sender).0)

transfer_example :
    (receive_rounds zeros receiving (single_reads reads)).receiver.rx_packets
    ≡ receiving.receiver.rx_packets ++ sender.tx_packets
transfer_example =
    transfer zeros sender receiving 2 reads zeros-IsTame fresh-IsReady
      (payload-IsFramable, (short-IsFramable (9 ∷ []) (omega arith), tt)) (omega arith) reads_all

-- A payload of 256 zeros behind an end marker.
abbrev padding : Bytes
padding = replicate 255 0

receive-frame_cut_example :
    receive zeros fresh (frame ([] ++ end_marker ∷ padding))
    ≡ receive zeros (delivered fresh 0 []) (padding ++ end_marker ∷ [])
receive-frame_cut_example =
    receive-frame_cut zeros zeros-IsTame fresh [] padding fresh-IsReady
      (short-IsFramable [] (omega arith)) refl

fresh-IsBounded : IsBounded fresh
fresh-IsBounded = record { within = omega arith; short = λ e. omega arith }

receive-IsBounded_example : IsBounded (receive zeros fresh (5 ∷ end_marker ∷ start_marker ∷ []))
receive-IsBounded_example =
    receive-IsBounded zeros fresh (5 ∷ end_marker ∷ start_marker ∷ []) fresh-IsBounded

read_loop_repeats_example :
    read_loop [] 0 ((1 ∷ 2 ∷ 3 ∷ []) ∷ (8 ∷ 9 ∷ []) ∷ [])
    ≡ (1 ∷ 2 ∷ 3 ∷ []) ++ take 2 (1 ∷ 2 ∷ 3 ∷ [])
read_loop_repeats_example = read_loop_repeats [] 1 8 (2 ∷ 3 ∷ []) (9 ∷ []) (omega arith)
