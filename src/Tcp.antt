-- ===== src/Tcp.antt =====
-- src/desert_classes/TcpDaemon.cpp: the framing of packets on the byte stream to DESERT, the
-- receiver that finds the frames again, and the two packet queues.
pub mod Step
pub mod Header
pub mod Delivery
pub mod Bounds
pub mod Queues
pub mod Socket
use rmw_desert.Prelude.{
  ℕ, zero, suc, ◌+◌, ◌-◌, ◌%◌, ◌^◌, Bool, true, false, not, ◌&&◌, List, [], ◌∷◌, ◌++◌, reverse,
  some, none, bit_and, ltb, ◌==◌, if◌then◌else◌, length, get_elem?, take, drop,
}

abbrev pub start_marker : ℕ
start_marker = 0b10011001

abbrev pub end_marker : ℕ
end_marker = 0b01010101

abbrev pub byte_mask : ℕ
byte_mask = 0b11111111

abbrev pub max_packet_length : ℕ
max_packet_length = 512

abbrev pub Bytes : Type 0
Bytes = List ℕ

-- What a read `k` places in front of the first element of a vector yields. The code makes such
-- reads, and C++ says nothing of their result, so it is a parameter.
abbrev pub Junk : Type 0
Junk = Bytes → ℕ → ℕ

-- The variables of `socket_rx_communication`, and `_rx_packets`.
pub record Receiver : Type 0 where
  pub packet : Bytes
  pub found_header : Bool
  pub dimension_in_header : ℕ
  pub rx_packets : List Bytes

-- `packet.end()[-k]`, for k = 1, 2, 3.
unfoldable pub end_byte : Junk → Bytes → ℕ → ℕ
end_byte junk packet k = elim (get_elem? (reverse packet) (k - 1)) [
  | some b ↦ b
  | none ↦ junk packet (k - length packet)
]

-- `packet.pop_back()`; on an empty vector it is undefined, and here does nothing.
unfoldable pub pop_back : Bytes → Bytes
pop_back [] = []
pop_back (x ∷ []) = []
pop_back (x ∷ y ∷ ys) = x ∷ pop_back (y ∷ ys)

unfoldable pub check_header : Junk → ℕ → Receiver → Receiver
check_header junk field r =
    if not r.found_header
      && end_byte junk r.packet 2 == start_marker
      && end_byte junk r.packet 3 == start_marker
    then record r { packet = []; found_header = true; dimension_in_header = field }
    else r

-- `(packet.size() - 1) & BYTE_MASK`, over a 64-bit `size_t`.
unfoldable pub real_size : Bytes → ℕ
real_size packet = bit_and ((length packet + 2 ^ 64 - 1) % 2 ^ 64) byte_mask

unfoldable pub check_tail : Junk → Receiver → Receiver
check_tail junk r =
    if r.found_header && end_byte junk r.packet 1 == end_marker
    then if r.dimension_in_header == real_size r.packet
      then record r {
        packet = [];
        found_header = false;
        rx_packets = r.rx_packets ++ pop_back r.packet ∷ [];
      }
      else r
    else r

unfoldable pub erase_oldest : Receiver → Receiver
erase_oldest r =
    if not r.found_header && ltb 5 (length r.packet)
    then record r { packet = drop 1 r.packet }
    else r

unfoldable pub check_overflow : Receiver → Receiver
check_overflow r =
    if ltb max_packet_length (length r.packet)
    then record r { packet = []; found_header = false }
    else r

-- The body of the loop over the bytes that were read.
unfoldable pub receive_byte : Junk → Receiver → ℕ → Receiver
receive_byte junk r field = check_overflow (
    erase_oldest
      (check_tail junk (check_header junk field (record r { packet = r.packet ++ field ∷ [] }))))

unfoldable pub receive : Junk → Receiver → Bytes → Receiver
receive junk r [] = r
receive junk r (b ∷ bs) = receive junk (receive_byte junk r b) bs

-- `socket_tx_communication` on one packet: three bytes in front, one behind.
unfoldable pub frame : Bytes → Bytes
frame packet =
    let payload_size = bit_and (length packet) byte_mask in
    (start_marker ∷ (start_marker ∷ (payload_size ∷ packet))) ++ end_marker ∷ []

-- The daemon: its receiver with `_rx_packets`, and `_tx_packets`.
pub record Daemon : Type 0 where
  pub receiver : Receiver
  pub tx_packets : List Bytes

-- The packet is empty if there is none.
unfoldable pub read_packet : Daemon → Bytes × Daemon
read_packet d = elim d.receiver.rx_packets [
  | [] ↦ ([], d)
  | packet ∷ rest ↦ (packet, record d { receiver = record (d.receiver) { rx_packets = rest } })
]

unfoldable pub enqueue_packet : Daemon → Bytes → Daemon
enqueue_packet d packet = record d {
  receiver = record (d.receiver) { rx_packets = d.receiver.rx_packets ++ packet ∷ [] };
  tx_packets = d.tx_packets ++ packet ∷ [];
}

-- `for (i = 0; i < _tx_packets.size(); i++)`, whose body pops a packet: the bytes that are sent, and
-- the packets that stay.
unfoldable pub send_loop : ℕ → List Bytes → Bytes × List Bytes
send_loop i [] = ([], [])
send_loop i (packet ∷ rest) =
    let (bytes, left) = send_loop (i + 1) rest in
    if ltb i (length (packet ∷ rest)) then (frame packet ++ bytes, left) else ([], packet ∷ rest)

-- One round of `socket_tx_communication`.
unfoldable pub send_round : Daemon → Bytes × Daemon
send_round d =
    let (bytes, left) = send_loop 0 d.tx_packets in (bytes, record d { tx_packets = left })

-- The first rounds of `socket_tx_communication`, with no packet enqueued between them.
unfoldable pub send_rounds : ℕ → Daemon → Bytes × Daemon
send_rounds zero d = ([], d)
send_rounds (suc k) d =
    let (bytes, next) = send_round d in
    let (later, last) = send_rounds k next in (bytes ++ later, last)

-- `read(_client_fd, buffer + ptr, …)` of the bytes `chunk`, which fit in the rest of the buffer.
unfoldable pub read_into : Bytes → ℕ → Bytes → Bytes
read_into buffer ptr chunk = take ptr buffer ++ (chunk ++ drop (ptr + length chunk) buffer)

-- The bytes that one round of `socket_rx_communication` hands to the receiver, where the chunks are
-- what the successive calls of `read` return. Every chunk is read from the buffer's start.
unfoldable pub read_loop : Bytes → ℕ → List Bytes → Bytes
read_loop buffer ptr [] = []
read_loop buffer ptr ([] ∷ chunks) = []
read_loop buffer ptr ((b ∷ bs) ∷ chunks) =
    let rc = length (b ∷ bs) in
    let filled = read_into buffer ptr (b ∷ bs) in
    take rc filled ++ read_loop filled (ptr + rc) chunks

unfoldable pub receive_round : Junk → Daemon → Bytes → List Bytes → Daemon
receive_round junk d buffer chunks = record d {
  receiver = receive junk d.receiver (read_loop buffer 0 chunks);
}

-- The first rounds of `socket_rx_communication`, each with its buffer and the chunks of its reads.
unfoldable pub receive_rounds : Junk → Daemon → List (Bytes × List Bytes) → Daemon
receive_rounds junk d [] = d
receive_rounds junk d ((buffer, chunks) ∷ rounds) =
    receive_rounds junk (receive_round junk d buffer chunks) rounds
