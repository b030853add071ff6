-- ===== src/Tcp/Bounds.antt =====
-- How much the receive loop of src/desert_classes/TcpDaemon.cpp keeps of an arbitrary byte stream.
use rmw_desert.Prelude.{ℕ, ◌+◌, ◌≤◌, ◌≡◌, false, [], ◌∷◌, ◌++◌, arith, length, length-append, drop}
use rmw_desert.Tcp.{
  Bytes, Junk, Receiver, max_packet_length, check_header, check_tail, erase_oldest, check_overflow,
  receive_byte, receive,
}

-- The partial packet never outgrows the limit, nor five bytes between frames.
pub record IsBounded (r : Receiver) : Type 0 where
  pub within : length r.packet ≤ max_packet_length
  pub short : r.found_header ≡ false → length r.packet ≤ 5

length-drop : (xs : Bytes) → length xs ≤ length (drop 1 xs) + 1
length-drop [] = omega arith
length-drop (x ∷ xs) = omega arith

pub receive_byte-IsBounded :
    (junk : Junk) (r : Receiver) (b : ℕ) → IsBounded r → IsBounded (receive_byte junk r b)
unfolding receive_byte check_header check_tail erase_oldest check_overflow
receive_byte-IsBounded junk r b bounded =
    ground (arith, length-append r.packet (b ∷ []), length-drop (r.packet ++ b ∷ []))

-- A partial packet of at most 512 bytes, and of at most five between frames, stays so after any
-- bytes, whatever the reads in front of the vector yield.
pub receive-IsBounded :
    (junk : Junk) (r : Receiver) (bytes : Bytes) → IsBounded r → IsBounded (receive junk r bytes)
unfolding receive
receive-IsBounded junk r [] bounded = bounded
receive-IsBounded junk r (b ∷ bs) bounded =
    receive-IsBounded junk (receive_byte junk r b) bs (receive_byte-IsBounded junk r b bounded)
