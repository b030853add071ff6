-- ===== src/Tcp/Step.antt =====
-- One byte in the receive loop of src/desert_classes/TcpDaemon.cpp, by the state it arrives in.
use mathlib.Core.List.{reverse-append}
use rmw_desert.Prelude.{
  ℕ, ◌+◌, ◌-◌, ◌%◌, ◌^◌, ◌≤◌, ◌<◌, ◌≡◌, refl, ap, ◌∙◌, ◌≢◌, ◌⊎◌, inl, inr, true, false, [], ◌∷◌,
  ◌++◌, arith, length, length-append,
}
use rmw_desert.Prelude.Bits.{bit_and-255}
use rmw_desert.Tcp.{
  Bytes, Junk, Receiver, end_marker, max_packet_length, end_byte, pop_back, real_size, check_header,
  check_tail, erase_oldest, check_overflow, receive_byte,
}

pub real_size-mod : (p : Bytes) → real_size p ≡ (length p + 255) % 256
unfolding real_size
real_size-mod p = omega (arith, bit_and-255 ((length p + 2 ^ 64 - 1) % 2 ^ 64))

pub pop_back-concat : (p : Bytes) (b : ℕ) → pop_back (p ++ b ∷ []) ≡ p
unfolding pop_back
pop_back-concat [] b = refl
pop_back-concat (x ∷ []) b = refl
pop_back-concat (x ∷ y ∷ ys) b = ap (◌∷◌ x) (pop_back-concat (y ∷ ys) b)

pub end_byte-1 : (junk : Junk) (p : Bytes) (b : ℕ) → end_byte junk (p ++ b ∷ []) 1 ≡ b
unfolding end_byte
end_byte-1 junk p b = rw (reverse-append p (b ∷ []), end_byte)

module _ (junk : Junk) (r : Receiver) where
  pub check_header-found : (b : ℕ) → r.found_header ≡ true → check_header junk b r ≡ r
  unfolding check_header
  check_header-found b found = ground arith

  pub erase_oldest-found : r.found_header ≡ true → erase_oldest r ≡ r
  unfolding erase_oldest
  erase_oldest-found found = ground arith

  pub erase_oldest-short : length r.packet ≤ 5 → erase_oldest r ≡ r
  unfolding erase_oldest
  erase_oldest-short short = ground arith

  pub check_overflow-room : length r.packet ≤ max_packet_length → check_overflow r ≡ r
  unfolding check_overflow
  check_overflow-room room = ground arith

  pub check_tail-idle : r.found_header ≡ false → check_tail junk r ≡ r
  unfolding check_tail
  check_tail-idle idle = ground arith

  pub check_tail-other : end_byte junk r.packet 1 ≢ end_marker → check_tail junk r ≡ r
  unfolding check_tail
  check_tail-other other = ground arith

  pub check_tail-early : r.dimension_in_header ≢ real_size r.packet → check_tail junk r ≡ r
  unfolding check_tail
  check_tail-early early = ground arith

  pub check_tail-ends :
      r.found_header ≡ true
      → end_byte junk r.packet 1 ≡ end_marker
      → r.dimension_in_header ≡ real_size r.packet
      → check_tail junk r ≡ record r {
        packet = [];
        found_header = false;
        rx_packets = r.rx_packets ++ pop_back r.packet ∷ [];
      }
  unfolding check_tail
  check_tail-ends found tail size = ground arith

module _ (junk : Junk) (r : Receiver) (b : ℕ) where
  abbrev pub pushed : Receiver
  pushed = record r { packet = r.packet ++ b ∷ [] }

  pub length-pushed : length pushed.packet ≡ length r.packet + 1
  length-pushed = length-append r.packet (b ∷ [])

  -- Inside a frame, a byte that does not end it is added.
  pub receive_byte-payload :
      r.found_header ≡ true
      → length r.packet < max_packet_length
      → (b ≢ end_marker) ⊎ (r.dimension_in_header ≢ length r.packet % 256)
      → receive_byte junk r b ≡ record r { packet = r.packet ++ b ∷ [] }
  unfolding receive_byte
  receive_byte-payload found room other =
      ap (λ q. check_overflow (erase_oldest (check_tail junk q)))
        (check_header-found junk pushed b found)
      ∙ ap (λ q. check_overflow (erase_oldest q)) (stays other)
      ∙ ap check_overflow (erase_oldest-found junk pushed found)
      ∙ check_overflow-room junk pushed (omega (arith, length-pushed))
    where
      stays :
          (b ≢ end_marker) ⊎ (r.dimension_in_header ≢ length r.packet % 256)
          → check_tail junk pushed ≡ pushed
      stays (inl other) = check_tail-other junk pushed (rw (end_byte-1 junk r.packet b) other)
      stays (inr early) =
          check_tail-early junk pushed (omega (arith, real_size-mod pushed.packet, length-pushed))

  -- The end marker at the announced length delivers the payload.
  pub receive_byte-tail :
      r.found_header ≡ true
      → b ≡ end_marker
      → r.dimension_in_header ≡ length r.packet % 256
      → receive_byte junk r b
        ≡ record r { packet = []; found_header = false; rx_packets = r.rx_packets ++ r.packet ∷ [] }
  unfolding receive_byte
  receive_byte-tail found tail size =
      ap (λ q. check_overflow (erase_oldest (check_tail junk q)))
        (check_header-found junk pushed b found)
      ∙ ap (λ q. check_overflow (erase_oldest q))
          (check_tail-ends junk pushed found (rw (end_byte-1 junk r.packet b) tail)
            (omega (arith, real_size-mod pushed.packet, length-pushed)))
      ∙ rw (pop_back-concat r.packet b)
          (ap check_overflow (erase_oldest-short junk _ (omega arith)))
      ∙ check_overflow-room junk _ (omega arith)
