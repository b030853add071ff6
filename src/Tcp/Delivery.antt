-- ===== src/Tcp/Delivery.antt =====
-- What the framing of src/desert_classes/TcpDaemon.cpp delivers: frames, noise between frames, and
-- the long packets whose payload holds an end marker.
use mathlib.Core.List.{append_assoc, append-nil}
use rmw_desert.Prelude.{
  ℕ, ◌+◌, ◌%◌, ◌≤◌, ◌<◌, ◌≡◌, refl, sym, ap, subst, ◌∙◌, map, All, ◌≢◌, ◌⊎◌, inr, true, false, List,
  [], ◌∷◌, ◌++◌, arith, length, length-append,
}
use rmw_desert.Prelude.Bits.{bit_and-255}
use rmw_desert.Tcp.{
  Bytes, Junk, Receiver, start_marker, end_marker, max_packet_length, receive_byte, receive, frame,
}
use rmw_desert.Tcp.Step.{receive_byte-payload, receive_byte-tail}
use rmw_desert.Tcp.Header.{IsTame, IsQuiet, receive-header, receive_byte-noise, slide}

-- Between frames: at most five bytes are kept, and the newest is no start marker.
pub record IsReady (r : Receiver) : Type 0 where
  pub idle : r.found_header ≡ false
  pub short : length r.packet ≤ 5
  pub quiet : IsQuiet r.packet

-- No end marker stands at an index that is `d` modulo 256; the first byte has index `k`.
abbrev pub NoEarlyTail : ℕ → ℕ → Bytes → Type 0
NoEarlyTail d k [] = Unit {0}
NoEarlyTail d k (b ∷ bs) = ((b ≢ end_marker) ⊎ (d ≢ k % 256)) × NoEarlyTail d (k + 1) bs

-- The payloads that the framing carries.
pub record IsFramable (payload : Bytes) : Type 0 where
  pub fits : length payload ≤ max_packet_length
  pub no_early_tail : NoEarlyTail (length payload % 256) 0 payload

-- The receiver after the header of a frame with length byte `d`, and after its payload.
abbrev opened : Receiver → ℕ → Receiver
opened r d = record r { packet = []; found_header = true; dimension_in_header = d }

abbrev pub delivered : Receiver → ℕ → Bytes → Receiver
delivered r d payload = record r {
  packet = [];
  found_header = false;
  dimension_in_header = d;
  rx_packets = r.rx_packets ++ payload ∷ [];
}

NoEarlyTail-short : (d k : ℕ) (bs : Bytes) → k + length bs ≤ d → d < 256 → NoEarlyTail d k bs
NoEarlyTail-short d k [] h lt = tt
NoEarlyTail-short d k (b ∷ bs) h lt =
    (inr (omega arith), NoEarlyTail-short d (k + 1) bs (omega arith) lt)

-- Every payload below 256 bytes is carried, whatever bytes it holds.
pub short-IsFramable : (payload : Bytes) → length payload < 256 → IsFramable payload
short-IsFramable payload h = record {
  fits = omega arith;
  no_early_tail = NoEarlyTail-short (length payload % 256) 0 payload (omega arith) (omega arith);
}

module _ (junk : Junk) where
  pub receive-append :
      (r : Receiver) (xs ys : Bytes)
      → receive junk r (xs ++ ys) ≡ receive junk (receive junk r xs) ys
  unfolding receive
  receive-append r [] ys = refl
  receive-append r (x ∷ xs) ys = receive-append (receive_byte junk r x) xs ys

  receive-cons :
      (r : Receiver) (b : ℕ) (bs : Bytes)
      → receive junk r (b ∷ bs) ≡ receive junk (receive_byte junk r b) bs
  unfolding receive
  receive-cons r b bs = refl

  -- Inside a frame the payload is collected.
  receive-payload :
      (bs rest : Bytes) (r : Receiver)
      → r.found_header ≡ true
      → length r.packet + length bs ≤ max_packet_length
      → NoEarlyTail r.dimension_in_header (length r.packet) bs
      → receive junk r (bs ++ rest) ≡ receive junk (record r { packet = r.packet ++ bs }) rest
  unfolding receive
  receive-payload [] rest r found room clear =
      ap (λ p. receive junk (record r { packet = p }) rest) (sym (append-nil r.packet))
  receive-payload (b ∷ bs) rest r found room clear =
      ap (λ q. receive junk q (bs ++ rest))
        (receive_byte-payload junk r b found (omega arith) clear.0)
      ∙ receive-payload bs rest (record r { packet = r.packet ++ b ∷ [] }) found
          (omega (arith, length-append r.packet (b ∷ [])))
          (rw (length-append r.packet (b ∷ [])) clear.1)
      ∙ ap (λ p. receive junk (record r { packet = p }) rest) (append_assoc r.packet (b ∷ []) bs)

  -- An open frame is delivered at the first end marker that stands at the announced length.
  receive-body :
      (r : Receiver) (d : ℕ) (bs rest : Bytes)
      → d ≡ length bs % 256
      → length bs ≤ max_packet_length
      → NoEarlyTail d 0 bs
      → receive junk (opened r d) (bs ++ end_marker ∷ rest) ≡ receive junk (delivered r d bs) rest
  unfolding receive
  receive-body r d bs rest size fits clear =
      receive-payload bs (end_marker ∷ rest) (opened r d) refl (omega arith) clear
      ∙ ap (λ q. receive junk q rest)
          (receive_byte-tail junk (record (opened r d) { packet = bs }) end_marker refl refl size)

  module _ (tame : IsTame junk) where
    receive_open :
        (r : Receiver) (d : ℕ) (rest : Bytes)
        → IsReady r
        → receive junk r (start_marker ∷ start_marker ∷ d ∷ rest) ≡ receive junk (opened r d) rest
    receive_open r d rest ready =
        receive-header junk tame r d rest ready.idle ready.short ready.quiet

    -- A frame is delivered whole, and what follows it is read from a fresh state.
    pub receive-frame :
        (r : Receiver) (payload rest : Bytes)
        → IsReady r
        → IsFramable payload
        → receive junk r (frame payload ++ rest)
          ≡ receive junk (delivered r (length payload % 256) payload) rest
    unfolding frame
    receive-frame r payload rest ready framable =
        receive_open r _ _ ready
        ∙ rw (bit_and-255 (length payload), append_assoc payload (end_marker ∷ []) rest)
            (receive-body r (length payload % 256) payload rest refl framable.fits
              framable.no_early_tail)

    -- A payload with an end marker at an index that is its length modulo 256 is cut there: what is
    -- delivered is the part in front of that marker, and the remainder is read as what follows the
    -- frame. Conditions: the receiver is between frames, the part in front is one that the framing
    -- carries, and the reads in front of the vector yield no marker.
    pub receive-frame_cut :
        (r : Receiver) (cut remainder : Bytes)
        → IsReady r
        → IsFramable cut
        → length (cut ++ end_marker ∷ remainder) % 256 ≡ length cut % 256
        → receive junk r (frame (cut ++ end_marker ∷ remainder))
          ≡ receive junk (delivered r (length cut % 256) cut) (remainder ++ end_marker ∷ [])
    unfolding frame
    receive-frame_cut r cut remainder ready framable same =
        receive_open r _ _ ready
        ∙ rw
            (
              bit_and-255 (length (cut ++ end_marker ∷ remainder)),
              same,
              append_assoc cut (end_marker ∷ remainder) (end_marker ∷ []),
            )
            (receive-body r (length cut % 256) cut _ refl framable.fits framable.no_early_tail)

    receive-noise :
        (noise : Bytes) (r : Receiver)
        → All (λ b. b ≢ start_marker) noise
        → IsReady r
        → IsReady (receive junk r noise) × ((receive junk r noise).rx_packets ≡ r.rx_packets)
    receive-noise [] r clear ready = unfold receive in (ready, refl)
    receive-noise (b ∷ bs) r clear ready =
        let (e, short, quiet) =
          receive_byte-noise junk tame r b clear.0 ready.idle ready.short ready.quiet in
        subst (λ q. IsReady q × (q.rx_packets ≡ r.rx_packets))
          (sym (receive-cons r b bs ∙ ap (λ q. receive junk q bs) e))
          (receive-noise bs (record r { packet = slide r.packet b }) clear.1
            (record { idle = ready.idle; short = short; quiet = quiet }))

-- What may stand on the line: noise without start markers, then a frame.
pub record Segment : Type 0 where
  pub noise : Bytes
  pub payload : Bytes

pub record IsCarried (s : Segment) : Type 0 where
  pub clear : All (λ b. b ≢ start_marker) s.noise
  pub framable : IsFramable s.payload

abbrev pub stream : List Segment → Bytes
stream [] = []
stream (s ∷ ss) = s.noise ++ (frame s.payload ++ stream ss)

-- A receiver between frames delivers the payloads of a stream of frames, each once and in order,
-- whatever noise without start markers stands in front of each, and is then between frames again.
-- Conditions: the payloads have at most 512 bytes and no end marker at an index that is their length
-- modulo 256, and the reads in front of the vector yield no marker.
pub receive-stream :
    (junk : Junk) (r : Receiver) (ss : List Segment)
    → IsTame junk
    → IsReady r
    → All IsCarried ss
    → ((receive junk r (stream ss)).rx_packets ≡ r.rx_packets ++ map (λ s. s.payload) ss)
      × IsReady (receive junk r (stream ss))
receive-stream junk r [] tame ready carried = unfold receive in (sym (append-nil _), ready)
receive-stream junk r (s ∷ ss) tame ready carried =
    let (ready', kept) = receive-noise junk tame s.noise r carried.0.clear ready in
    let q = receive junk r s.noise in
    let here =
      receive-append junk r s.noise (frame s.payload ++ stream ss)
      ∙ receive-frame junk tame q s.payload (stream ss) ready' carried.0.framable in
    let (later, ready'') =
      receive-stream junk (delivered q (length s.payload % 256) s.payload) ss tame
        (record { idle = refl; short = omega arith; quiet = λ e. cc }) carried.1 in
    rw here (later ∙ rw kept (append_assoc r.rx_packets _ _), ready'')
