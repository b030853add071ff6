-- ===== src/Tcp/Queues.antt =====
-- The send loop of src/desert_classes/TcpDaemon.cpp, and a transfer from one daemon to another.
use mathlib.Core.List.{append_assoc}
use rmw_desert.Prelude.{
  ℕ, zero, suc, ◌+◌, ◌-◌, ◌/◌, ◌^◌, ◌<◌, ◌≡◌, refl, sym, ap, ◌∙◌, true, false, List, [], ◌∷◌, ◌++◌,
  arith, length, take, drop, map, All, ltb, Bool-cases, inl, inr, take-append-drop, length-drop,
}
use rmw_desert.Tcp.{
  Bytes, Junk, Daemon, frame, receive, send_loop, send_round, send_rounds, receive_round,
  receive_rounds,
}
use native.Mathlib.Nat.{pow-suc}
use rmw_desert.Tcp.Header.{IsTame}
use rmw_desert.Tcp.Delivery.{
  IsReady, IsFramable, Segment, IsCarried, stream, receive-stream, receive-append,
}
use rmw_desert.Tcp.Socket.{read_loop-single}

abbrev pub frames : List Bytes → Bytes
frames [] = []
frames (p ∷ ps) = frame p ++ frames ps

take_nil {ℓ} : {A : Type ℓ} (n : ℕ) → take {A = A} n [] ≡ []
take_nil zero = refl
take_nil (suc n) = refl

drop_nil {ℓ} : {A : Type ℓ} (n : ℕ) → drop {A = A} n [] ≡ []
drop_nil zero = refl
drop_nil (suc n) = refl

send_loop-take :
    (i : ℕ) (q : List Bytes)
    → send_loop i q ≡ (frames (take ((length q + 1 - i) / 2) q), drop ((length q + 1 - i) / 2) q)
unfolding send_loop
send_loop-take i [] = rw (take_nil ((1 - i) / 2), drop_nil ((1 - i) / 2))
send_loop-take i (p ∷ ps) = elim (Bool-cases (ltb i (length (p ∷ ps)))) [
  | inl more ↦ rw (more, sent more, send_loop-take (i + 1) ps)
  | inr done ↦ rw (done, kept done)
]
  where
    sent :
        ltb i (length (p ∷ ps)) ≡ true
        → (length (p ∷ ps) + 1 - i) / 2 ≡ suc ((length ps + 1 - (i + 1)) / 2)
    sent h = ground arith

    kept : ltb i (length (p ∷ ps)) ≡ false → (length (p ∷ ps) + 1 - i) / 2 ≡ 0
    kept h = ground arith

frames-append : (ps qs : List Bytes) → frames (ps ++ qs) ≡ frames ps ++ frames qs
frames-append [] qs = refl
frames-append (p ∷ ps) qs = rw (frames-append ps qs, append_assoc (frame p))

-- A round sends the older half of the queue, rounded up, in order, and keeps the other packets.
pub send_round_half :
    (d : Daemon)
    → send_round d ≡ (
      frames (take ((length d.tx_packets + 1) / 2) d.tx_packets),
      record d { tx_packets = drop ((length d.tx_packets + 1) / 2) d.tx_packets },
    )
unfolding send_round
send_round_half d = rw (send_loop-take 0 d.tx_packets, half)
  where
    half : (length d.tx_packets + 1 - 0) / 2 ≡ (length d.tx_packets + 1) / 2
    half = omega arith

-- `k` rounds send every packet of a queue of fewer than 2 ^ k packets, in order and once.
pub send_rounds_drain :
    (k : ℕ) (d : Daemon)
    → length d.tx_packets < 2 ^ k
    → send_rounds k d ≡ (frames d.tx_packets, record d { tx_packets = [] })
unfolding send_rounds
send_rounds_drain zero d h = empty d.tx_packets h
  where
    empty :
        (q : List Bytes)
        → length q < 1
        → ◌≡◌ {A = Bytes × Daemon}
            ([], record d { tx_packets = q })
            (frames q, record d { tx_packets = [] })
    empty [] h = refl
    empty (p ∷ ps) h = absurd (omega arith)
send_rounds_drain (suc k) d h =
    let q = d.tx_packets in
    let n = (length q + 1) / 2 in
    let few : length (drop n q) < 2 ^ k = omega (arith, length-drop n q, pow-suc 2 k) in
    rw (
      send_round_half d,
      send_rounds_drain k (record d { tx_packets = drop n q }) few,
      ← frames-append (take n q) (drop n q),
      take-append-drop n q,
    )

segment : Bytes → Segment
segment p = record { noise = []; payload = p }

stream-frames : (ps : List Bytes) → stream (map segment ps) ≡ frames ps
unfolding segment
stream-frames [] = refl
stream-frames (p ∷ ps) = rw (stream-frames ps)

payloads-segment : (ps : List Bytes) → map (λ s. s.payload) (map segment ps) ≡ ps
unfolding segment
payloads-segment [] = refl
payloads-segment (p ∷ ps) = ap (◌∷◌ p) (payloads-segment ps)

segment-IsCarried : (ps : List Bytes) → All IsFramable ps → All IsCarried (map segment ps)
unfolding segment
segment-IsCarried [] h = tt
segment-IsCarried (p ∷ ps) h = (record { clear = tt; framable = h.0 }, segment-IsCarried ps h.1)

-- Rounds that each read once, into a buffer, or find nothing to read.
abbrev pub single_reads : List (Bytes × Bytes) → List (Bytes × List Bytes)
single_reads [] = []
single_reads ((buffer, chunk) ∷ reads) = (buffer, chunk ∷ []) ∷ single_reads reads

-- The bytes of all the reads.
abbrev pub bytes_of : List (Bytes × Bytes) → Bytes
bytes_of [] = []
bytes_of ((buffer, chunk) ∷ reads) = chunk ++ bytes_of reads

receive_rounds-single_reads :
    (junk : Junk) (d : Daemon) (reads : List (Bytes × Bytes))
    → (receive_rounds junk d (single_reads reads)).receiver
      ≡ receive junk d.receiver (bytes_of reads)
unfolding receive_rounds receive_round receive
receive_rounds-single_reads junk d [] = refl
receive_rounds-single_reads junk d ((buffer, chunk) ∷ reads) =
    receive_rounds-single_reads junk (receive_round junk d buffer (chunk ∷ [])) reads
    ∙ ap (λ bytes. receive junk (receive junk d.receiver bytes) (bytes_of reads))
        (read_loop-single buffer chunk)
    ∙ sym (receive-append junk d.receiver chunk (bytes_of reads))

-- What one daemon has queued arrives at another, in order, once the sender's rounds have emptied its
-- queue, `k` rounds for fewer than 2 ^ k packets, and the receiver's rounds have read all the bytes, cut
-- into chunks in any way. Conditions: no round of the receiver reads twice, the receiver is between
-- frames, the framing carries the packets, and the reads in front of the vector yield no marker.
pub transfer :
    (junk : Junk) (sender receiver : Daemon) (k : ℕ) (reads : List (Bytes × Bytes))
    → IsTame junk
    → IsReady receiver.receiver
    → All IsFramable sender.tx_packets
    → length sender.tx_packets < 2 ^ k
    → bytes_of reads ≡ (send_rounds k sender).0
    → (receive_rounds junk receiver (single_reads reads)).receiver.rx_packets
      ≡ receiver.receiver.rx_packets ++ sender.tx_packets
transfer junk sender receiver k reads tame ready framable few arrived =
    let ps = sender.tx_packets in
    rw
      (
        receive_rounds-single_reads junk receiver reads,
        arrived,
        send_rounds_drain k sender few,
        ← stream-frames ps,
      )
      ((receive-stream junk receiver.receiver (map segment ps) tame ready
          (segment-IsCarried ps framable)).0
        ∙ rw (payloads-segment ps))
