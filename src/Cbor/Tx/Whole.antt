-- ===== src/Cbor/Tx/Whole.antt =====
-- `TxStream` of src/desert_classes/NanoCBorStream.cpp from the start of a transmission to its end: the
-- packet that is handed to the daemon, and the overflow of its buffer.
use mathlib.Core.List.{append_assoc, append-nil}
use rmw_desert.Prelude.{
  ◌+◌, ◌≤◌, ◌<◌, ◌≡◌, refl, ap, ◌∙◌, true, false, Option, some, none, List, [], ◌∷◌, ◌++◌, inl, inr,
  arith, leb, if◌then◌else◌, length, length-append, Bool-cases,
}
use rmw_desert.Tcp.{Bytes, Daemon, enqueue_packet, max_packet_length}
use rmw_desert.Cbor.{Item, Nanocbor}
use rmw_desert.Cbor.Tx.{
  TxStream, new_packet, write_item, write_uint64, write_uint8, serialize_sequence,
  start_transmission, end_transmission,
}

module _ {F : Type 0} (c : Nanocbor F) where
  abbrev pub encoded : List (Item F) → Bytes
  encoded [] = []
  encoded (i ∷ items) = c.put i ++ encoded items

  -- The items of a message with its header.
  abbrev pub message : TxStream → List (Item F) → List (Item F)
  message t items = Item.uint t.stream_type ∷ Item.uint t.stream_identifier ∷ items

  write_item-fits :
      (i : Item F) (t : TxStream)
      → length t.packet + length (c.put i) ≤ max_packet_length
      → write_item c i t ≡ record t { packet = t.packet ++ c.put i }
  unfolding write_item
  write_item-fits i t h = ground arith

  write_item-overflow :
      (i : Item F) (t : TxStream)
      → max_packet_length < length t.packet + length (c.put i)
      → write_item c i t ≡ record t { overflow = true }
  unfolding write_item
  write_item-overflow i t h = ground arith

  overflow_stays :
      (items : List (Item F)) (t : TxStream)
      → t.overflow ≡ true
      → (serialize_sequence c (write_item c) items t).overflow ≡ true
  unfolding serialize_sequence write_item
  overflow_stays [] t h = h
  overflow_stays (i ∷ items) t h = overflow_stays items (write_item c i t) (ground arith)

  serialize-fits :
      (items : List (Item F)) (t : TxStream)
      → length t.packet + length (encoded items) ≤ max_packet_length
      → serialize_sequence c (write_item c) items t
        ≡ record t { packet = t.packet ++ encoded items }
  unfolding serialize_sequence
  serialize-fits [] t h = rw (append-nil t.packet)
  serialize-fits (i ∷ items) t h =
      let size = length-append (c.put i) (encoded items) in
      let more = length-append t.packet (c.put i) in
      ap (serialize_sequence c (write_item c) items) (write_item-fits i t (omega arith))
      ∙ serialize-fits items (record t { packet = t.packet ++ c.put i }) (omega arith)
      ∙ rw (append_assoc t.packet (c.put i) (encoded items))

  serialize-overflow :
      (items : List (Item F)) (t : TxStream)
      → max_packet_length < length t.packet + length (encoded items)
      → length t.packet ≤ max_packet_length
      → (serialize_sequence c (write_item c) items t).overflow ≡ true
  unfolding serialize_sequence
  serialize-overflow [] t h room = absurd (omega arith)
  serialize-overflow (i ∷ items) t h room =
      elim (Bool-cases (leb (length t.packet + length (c.put i)) max_packet_length)) [
        | inl fits ↦
            (let here : length t.packet + length (c.put i) ≤ max_packet_length = ground arith in
              let size = length-append (c.put i) (encoded items) in
              let more = length-append t.packet (c.put i) in
              ap (λ u. (serialize_sequence c (write_item c) items u).overflow)
                (write_item-fits i t here)
              ∙ (serialize-overflow items (record t { packet = t.packet ++ c.put i }) (omega arith)
                  (omega arith)))
        | inr over ↦
            (let here : max_packet_length < length t.packet + length (c.put i) = ground arith in
              ap (λ u. (serialize_sequence c (write_item c) items u).overflow)
                (write_item-overflow i t here)
              ∙ overflow_stays items (record t { overflow = true }) refl)
      ]

  start-message :
      (t : TxStream) (items : List (Item F))
      → serialize_sequence c (write_item c) items (start_transmission c t)
        ≡ serialize_sequence c
            (write_item c)
            (message t items)
            (record t { packet = []; overflow = false })
  unfolding start_transmission serialize_sequence new_packet write_uint8 write_uint64
  start-message t items = refl

  -- A message is enqueued whole, behind its stream type and identifier, or not at all: where the whole
  -- is longer than the buffer of 512 bytes, or the security layer refuses it, the daemon stays as it
  -- was.
  pub end_transmission_whole :
      (wrap : Bytes → Option Bytes) (t : TxStream) (items : List (Item F)) (d : Daemon)
      → end_transmission wrap (serialize_sequence c (write_item c) items (start_transmission c t)) d
        ≡ (if leb (length (encoded (message t items))) max_packet_length
            then elim (wrap (encoded (message t items))) [
              | none ↦ d
              | some wrapped ↦ enqueue_packet d wrapped
            ]
            else d)
  unfolding end_transmission
  end_transmission_whole wrap t items d =
      elim (Bool-cases (leb (length (encoded (message t items))) max_packet_length)) [
        | inl fits ↦
            (let here : 0 + length (encoded (message t items)) ≤ max_packet_length = ground arith in
              rw (
                start-message t items,
                fits,
                serialize-fits (message t items) (record t { packet = []; overflow = false }) here,
              ))
        | inr over ↦
            (let here : max_packet_length < 0 + length (encoded (message t items)) = ground arith in
              rw (
                start-message t items,
                over,
                serialize-overflow (message t items) (record t { packet = []; overflow = false })
                    here (omega arith),
              ))
      ]
