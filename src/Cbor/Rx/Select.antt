-- ===== src/Cbor/Rx/Select.antt =====
-- How `data_available` of src/desert_classes/NanoCBorStream.cpp picks a packet by its sequence
-- identifier, on queues with room.
use mathlib.Core.List.{append_assoc, append-nil}
use rmw_desert.Prelude.{
  ℕ, suc, ◌+◌, ◌≤◌, ◌<◌, ◌≡◌, refl, sym, subst, ap, ap₂, lt→ltb, ◌∙◌, true, false, List, [], ◌∷◌,
  ◌++◌, arith, length, length-append, All,
}
use rmw_desert.Prelude.Int.{ℤ, pos}
use rmw_desert.Cbor.Queue.{max_buffer_capacity, pop, push}
use rmw_desert.Cbor.Rx.{
  Field, Lookup, RxStream, as_int64, same, take_front, rotate, search_loop, data_available,
}

module _ {F : Type 0} (alias : Field F → ℤ) (id : ℤ) where
  -- A packet has a first field, and this is another sequence identifier, or the one searched for.
  abbrev pub Misses : List (Field F) → Type 0
  Misses [] = ⊥
  Misses (first ∷ fields) = same (as_int64 alias first) id ≡ false

  abbrev pub Hits : List (Field F) → Type 0
  Hits [] = ⊥
  Hits (first ∷ fields) = same (as_int64 alias first) id ≡ true

  rotate_room :
      (x : List (Field F)) (xs : List (List (Field F)))
      → length (x ∷ xs) < max_buffer_capacity
      → rotate (x ∷ xs) ≡ Lookup.returns (xs ++ x ∷ [])
  unfolding rotate push pop
  rotate_room x xs h = ground arith

  with_queue : List (List (Field F)) → RxStream F → RxStream F
  with_queue queue r = record r { received_packets = queue }

  search_skip :
      (rounds i : ℕ) (r : RxStream F) (x : List (Field F)) (xs : List (List (Field F)))
      → length (x ∷ xs) < max_buffer_capacity
      → i < length (x ∷ xs)
      → Misses x
      → search_loop alias id (suc rounds) i (with_queue (x ∷ xs) r)
        ≡ search_loop alias id rounds (i + 1) (with_queue (xs ++ x ∷ []) r)
  unfolding search_loop with_queue
  search_skip rounds i r [] xs room h miss = absurd miss
  search_skip rounds i r (first ∷ fields) xs room h miss =
      rw (lt→ltb i (length ((first ∷ fields) ∷ xs)) h, miss, rotate_room (first ∷ fields) xs room)

  search_found :
      (rounds i : ℕ) (r : RxStream F) (x : List (Field F)) (xs : List (List (Field F)))
      → i < length (x ∷ xs)
      → Hits x
      → search_loop alias id (suc rounds) i (with_queue (x ∷ xs) r)
        ≡ Lookup.returns (true, take_front 1 x xs r)
  unfolding search_loop with_queue take_front
  search_found rounds i r [] xs h hit = absurd hit
  search_found rounds i r (first ∷ fields) xs h hit =
      rw (lt→ltb i (length ((first ∷ fields) ∷ xs)) h, hit)

  -- Packets that miss go to the back, in their order.
  search_pass :
      (misses : List (List (Field F))) (ys : List (List (Field F))) (rounds i : ℕ) (r : RxStream F)
      → All Misses misses
      → length (misses ++ ys) < max_buffer_capacity
      → i + length misses ≤ length (misses ++ ys)
      → search_loop alias id (rounds + length misses) i (with_queue (misses ++ ys) r)
        ≡ search_loop alias id rounds (i + length misses) (with_queue (ys ++ misses) r)
  search_pass [] ys rounds i r all few fits =
      let e : rounds + 0 ≡ rounds = omega arith in
      let e' : i + 0 ≡ i = omega arith in rw (append-nil, e, e')
  search_pass (x ∷ misses) ys rounds i r (miss, all) few fits =
      let back : misses ++ (ys ++ x ∷ []) ≡ (misses ++ ys) ++ x ∷ [] =
        sym (append_assoc misses ys (x ∷ [])) in
      let front : (ys ++ x ∷ []) ++ misses ≡ ys ++ x ∷ misses = append_assoc ys (x ∷ []) misses in
      let size : length (misses ++ (ys ++ x ∷ [])) ≡ suc (length (misses ++ ys)) =
        ap length back ∙ (length-append (misses ++ ys) (x ∷ []) ∙ omega arith) in
      let one : i + 1 + length misses ≡ i + suc (length misses) = omega arith in
      let more : rounds + suc (length misses) ≡ suc (rounds + length misses) = omega arith in
      let skipped =
        search_skip (rounds + length misses) i r x (misses ++ ys) few (omega arith) miss in
      let rest =
        search_pass misses (ys ++ x ∷ []) rounds (i + 1) r all (omega arith) (omega arith) in
      ap (λ n. search_loop alias id n i (with_queue (x ∷ misses ++ ys) r)) more
      ∙ skipped
      ∙ ap (λ q. search_loop alias id (rounds + length misses) (i + 1) (with_queue q r)) (sym back)
      ∙ rest
      ∙ ap₂ (λ n q. search_loop alias id rounds n (with_queue q r)) one front

  data_available_start :
      (queue : List (List (Field F))) (r : RxStream F)
      → same id (pos 0) ≡ false
      → data_available alias id (with_queue queue (record r { buffered_packet = [] }))
        ≡ search_loop alias id
            (length queue)
            0
            (with_queue queue (record r { buffered_packet = [] }))
  unfolding data_available with_queue search_loop
  data_available_start [] r one = refl
  data_available_start (x ∷ xs) r one = rw one

  data_available_searches :
      (r : RxStream F)
      → r.buffered_packet ≡ []
      → same id (pos 0) ≡ false
      → data_available alias id r
        ≡ search_loop alias id (length r.received_packets) 0 (with_queue r.received_packets r)
  unfolding data_available with_queue
  data_available_searches r idle one =
      subst
        (λ b.
          data_available alias id (record r { buffered_packet = b })
          ≡ search_loop alias id (length r.received_packets) 0 (record r { buffered_packet = b }))
        (sym idle) (data_available_start r.received_packets r one)

  -- Where no packet has the identifier, the search returns the stream as it was. Conditions: no packet
  -- is buffered, the queue has room, the identifier is not zero, and each packet has a first field.
  pub data_available_keeps :
      (r : RxStream F)
      → r.buffered_packet ≡ []
      → length r.received_packets < max_buffer_capacity
      → same id (pos 0) ≡ false
      → All Misses r.received_packets
      → data_available alias id r ≡ Lookup.returns (false, r)
  unfolding with_queue search_loop
  data_available_keeps r idle few one all =
      let n = length r.received_packets in
      let same_queue : r.received_packets ++ [] ≡ r.received_packets =
        append-nil r.received_packets in
      let size = ap length same_queue in
      let pass = search_pass r.received_packets [] 0 0 r all (omega arith) (omega arith) in
      let zero_rounds : n ≡ 0 + n = omega arith in
      data_available_searches r idle one
      ∙ ap₂ (λ k q. search_loop alias id k 0 (with_queue q r)) zero_rounds (sym same_queue)
      ∙ pass

  -- The oldest packet with the identifier becomes the buffered one, to be read behind the identifier.
  -- The others stay: those that were behind it are now in front of those that were ahead of it.
  -- Conditions: no packet is buffered, the queue has room, the identifier is not zero, and each packet
  -- ahead has a first field.
  pub data_available_picks :
      (misses : List (List (Field F))) (packet : List (Field F)) (after : List (List (Field F)))
      (r : RxStream F)
      → r.received_packets ≡ misses ++ packet ∷ after
      → r.buffered_packet ≡ []
      → length r.received_packets < max_buffer_capacity
      → same id (pos 0) ≡ false
      → All Misses misses
      → Hits packet
      → data_available alias id r ≡ Lookup.returns (true, take_front 1 packet (after ++ misses) r)
  unfolding with_queue
  data_available_picks misses packet after r queue idle few one all hit =
      let size : length r.received_packets ≡ length misses + suc (length after) =
        ap length queue ∙ length-append misses (packet ∷ after) in
      let rounds : length r.received_packets ≡ suc (length after) + length misses = omega arith in
      let room : length (misses ++ packet ∷ after) < max_buffer_capacity = rw⁻¹ queue few in
      data_available_searches r idle one
      ∙ ap₂ (λ n q. search_loop alias id n 0 (with_queue q r)) rounds queue
      ∙ search_pass misses (packet ∷ after) (suc (length after)) 0 r all room
          (omega (arith, length-append misses (packet ∷ after)))
      ∙ search_found (length after) (0 + length misses) r packet (after ++ misses)
          (omega (arith, length-append after misses)) hit
