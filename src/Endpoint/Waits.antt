-- ===== src/Endpoint/Waits.antt =====
-- The packets that the streams have buffered, over the calls that `rmw_wait` of src/rmw.cpp makes.
use rmw_desert.Prelude.{
  ℕ, zero, suc, ◌≡◌, refl, sym, ap, ap₂, subst, ◌∙◌, ◌⊎◌, inl, inr, Bool, true, false, ◌&&◌, ◌==◌,
  Option, none, some, List, [], ◌∷◌, map, arith, length, get_elem?, set, Bool-cases, Option-cases,
  if◌then◌else◌,
}
use rmw_desert.Tcp.{Bytes, Daemon}
use rmw_desert.Topics.{TopicsConfig}
use rmw_desert.Cbor.{Nanocbor}
use rmw_desert.Prelude.Int.{ℤ, pos}
use rmw_desert.Cbor.Rx.{Field, Lookup, RxStream, push_packet, data_available}
use rmw_desert.Message.{Result, ◌>>=◌}
use rmw_desert.Endpoint.{
  Setup, World, of_outcome, update_stream, on_stream, available, interpret, stream_has_data,
}
use rmw_desert.Endpoint.Subscriber
use rmw_desert.Endpoint.Client
use rmw_desert.Endpoint.Service
use rmw_desert.Endpoint.Rmw.{Entries, get_has_triggered, wait_loop, wait_for, rmw_wait}
use rmw_desert.Cbor.Interpret.{
  Outcome, Interpreted, stream_type_match, dispatch, interpret_packet, interpret_loop,
  interpret_packets,
}
use rmw_desert.Cbor.Interpret.Fields.{deliver, dispatch-known}

-- What holds of a result if there is one.
abbrev pub Holds : {A : Type 0} → (A → Type 0) → Outcome A → Type 0
Holds P (Outcome.done a) = P a
Holds P Outcome.out_of_range = Unit
Holds P Outcome.endless = Unit

pub Holds-map :
    {A : Type 0} {P Q : A → Type 0} (o : Outcome A) → ((a : A) → P a → Q a) → Holds P o → Holds Q o
Holds-map (Outcome.done a) f h = f a h
Holds-map Outcome.out_of_range f h = tt
Holds-map Outcome.endless f h = tt

Outcome-cases :
    {A : Type 0} (o : Outcome A)
    → ((a : A) × (o ≡ Outcome.done a)) ⊎ ((o ≡ Outcome.out_of_range) ⊎ (o ≡ Outcome.endless))
Outcome-cases (Outcome.done a) = inl (a, refl)
Outcome-cases Outcome.out_of_range = inr (inl refl)
Outcome-cases Outcome.endless = inr (inr refl)

lookup_cases :
    {A : Type 0} (o : Lookup A)
    → ((o ≡ Lookup.out_of_range) ⊎ (o ≡ Lookup.undefined)) ⊎ ((a : A) × (o ≡ Lookup.returns a))
lookup_cases (Lookup.returns a) = inr (a, refl)
lookup_cases Lookup.out_of_range = inl (inl refl)
lookup_cases Lookup.undefined = inl (inr refl)

module _ {F : Type 0} where
  abbrev pub buffers : List (RxStream F) → List (List (Field F))
  buffers streams = map (λ r. r.buffered_packet) streams

  deliver-buffer :
      (packet : Interpreted F) (type : ℕ) (r : RxStream F)
      → (deliver packet type r).buffered_packet ≡ r.buffered_packet
  unfolding push_packet
  deliver-buffer packet type r =
      elim (Bool-cases (r.stream_type == type && r.stream_identifier == packet.stream_identifier)) [
        | inl listens ↦ rw listens
        | inr other ↦ rw other
      ]

  deliver-buffers :
      (packet : Interpreted F) (type : ℕ) (streams : List (RxStream F))
      → buffers (map (deliver packet type) streams) ≡ buffers streams
  deliver-buffers packet type [] = refl
  deliver-buffers packet type (r ∷ streams) =
      ap₂ (◌∷◌) (deliver-buffer packet type r) (deliver-buffers packet type streams)

  dispatch-Holds :
      (packet : Interpreted F) (streams : List (RxStream F))
      → Holds (λ streams'. buffers streams' ≡ buffers streams) (dispatch packet streams)
  unfolding dispatch
  dispatch-Holds packet [] = refl
  dispatch-Holds packet (r ∷ streams) = elim (Option-cases (stream_type_match packet.stream_type)) [
    | inl unknown ↦ rw (dispatch, unknown) tt
    | inr (type, known) ↦
        rw (dispatch-known packet type (r ∷ streams) known)
          (deliver-buffers packet type (r ∷ streams))
  ]

  after_dispatch :
      {A : Type 0} (streams : List (RxStream F)) (o : Outcome (List (RxStream F)))
      (next : List (RxStream F) → Outcome (A × List (RxStream F)))
      → Holds (λ streams'. buffers streams' ≡ buffers streams) o
      → ((streams' : List (RxStream F))
          → Holds (λ p. buffers p.1 ≡ buffers streams') (next streams'))
      → Holds
          (λ p. buffers p.1 ≡ buffers streams)
          (elim o [
            | Outcome.done streams' ↦ next streams'
            | Outcome.out_of_range ↦ Outcome.out_of_range
            | Outcome.endless ↦ Outcome.endless
          ])
  after_dispatch streams (Outcome.done streams') next h later =
      Holds-map (next streams') (λ p e. e ∙ h) (later streams')
  after_dispatch streams Outcome.out_of_range next h later = tt
  after_dispatch streams Outcome.endless next h later = tt

  interpret_loop-Holds :
      (c : Nanocbor F) (topics : TopicsConfig) (unwrap : Bytes → Option Bytes)
      (packets : List Bytes) (streams : List (RxStream F))
      → Holds (λ p. buffers p.1 ≡ buffers streams) (interpret_loop c topics unwrap packets streams)
  unfolding interpret_loop
  interpret_loop-Holds c topics unwrap [] streams = refl
  interpret_loop-Holds c topics unwrap ([] ∷ packets) streams = refl
  interpret_loop-Holds c topics unwrap ((b ∷ bs) ∷ packets) streams =
      elim (Option-cases (unwrap (b ∷ bs))) [
        | inl refused ↦
            rw (interpret_loop, refused) (interpret_loop-Holds c topics unwrap packets streams)
        | inr (packet, found) ↦ elim (Outcome-cases (interpret_packet c topics packet)) [
          | inl (none, e) ↦
              rw (interpret_loop, found, e) (interpret_loop-Holds c topics unwrap packets streams)
          | inl (some interpreted, e) ↦
              rw (interpret_loop, found, e)
                (after_dispatch streams (dispatch interpreted streams)
                  (interpret_loop c topics unwrap packets) (dispatch-Holds interpreted streams)
                  (interpret_loop-Holds c topics unwrap packets))
          | inr (inl e) ↦ rw (interpret_loop, found, e) tt
          | inr (inr e) ↦ rw (interpret_loop, found, e) tt
        ]
      ]

  interpret_packets-Holds :
      (c : Nanocbor F) (topics : TopicsConfig) (unwrap : Bytes → Option Bytes) (d : Daemon)
      (streams : List (RxStream F))
      → Holds (λ p. buffers p.1 ≡ buffers streams) (interpret_packets c topics unwrap d streams)
  unfolding interpret_packets
  interpret_packets-Holds c topics unwrap d streams =
      let loop = interpret_loop-Holds c topics unwrap d.receiver.rx_packets streams in
      elim (Outcome-cases (interpret_loop c topics unwrap d.receiver.rx_packets streams)) [
        | inl ((queue, streams'), e) ↦
            rw (interpret_packets, e) (subst (Holds (λ p. buffers p.1 ≡ buffers streams)) e loop)
        | inr (inl e) ↦ rw (interpret_packets, e) tt
        | inr (inr e) ↦ rw (interpret_packets, e) tt
      ]

-- What holds of the result of a call that returns.
abbrev pub Always : {A : Type 0} → (A → Type 0) → Result A → Type 0
Always P (Result.ok a) = P a
Always P Result.throws = Unit
Always P Result.undefined = Unit
Always P Result.endless = Unit

pub Always-then :
    {A B : Type 0} {P : A → Type 0} (Q : B → Type 0) (result : Result A) (next : A → Result B)
    → Always P result
    → ((a : A) → P a → Always Q (next a))
    → Always Q (result >>= next)
Always-then Q (Result.ok a) next h later = later a h
Always-then Q Result.throws next h later = tt
Always-then Q Result.undefined next h later = tt
Always-then Q Result.endless next h later = tt

pub Always-map :
    {A : Type 0} {P Q : A → Type 0} (result : Result A)
    → ((a : A) → P a → Q a)
    → Always P result
    → Always Q result
Always-map (Result.ok a) f h = f a h
Always-map Result.throws f h = tt
Always-map Result.undefined f h = tt
Always-map Result.endless f h = tt

-- Where a result is undefined there is nothing to keep.
unless :
    {A : Type 0} (P : A → Type 0) (bad : Bool) {a : A}
    → P a
    → Always P (if bad then Result.undefined else Result.ok a)
unless P true h = tt
unless P false h = h

of_outcome-Always :
    {A : Type 0} (P : A → Type 0) (o : Outcome A) → Holds P o → Always P (of_outcome o)
unfolding of_outcome
of_outcome-Always P (Outcome.done a) h = h
of_outcome-Always P Outcome.out_of_range h = tt
of_outcome-Always P Outcome.endless h = tt

module _ {F : Type 0} where
  -- The packets that are buffered in the one world are buffered in the other one.
  abbrev pub Kept : World F → World F → Type 0
  Kept w w' =
      (i : ℕ) (first : Field F) (fields : List (Field F))
      → get_elem? (buffers w.streams) i ≡ some (first ∷ fields)
      → get_elem? (buffers w'.streams) i ≡ some (first ∷ fields)

  replaced-buffers :
      (streams : List (RxStream F)) (j i : ℕ) (r r' : RxStream F) (fields : List (Field F))
      → get_elem? streams j ≡ some r
      → get_elem? (buffers streams) i ≡ some fields
      → (r.buffered_packet ≡ fields → r'.buffered_packet ≡ fields)
      → get_elem? (buffers (set streams j r')) i ≡ some fields
  replaced-buffers [] j i r r' fields found here keep = absurd cc
  replaced-buffers (x ∷ xs) zero zero r r' fields found here keep =
      let same : x ≡ r = cc in
      let buffered : x.buffered_packet ≡ fields = cc in
      ap some (keep (sym (ap (λ y. y.buffered_packet) same) ∙ buffered))
  replaced-buffers (x ∷ xs) zero (suc i) r r' fields found here keep = here
  replaced-buffers (x ∷ xs) (suc j) zero r r' fields found here keep = here
  replaced-buffers (x ∷ xs) (suc j) (suc i) r r' fields found here keep =
      replaced-buffers xs j i r r' fields found here keep

  by_same :
      {o : Lookup (Bool × RxStream F)} {b b' : Bool} {r r' : RxStream F}
      → o ≡ Lookup.returns (b, r)
      → o ≡ Lookup.returns (b', r')
      → r' ≡ r
  by_same e e' = cc

  data_available-buffered :
      (alias : Field F → ℤ) (sequence_id : ℤ) (r : RxStream F) (first : Field F)
      (fields : List (Field F))
      → r.buffered_packet ≡ first ∷ fields
      → data_available alias sequence_id r ≡ Lookup.returns (true, r)
  unfolding data_available
  data_available-buffered alias sequence_id r first fields e =
      let some_fields : (length r.buffered_packet == 0) ≡ false = ground (arith, ap length e) in
      rw some_fields

  module _ {D : Type 0} (s : Setup F D) where
    interpret-Kept : (w : World F) → Always (Kept w) (interpret s w)
    unfolding interpret
    interpret-Kept w =
        Always-then (Kept w)
          (of_outcome (interpret_packets s.nanocbor s.topics s.unwrap w.daemon w.streams))
          (λ p. Result.ok (record w { daemon = p.0; streams = p.1 }))
          (of_outcome-Always (λ p. buffers p.1 ≡ buffers w.streams)
            (interpret_packets s.nanocbor s.topics s.unwrap w.daemon w.streams)
            (interpret_packets-Holds s.nanocbor s.topics s.unwrap w.daemon w.streams))
          (λ p e i first fields here. ap (λ xs. get_elem? xs i) e ∙ here)

    available-Kept :
        (sequence_id : ℤ) (j : ℕ) (w : World F)
        → Always
            (λ p. Kept w p.1)
            (on_stream j (λ r. available (data_available s.alias sequence_id r)) w)
    unfolding on_stream update_stream available
    available-Kept sequence_id j w = elim (Option-cases (get_elem? w.streams j)) [
      | inl missing ↦ rw missing tt
      | inr (r, found) ↦ elim (lookup_cases (data_available s.alias sequence_id r)) [
        | inl (inl refused) ↦ rw (found, refused) tt
        | inl (inr unclear) ↦ rw (found, unclear) tt
        | inr ((b, r'), taken) ↦
            rw (found, taken)
              (unless (λ p. Kept w p.1) r'.overrun
                (λ i first fields here.
                  replaced-buffers w.streams j i r r' (first ∷ fields) found here (λ e.
                    let same : r' ≡ r =
                      by_same (data_available-buffered s.alias sequence_id r first fields e)
                        taken in
                    ap (λ x. x.buffered_packet) same ∙ e)))
      ]
    ]

    -- No call of `has_data` loses a packet that a stream has buffered.
    pub stream_has_data-Kept :
        (sequence_id : ℤ) (j : ℕ) (w : World F)
        → Always (λ p. Kept w p.1) (stream_has_data s sequence_id j w)
    unfolding stream_has_data
    stream_has_data-Kept sequence_id j w =
        Always-then (λ p. Kept w p.1) (interpret s w)
          (λ w'. on_stream j (λ r. available (data_available s.alias sequence_id r)) w')
          (interpret-Kept w)
          (λ w' first_kept.
            Always-map (on_stream j (λ r. available (data_available s.alias sequence_id r)) w')
              (λ p then_kept i first fields here.
                then_kept i first fields (first_kept i first fields here))
              (available-Kept sequence_id j w'))

-- A predicate on worlds that is kept by each test is kept by the loop.
wait_loop-Always :
    {F E : Type 0} (ready : E → World F → Result (Bool × World F))
    → ((e : E) (w : World F) → Always (λ p. Kept w p.1) (ready e w))
    → (entries : List (Option E)) (w : World F)
    → Always (λ q. Kept w q.1) (wait_loop ready entries w)
unfolding wait_loop
wait_loop-Always ready keeps [] w = λ i first fields here. here
wait_loop-Always ready keeps (none ∷ entries) w =
    Always-then (λ q. Kept w q.1) (wait_loop ready entries w) (λ q. Result.ok (none ∷ q.0, q.1))
      (wait_loop-Always ready keeps entries w) (λ q kept. kept)
wait_loop-Always ready keeps (some e ∷ entries) w =
    Always-then (λ q. Kept w q.1) (ready e w)
      (λ p.
        wait_loop ready entries p.1
        >>= (λ q. Result.ok ((if p.0 then some e else none) ∷ q.0, q.1)))
      (keeps e w)
      (λ p kept.
        Always-then (λ q. Kept w q.1) (wait_loop ready entries p.1)
          (λ q. Result.ok ((if p.0 then some e else none) ∷ q.0, q.1))
          (wait_loop-Always ready keeps entries p.1)
          (λ q later i first fields here. later i first fields (kept i first fields here)))

wait_for-Always :
    {F E : Type 0} (ready : E → World F → Result (Bool × World F))
    → ((e : E) (w : World F) → Always (λ p. Kept w p.1) (ready e w))
    → (entries : Option (List (Option E))) (start w : World F) → Kept start w
    → Always (λ q. Kept start q.1) (wait_for ready entries w)
unfolding wait_for
wait_for-Always ready keeps none start w kept = kept
wait_for-Always ready keeps (some entries) start w kept =
    Always-then (λ q. Kept start q.1) (wait_loop ready entries w) (λ q. Result.ok (some q.0, q.1))
      (wait_loop-Always ready keeps entries w)
      (λ q later i first fields here. later i first fields (kept i first fields here))

-- The four loops, one after the other.
rmw_wait-Kept :
    {F D : Type 0} (s : Setup F D) (entries : Entries) (w : World F)
    → Always (λ p. Kept w p.1) (rmw_wait s entries w)
unfolding rmw_wait Subscriber.has_data Client.has_data Service.has_data get_has_triggered
rmw_wait-Kept {F} s entries w =
    Always-then {P = λ p. Kept w p.1} (λ (p : Entries × World F). Kept w p.1)
      (wait_for (Subscriber.has_data s) entries.subscriptions w) _
      (wait_for-Always (Subscriber.has_data s)
        (λ sub. stream_has_data-Kept s (pos 0) sub.data_stream) entries.subscriptions w w
        (λ i first fields here. here))
      (λ subs kept₁.
        Always-then {P = λ p. Kept w p.1} (λ (p : Entries × World F). Kept w p.1)
          (wait_for (Client.has_data s) entries.clients subs.1) _
          (wait_for-Always (Client.has_data s)
            (λ cli. stream_has_data-Kept s cli.sequence_id cli.response_data_stream) entries.clients
            w subs.1 kept₁)
          (λ clis kept₂.
            Always-then {P = λ p. Kept w p.1} (λ (p : Entries × World F). Kept w p.1)
              (wait_for (Service.has_data s) entries.services clis.1) _
              (wait_for-Always (Service.has_data s)
                (λ ser. stream_has_data-Kept s (pos 0) ser.request_data_stream) entries.services w
                clis.1 kept₂)
              (λ sers kept₃.
                Always-then {P = λ p. Kept w p.1} (λ (p : Entries × World F). Kept w p.1)
                  (wait_for get_has_triggered entries.guard_conditions sers.1) _
                  (wait_for-Always get_has_triggered (λ con v i first fields here. here)
                    entries.guard_conditions w sers.1 kept₃)
                  (λ cons kept₄. kept₄))))

-- A packet that a stream has buffered is not lost in a wait: whatever arrives, and whichever endpoints
-- and guard conditions `rmw_wait` asks, the packet is still the buffered one of its stream when the
-- call returns. Conditions: the packet has a field, and the call returns.
pub rmw_wait_keeps :
    {F D : Type 0} (s : Setup F D) (entries entries' : Entries) (w w' : World F) (i : ℕ)
    (first : Field F) (fields : List (Field F))
    → rmw_wait s entries w ≡ Result.ok (entries', w')
    → get_elem? (buffers w.streams) i ≡ some (first ∷ fields)
    → get_elem? (buffers w'.streams) i ≡ some (first ∷ fields)
rmw_wait_keeps s entries entries' w w' i first fields returns here =
    subst (Always (λ p. Kept w p.1)) returns (rmw_wait-Kept s entries w) i first fields here
