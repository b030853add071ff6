-- ===== src/Tests/Security.antt =====
-- Packets of src/desert_classes/security/SecurityLayer.cpp, with heads of byte strings as CBOR has them, and
-- a COSE library that encrypts a payload by putting a tag of three bytes in front.
use rmw_desert.Prelude.{
  ℕ, ◌+◌, ◌%◌, ◌^◌, ◌≡◌, ◌≢◌, ◌↔◌, refl, true, Option, some, none, List, [], ◌∷◌, ◌++◌, arith, ltb,
  ltb→lt, lt→ltb, inl, inr, Bool-cases, if◌then◌else◌, length, drop,
}
use rmw_desert.Security.{
  Suite, SecurityResult, SecurityLayer, generate_nonce, min_of, htonl, wrap, unwrap_packet,
}
use rmw_desert.Security.Packets.{IsSuite, cose_of, unwrap_packet-Defined, unwrap_packet-wrap}
use rmw_desert.Security.Nonce.{generate_nonce_repeats}

-- The heads of lengths of 2^16 and more are not told apart: the tests have none.
abbrev head : ℕ → List ℕ
head n =
    if ltb n 24
    then (64 + n) ∷ []
    else if ltb n 65536
    then 89 ∷ n ∷ 0 ∷ []
    else 91 ∷ n ∷ 0 ∷ 0 ∷ 0 ∷ 0 ∷ 0 ∷ 0 ∷ 0 ∷ []

abbrev content : List ℕ → Option (List ℕ)
content [] = none
content (b ∷ bs) =
    if ltb b 89 then some bs else if ltb b 91 then some (drop 2 bs) else some (drop 8 bs)

abbrev suite : Suite
suite = record {
  piv_size = 2;
  fmt_bstr = head;
  get_bstr = content;
  encode = λ piv payload. some (
      131
      ∷ 64
      ∷ 161
      ∷ 6
      ∷ (head 2 ++ (piv ++ (head (3 + length payload) ++ (7 ∷ 7 ∷ 7 ∷ payload)))));
  decode = λ cose. some (drop 11 cose);
}

content-head : (b : List ℕ) → content (head (length b) ++ b) ≡ some b
content-head b = elim (Bool-cases (ltb (length b) 24)) [
  | inl short ↦
      let low : ltb (64 + length b) 89 ≡ true =
        lt→ltb (64 + length b) 89 (omega (arith, ltb→lt (length b) 24 short)) in
      rw (short, low) refl
  | inr other ↦ elim (Bool-cases (ltb (length b) 65536)) [
    | inl medium ↦ rw (other, medium) refl
    | inr long ↦ rw (other, long) refl
  ]
]

suite-IsSuite : IsSuite suite
suite-IsSuite = record {
  short_piv = omega arith;
  fmt_bstr-short = λ n h. ground arith;
  fmt_bstr-medium = λ n h. ground arith;
  fmt_bstr-long = λ n h. ground arith;
  get_bstr-fmt_bstr = content-head;
}

abbrev layer : SecurityLayer
layer = record { piv_bytes = 0 ∷ 0 ∷ []; sender_seq_number = 515 }

unwrap_packet-Defined_example : unwrap_packet suite true (9 ∷ []) ≢ SecurityResult.undefined
unwrap_packet-Defined_example =
    unwrap_packet-Defined suite true (9 ∷ []) suite-IsSuite (omega arith)

generate_nonce_repeats_example :
    ((generate_nonce suite (record layer { sender_seq_number = 515 })).piv_bytes
      ≡ (generate_nonce suite (record layer { sender_seq_number = 66051 })).piv_bytes)
    ↔ (515 % 256 ^ 2 ≡ 66051 % 256 ^ 2)
generate_nonce_repeats_example = generate_nonce_repeats suite layer 515 66051 (omega arith)

piv_of_layer : (generate_nonce suite layer).piv_bytes ≡ 2 ∷ 3 ∷ []
unfolding generate_nonce min_of htonl
piv_of_layer = refl

encodes :
    suite.encode (generate_nonce suite layer).piv_bytes (1 ∷ 2 ∷ [])
    ≡ some (cose_of suite (generate_nonce suite layer).piv_bytes (7 ∷ 7 ∷ 7 ∷ 1 ∷ 2 ∷ []))
unfolding generate_nonce min_of htonl
encodes = refl

decodes :
    suite.decode (cose_of suite (generate_nonce suite layer).piv_bytes (7 ∷ 7 ∷ 7 ∷ 1 ∷ 2 ∷ []))
    ≡ some (1 ∷ 2 ∷ [])
unfolding generate_nonce min_of htonl
decodes = refl

unwrap_packet-wrap_example :
    (packet : List ℕ) × (layer' : SecurityLayer) × (wrap suite true (1 ∷ 2 ∷ []) layer
      ≡ (SecurityResult.ok packet, layer'))
    × (layer'.sender_seq_number ≡ (515 + 1) % 2 ^ 64)
    × (unwrap_packet suite true packet ≡ SecurityResult.ok (1 ∷ 2 ∷ []))
unwrap_packet-wrap_example =
    unwrap_packet-wrap suite true (1 ∷ 2 ∷ []) (7 ∷ 7 ∷ 7 ∷ 1 ∷ 2 ∷ []) layer suite-IsSuite refl
      (omega arith) (omega arith) encodes decodes
