-- ===== src/Security/Packets.antt =====
-- What becomes of a packet in `wrap` and `unwrap` of src/desert_classes/security/SecurityLayer.cpp.
use rmw_desert.Prelude.{
  ℕ, ◌+◌, ◌-◌, ◌%◌, ◌^◌, ◌≤◌, ◌<◌, ◌≡◌, ◌≢◌, refl, ap, Bool, true, false, some, List, [], ◌∷◌, ◌++◌,
  arith, length, length-append, length-take, length-drop, take, drop, ltb, lt→ltb, ltb→lt, inl, inr,
  subst, Bool-cases, Option-cases,
}
use rmw_desert.Tcp.{Bytes}
use rmw_desert.Security.{
  Suite, SecurityResult, SecurityLayer, cose_prefix, generate_nonce, min_of, htonl,
  cose_stateless_compress, cose_stateless_decompress, counted, wrap, decoded, unwrap, unwrap_packet,
}

-- NanoCBOR: a partial IV of less than 24 bytes has a head of one byte, a byte string of less than 2^16
-- a head of three at most and one of 2^32 or more a head of nine, and what is written is read back.
pub record IsSuite (s : Suite) : Type 0 where
  pub short_piv : s.piv_size < 24
  pub fmt_bstr-short : (n : ℕ) → n < 24 → length (s.fmt_bstr n) ≡ 1
  pub fmt_bstr-medium : (n : ℕ) → n < 2 ^ 16 → length (s.fmt_bstr n) ≤ 3
  pub fmt_bstr-long : (n : ℕ) → 2 ^ 32 ≤ n → length (s.fmt_bstr n) ≡ 9
  pub get_bstr-fmt_bstr : (b : Bytes) → s.get_bstr (s.fmt_bstr (length b) ++ b) ≡ some b

take-append : {A : Type 0} (xs ys : List A) → take (length xs) (xs ++ ys) ≡ xs
take-append [] ys = refl
take-append (x ∷ xs) ys = ap (λ zs. x ∷ zs) (take-append xs ys)

drop-append : {A : Type 0} (xs ys : List A) → drop (length xs) (xs ++ ys) ≡ ys
drop-append [] ys = refl
drop-append (x ∷ xs) ys = drop-append xs ys

decoded-Defined :
    (s : Suite) (result : SecurityResult Bytes)
    → result ≢ SecurityResult.undefined
    → decoded s result ≢ SecurityResult.undefined
unfolding decoded
decoded-Defined s (SecurityResult.ok cose) h = elim (Option-cases (s.decode cose)) [
  | inl refused ↦ rw (decoded, refused) (λ e. cc)
  | inr (payload, found) ↦ rw (decoded, found) (λ e. cc)
]
decoded-Defined s (SecurityResult.error e) h = h
decoded-Defined s SecurityResult.undefined h = h

decompress-Defined :
    (s : Suite) (packet : Bytes)
    → IsSuite s
    → length packet < 2 ^ 32
    → cose_stateless_decompress s packet (length packet + 12) ≢ SecurityResult.undefined
unfolding cose_stateless_decompress
decompress-Defined s packet suite small =
    let short_piv = suite.short_piv in
    let piv_head = suite.fmt_bstr-short s.piv_size short_piv in
    let payload_len = (length packet + 2 ^ 64 - s.piv_size) % 2 ^ 64 in
    let decompressed_len =
      (4
        + length (s.fmt_bstr s.piv_size)
        + s.piv_size
        + length (s.fmt_bstr payload_len)
        + payload_len)
      % 2 ^ 64 in
    elim (Bool-cases (ltb (length packet) s.piv_size)) [
      | inl too_short ↦
          let below : length packet < s.piv_size = ltb→lt (length packet) s.piv_size too_short in
          let wrapped : payload_len ≡ length packet + 2 ^ 64 - s.piv_size = omega arith in
          let head = suite.fmt_bstr-long payload_len (omega arith) in
          let over : ltb (length packet + 12) decompressed_len ≡ true = lt→ltb _ _ (omega arith) in
          rw over (λ e. cc)
      | inr enough ↦ elim (Bool-cases (ltb (length packet + 12) decompressed_len)) [
        | inl over ↦ rw over (λ e. cc)
        | inr within ↦ elim (Bool-cases (ltb payload_len (length (s.fmt_bstr payload_len)))) [
          | inl cut ↦ rw (within, enough, cut) (λ e. cc)
          | inr room ↦ rw (within, enough, room) (λ e. cc)
        ]
      ]
    ]

-- A received packet is unwrapped, or refused with an error, and nothing is done that C++ leaves
-- undefined: with the 12 bytes that `interpret_packets` adds, a packet that is shorter than its partial IV
-- is refused although the length of its payload wraps around. Conditions: the heads of byte strings have
-- the lengths of CBOR, and the packet has fewer than 2^32 bytes.
pub unwrap_packet-Defined :
    (s : Suite) (compressed : Bool) (packet : Bytes)
    → IsSuite s
    → length packet < 2 ^ 32
    → unwrap_packet s compressed packet ≢ SecurityResult.undefined
unfolding unwrap_packet unwrap
unwrap_packet-Defined s true packet suite small =
    decoded-Defined s (cose_stateless_decompress s packet (length packet + 12))
      (decompress-Defined s packet suite small)
unwrap_packet-Defined s false packet suite small =
    decoded-Defined s (SecurityResult.ok packet) (λ e. cc)

-- The form of a COSE message.
abbrev pub cose_of : Suite → Bytes → Bytes → Bytes
cose_of s piv ciphertext =
    cose_prefix
    ++ (s.fmt_bstr (length piv) ++ (piv ++ (s.fmt_bstr (length ciphertext) ++ ciphertext)))

module _ (s : Suite) (suite : IsSuite s) where
  compress-cose_of :
      (piv ciphertext : Bytes)
      → length piv ≡ s.piv_size
      → cose_stateless_compress s (cose_of s piv ciphertext) ≡ SecurityResult.ok (piv ++ ciphertext)
  unfolding cose_stateless_compress
  compress-cose_of piv ciphertext size =
      let rest = s.fmt_bstr (length ciphertext) ++ ciphertext in
      let head = s.fmt_bstr (length piv) in
      let one : length head ≡ 1 =
        suite.fmt_bstr-short (length piv) (omega (arith, size, suite.short_piv)) in
      let behind : drop 1 (head ++ (piv ++ rest)) ≡ piv ++ rest =
        subst (λ k. drop k (head ++ (piv ++ rest)) ≡ piv ++ rest) one
          (drop-append head (piv ++ rest)) in
      let at_end : drop s.piv_size (piv ++ rest) ≡ rest =
        subst (λ k. drop k (piv ++ rest) ≡ rest) size (drop-append piv rest) in
      let at_front : take s.piv_size (piv ++ rest) ≡ piv =
        subst (λ k. take k (piv ++ rest) ≡ piv) size (take-append piv rest) in
      let long : ltb (length (cose_of s piv ciphertext)) (5 + s.piv_size) ≡ false =
        ground (arith, length-append head (piv ++ rest), length-append piv rest, one, size) in
      rw (long, behind, at_end, suite.get_bstr-fmt_bstr ciphertext, behind, at_front)

  decompress-cose_of :
      (piv ciphertext : Bytes) (room : ℕ)
      → length piv ≡ s.piv_size
      → length ciphertext < 2 ^ 16
      → 3 ≤ length ciphertext
      → length (piv ++ ciphertext) + 12 ≤ room
      → cose_stateless_decompress s (piv ++ ciphertext) room
        ≡ SecurityResult.ok (cose_of s piv ciphertext)
  unfolding cose_stateless_decompress
  decompress-cose_of piv ciphertext room size small tag fits =
      let short_piv = suite.short_piv in
      let both : length (piv ++ ciphertext) ≡ s.piv_size + length ciphertext =
        omega (arith, length-append piv ciphertext, size) in
      let payload : (length (piv ++ ciphertext) + 2 ^ 64 - s.piv_size) % 2 ^ 64
          ≡ length ciphertext =
        omega arith in
      let one : length (s.fmt_bstr s.piv_size) ≡ 1 = suite.fmt_bstr-short s.piv_size short_piv in
      let three : length (s.fmt_bstr (length ciphertext)) ≤ 3 =
        suite.fmt_bstr-medium (length ciphertext) small in
      let total =
        (4
          + length (s.fmt_bstr s.piv_size)
          + s.piv_size
          + length (s.fmt_bstr (length ciphertext))
          + length ciphertext)
        % 2 ^ 64 in
      let bound : total ≤ room = omega arith in
      let within : ltb room total ≡ false = ground (arith, bound) in
      let enough : ltb (length (piv ++ ciphertext)) s.piv_size ≡ false = ground (arith, both) in
      let fits_head : ltb (length ciphertext) (length (s.fmt_bstr (length ciphertext))) ≡ false =
        ground (arith, three, tag) in
      let at_front : take s.piv_size (piv ++ ciphertext) ≡ piv =
        subst (λ k. take k (piv ++ ciphertext) ≡ piv) size (take-append piv ciphertext) in
      let at_end : drop s.piv_size (piv ++ ciphertext) ≡ ciphertext =
        subst (λ k. drop k (piv ++ ciphertext) ≡ ciphertext) size (drop-append piv ciphertext) in
      rw (payload, within, enough, fits_head, at_front, at_end, size)

-- The partial IV has its size.
length-generate_nonce :
    (s : Suite) (layer : SecurityLayer)
    → length layer.piv_bytes ≡ s.piv_size
    → length (generate_nonce s layer).piv_bytes ≡ s.piv_size
unfolding generate_nonce min_of htonl
length-generate_nonce s layer size =
    let o = min_of 4 s.piv_size in
    let number = htonl layer.sender_seq_number in
    let four : o ≤ 4 = ground arith in
    let within : o ≤ s.piv_size = ground arith in
    let low = length-take o (drop (4 - o) number) in
    let all = length-drop (4 - o) number in
    let others = length-drop o layer.piv_bytes in
    omega (
      arith,
      length-append (take o (drop (4 - o) number)) (drop o layer.piv_bytes),
      low,
      all,
      others,
      size,
    )

-- A payload that is wrapped comes back from `unwrap` on the other side, with the compression and without
-- it, and the sequence number is counted; the 12 bytes of COSE_SERIALIZATION_MAX_OVERHEAD are enough.
-- Conditions: the heads of byte strings are those of CBOR and are read back, the partial IV has its
-- size, and the message of the COSE library has the documented form, with a ciphertext of 3 to 2^16 - 1
-- bytes, and is decrypted to the payload by the library of the other side.
pub unwrap_packet-wrap :
    (s : Suite) (compressed : Bool) (payload ciphertext : Bytes) (layer : SecurityLayer)
    → IsSuite s
    → length layer.piv_bytes ≡ s.piv_size
    → 3 ≤ length ciphertext
    → length ciphertext < 2 ^ 16
    → s.encode (generate_nonce s layer).piv_bytes payload
      ≡ some (cose_of s (generate_nonce s layer).piv_bytes ciphertext)
    → s.decode (cose_of s (generate_nonce s layer).piv_bytes ciphertext) ≡ some payload
    → (packet : Bytes) × (layer' : SecurityLayer) × (wrap s compressed payload layer
        ≡ (SecurityResult.ok packet, layer'))
      × (layer'.sender_seq_number ≡ (layer.sender_seq_number + 1) % 2 ^ 64)
      × (unwrap_packet s compressed packet ≡ SecurityResult.ok payload)
unfolding wrap counted unwrap_packet unwrap decoded
unwrap_packet-wrap s true payload ciphertext layer suite size tag small encodes decodes =
    let piv = (generate_nonce s layer).piv_bytes in
    let full : length piv ≡ s.piv_size = length-generate_nonce s layer size in
    (
      piv ++ ciphertext,
      record (generate_nonce s layer) {
        sender_seq_number = ((generate_nonce s layer).sender_seq_number + 1) % 2 ^ 64;
      },
      rw (wrap, encodes, compress-cose_of s suite piv ciphertext full),
      unfold generate_nonce in refl,
      rw
          (
            decompress-cose_of s suite piv ciphertext (length (piv ++ ciphertext) + 12) full small
                tag (omega arith),
            decoded,
            decodes,
          )
          refl,
    )
unwrap_packet-wrap s false payload ciphertext layer suite size tag small encodes decodes = (
  cose_of s (generate_nonce s layer).piv_bytes ciphertext,
  record (generate_nonce s layer) {
    sender_seq_number = ((generate_nonce s layer).sender_seq_number + 1) % 2 ^ 64;
  },
  rw (wrap, encodes) refl,
  unfold generate_nonce in refl,
  rw (decoded, decodes) refl,
)
