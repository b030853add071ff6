-- ===== src/Security.antt =====
-- The packets of src/desert_classes/security/SecurityLayer.cpp: the nonce, the compression, `wrap` and
-- `unwrap`. The COSE library with the keys, and the byte strings of NanoCBOR, are parameters.
pub mod Packets
pub mod Nonce
pub mod Keys
use rmw_desert.Prelude.{
  ℕ, ◌+◌, ◌-◌, ◌/◌, ◌%◌, ◌^◌, Bool, Option, none, some, List, [], ◌∷◌, ◌++◌, length, take, drop,
  ltb, if◌then◌else◌,
}
use rmw_desert.Tcp.{Bytes}

-- `encode` gives the message of COSE for a partial IV and a payload, and `none` where it fails; `decode`
-- is its decoding and decryption. `fmt_bstr` gives the head of a byte string of a length, and `get_bstr`
-- the content of the byte string at the front.
pub record Suite : Type 0 where
  pub piv_size : ℕ
  pub fmt_bstr : ℕ → Bytes
  pub get_bstr : Bytes → Option Bytes
  pub encode : Bytes → Bytes → Option Bytes
  pub decode : Bytes → Option Bytes

pub data SecurityError : Type 0 where
  param_error : SecurityError
  key_size_error : SecurityError
  key_env_error : SecurityError
  context_derive_error : SecurityError
  buffer_error : SecurityError
  comp_error : SecurityError
  wrap_error : SecurityError
  unwrap_error : SecurityError
  internal_error : SecurityError

-- `OK` with a value, an error, or what C++ leaves undefined.
pub data SecurityResult (A : Type 0) : Type 0 where
  ok : A → SecurityResult A
  error : SecurityError → SecurityResult A
  undefined : SecurityResult A

-- The fields that a call changes.
pub record SecurityLayer : Type 0 where
  pub piv_bytes : Bytes
  pub sender_seq_number : ℕ

abbrev pub cose_serialization_max_overhead : ℕ
cose_serialization_max_overhead = 12

abbrev pub cose_prefix : Bytes
cose_prefix = 131 ∷ 64 ∷ 161 ∷ 6 ∷ []

-- The bytes of `htonl`.
unfoldable pub htonl : ℕ → Bytes
htonl n = n / 2 ^ 24 % 256 ∷ n / 2 ^ 16 % 256 ∷ n / 2 ^ 8 % 256 ∷ n % 256 ∷ []

-- `MIN`
unfoldable pub min_of : ℕ → ℕ → ℕ
min_of a b = if ltb b a then b else a

module _ (s : Suite) where
  unfoldable pub generate_nonce : SecurityLayer → SecurityLayer
  generate_nonce layer =
      let offset = min_of 4 s.piv_size in
      record layer {
        piv_bytes =
            take offset (drop (4 - offset) (htonl layer.sender_seq_number))
            ++ drop offset layer.piv_bytes;
      }

  -- The partial IV and the ciphertext. The length of what is behind the partial IV wraps around where
  -- the message is too short.
  unfoldable pub cose_stateless_compress : Bytes → SecurityResult Bytes
  cose_stateless_compress cose =
      if ltb (length cose) (5 + s.piv_size)
      then SecurityResult.undefined
      else elim (s.get_bstr (drop s.piv_size (drop 5 cose))) [
        | none ↦ SecurityResult.error SecurityError.comp_error
        | some ciphertext ↦ SecurityResult.ok (take s.piv_size (drop 5 cose) ++ ciphertext)
      ]

  -- The lengths wrap around at 64 bits. The payload of a packet that is shorter than its partial IV has
  -- a length near 2^64, and so many bytes are moved.
  unfoldable pub cose_stateless_decompress : Bytes → ℕ → SecurityResult Bytes
  cose_stateless_decompress packet data_max_len =
      let payload_len = (length packet + 2 ^ 64 - s.piv_size) % 2 ^ 64 in
      let piv_ind = s.fmt_bstr s.piv_size in
      let pl_ind = s.fmt_bstr payload_len in
      let decompressed_len =
        (4 + length piv_ind + s.piv_size + length pl_ind + payload_len) % 2 ^ 64 in
      if ltb data_max_len decompressed_len
      then SecurityResult.error SecurityError.buffer_error
      else if ltb (length packet) s.piv_size
      then SecurityResult.undefined
      else if ltb payload_len (length pl_ind)
      then SecurityResult.error SecurityError.internal_error
      else SecurityResult.ok (
          cose_prefix
          ++ (piv_ind ++ (take s.piv_size packet ++ (pl_ind ++ drop s.piv_size packet))))

  -- The end of `wrap`, where the sequence number is counted.
  unfoldable pub counted :
      SecurityLayer → SecurityResult Bytes → SecurityResult Bytes × SecurityLayer
  counted layer (SecurityResult.ok packet) = (
    SecurityResult.ok packet,
    record layer { sender_seq_number = (layer.sender_seq_number + 1) % 2 ^ 64 },
  )
  counted layer (SecurityResult.error e) = (SecurityResult.error e, layer)
  counted layer SecurityResult.undefined = (SecurityResult.undefined, layer)

  -- `compressed` is the test of COSE_STATELESS_COMP_ENABLED.
  unfoldable pub wrap : Bool → Bytes → SecurityLayer → SecurityResult Bytes × SecurityLayer
  wrap compressed payload layer =
      let layer' = generate_nonce layer in
      elim (s.encode layer'.piv_bytes payload) [
        | none ↦ (SecurityResult.error SecurityError.wrap_error, layer')
        | some cose ↦
            counted layer'
              (if compressed then cose_stateless_compress cose else SecurityResult.ok cose)
      ]

  unfoldable pub decoded : SecurityResult Bytes → SecurityResult Bytes
  decoded (SecurityResult.ok cose) = elim (s.decode cose) [
    | none ↦ SecurityResult.error SecurityError.unwrap_error
    | some payload ↦ SecurityResult.ok payload
  ]
  decoded (SecurityResult.error e) = SecurityResult.error e
  decoded SecurityResult.undefined = SecurityResult.undefined

  unfoldable pub unwrap : Bool → Bytes → ℕ → SecurityResult Bytes
  unwrap compressed packet data_max_len = decoded (
      if compressed
      then cose_stateless_decompress packet data_max_len
      else SecurityResult.ok packet)

  -- The call in `interpret_packets`, with the space that it adds for the decompression.
  unfoldable pub unwrap_packet : Bool → Bytes → SecurityResult Bytes
  unwrap_packet compressed packet =
      unwrap compressed packet
        (if compressed then length packet + cose_serialization_max_overhead else length packet)
