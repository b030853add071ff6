-- ===== src/Security/Keys.antt =====
-- The keys of src/desert_classes/security/SecurityLayer.cpp and AeadParams.cpp: from the environment to
-- the keys of a layer. NanoCBOR and the COSE library are parameters.
pub mod Crossed
use Prim.Native.String.{String}
use text.Mathlib.Text.{◌==◌ as str_eq}
use rmw_desert.Prelude.{
  ℕ, ◌+◌, Bool, true, false, not, ◌&&◌, Option, none, some, List, [], ◌∷◌, ◌++◌, ◌==◌, ltb, leb,
  if◌then◌else◌, length, take, replicate,
}
use rmw_desert.Prelude.Int.{ℤ}
use rmw_desert.Tcp.{Bytes}
use rmw_desert.Cbor.Rx.{same}
use rmw_desert.Hex.{decode_hex}
use rmw_desert.Message.{Result}
use rmw_desert.Security.{SecurityError, SecurityResult}

pub data AeadAlgorithms : Type 0 where
  ascon_aead128 : AeadAlgorithms
  ascon_aead128_64 : AeadAlgorithms
  ascon_aead128_32 : AeadAlgorithms
  a128gcm : AeadAlgorithms
  aead_unknown : AeadAlgorithms

pub data KdfAlgorithms : Type 0 where
  hkdf_ascon : KdfAlgorithms
  hkdf_hmac256 : KdfAlgorithms
  kdf_unknown : KdfAlgorithms

pub record AeadParams : Type 0 where
  pub alg : AeadAlgorithms
  pub key_size : ℕ
  pub nonce_size : ℕ
  pub tag_size : ℕ

unfoldable pub aead_params_of : AeadAlgorithms → AeadParams
aead_params_of AeadAlgorithms.ascon_aead128 = record {
  alg = AeadAlgorithms.ascon_aead128;
  key_size = 16;
  nonce_size = 16;
  tag_size = 16;
}
aead_params_of AeadAlgorithms.ascon_aead128_64 = record {
  alg = AeadAlgorithms.ascon_aead128_64;
  key_size = 16;
  nonce_size = 16;
  tag_size = 8;
}
aead_params_of AeadAlgorithms.ascon_aead128_32 = record {
  alg = AeadAlgorithms.ascon_aead128_32;
  key_size = 16;
  nonce_size = 16;
  tag_size = 4;
}
aead_params_of AeadAlgorithms.a128gcm = record {
  alg = AeadAlgorithms.a128gcm;
  key_size = 16;
  nonce_size = 12;
  tag_size = 16;
}
aead_params_of AeadAlgorithms.aead_unknown = record {
  alg = AeadAlgorithms.aead_unknown;
  key_size = 0;
  nonce_size = 0;
  tag_size = 0;
}

-- The libraries: the constants of COSE, `cose_crypto_hkdf_derive` of a salt, a key, an info, a length and
-- an algorithm, which is `none` where it fails, and the items that NanoCBOR puts into a buffer.
pub record Crypto : Type 0 where
  pub cose_algo_none : ℤ
  pub cose_algo_ascon_aead128 : ℤ
  pub cose_algo_ascon_aead128_64 : ℤ
  pub cose_algo_ascon_aead128_32 : ℤ
  pub cose_algo_a128gcm : ℤ
  pub cose_algo_hmac_ascon_hash256 : ℤ
  pub cose_algo_hmac256 : ℤ
  pub hkdf_derive : Bytes → Bytes → Bytes → ℕ → ℤ → Option Bytes
  pub fmt_array : ℕ → Bytes
  pub put_bstr : Bytes → Bytes
  pub fmt_int : ℤ → Bytes
  pub put_tstr : Bytes → Bytes
  pub fmt_uint : ℕ → Bytes

-- The variables of the environment, those in hexadecimal as their characters, and `KDF_ALGO`, which is
-- chosen when the program is built.
pub record Env : Type 0 where
  pub aead_algo : Option String
  pub sender_id : Option (List ℕ)
  pub receiver_id : Option (List ℕ)
  pub master_secret_key : Option (List ℕ)
  pub master_salt : Option (List ℕ)
  pub kdf_algo : String

-- The fields of the layer that the constructor derives.
pub record Keys : Type 0 where
  pub sender_id : Bytes
  pub receiver_id : Bytes
  pub sender_key_bytes : Bytes
  pub receiver_key_bytes : Bytes
  pub context_iv : Bytes

abbrev pub default_master_salt_len : ℕ
default_master_salt_len = 16

abbrev pub cose_internal_buf_size : ℕ
cose_internal_buf_size = 512

-- `none` is the exception for a name that is not known, or not set.
unfoldable pub aead_algo_named : String → Option AeadAlgorithms
aead_algo_named name =
    if str_eq name "Ascon-AEAD128"
    then some AeadAlgorithms.ascon_aead128
    else if str_eq name "Ascon-AEAD128-64"
    then some AeadAlgorithms.ascon_aead128_64
    else if str_eq name "Ascon-AEAD128-32"
    then some AeadAlgorithms.ascon_aead128_32
    else none

unfoldable pub env_to_aead_algo : Env → Option AeadAlgorithms
env_to_aead_algo env = elim env.aead_algo [
  | none ↦ aead_algo_named ""
  | some name ↦ aead_algo_named name
]

unfoldable pub str_to_kdf_algo : String → KdfAlgorithms
str_to_kdf_algo str =
    if str_eq str "HKDF-Ascon256" then KdfAlgorithms.hkdf_ascon else KdfAlgorithms.kdf_unknown

-- What `decode_hex` makes of a variable, into an empty vector.
unfoldable pub decoded_hex : Option (List ℕ) → Option Bytes
decoded_hex none = none
decoded_hex (some text) = let (valid, out) = decode_hex text [] in if valid then some out else none

infixl 5 ◌>>=◌
abbrev pub ◌>>=◌ : {A B : Type 0} → SecurityResult A → (A → SecurityResult B) → SecurityResult B
SecurityResult.ok a >>= f = f a
SecurityResult.error e >>= f = SecurityResult.error e
SecurityResult.undefined >>= f = SecurityResult.undefined

unfoldable pub get_master_key_env : AeadParams → Env → SecurityResult Bytes
get_master_key_env params env = elim (decoded_hex env.master_secret_key) [
  | none ↦ SecurityResult.error SecurityError.key_env_error
  | some master_key ↦
      if ltb (length master_key) params.key_size
      then SecurityResult.error SecurityError.key_size_error
      else SecurityResult.ok master_key
]

-- The salt is zero where the variable is not set or no number.
unfoldable pub master_salt_of : Env → Bytes
master_salt_of env = elim (decoded_hex env.master_salt) [
  | none ↦ replicate default_master_salt_len 0
  | some salt ↦ salt
]

-- A result that is not `OK` throws.
unfoldable pub or_throw : {A : Type 0} → SecurityResult A → Result A
or_throw (SecurityResult.ok a) = Result.ok a
or_throw (SecurityResult.error e) = Result.throws
or_throw SecurityResult.undefined = Result.undefined

module _ (c : Crypto) where
  unfoldable pub aead_algo_to_cose_algo : AeadAlgorithms → ℤ
  aead_algo_to_cose_algo AeadAlgorithms.ascon_aead128 = c.cose_algo_ascon_aead128
  aead_algo_to_cose_algo AeadAlgorithms.ascon_aead128_64 = c.cose_algo_ascon_aead128_64
  aead_algo_to_cose_algo AeadAlgorithms.ascon_aead128_32 = c.cose_algo_ascon_aead128_32
  aead_algo_to_cose_algo AeadAlgorithms.a128gcm = c.cose_algo_a128gcm
  aead_algo_to_cose_algo AeadAlgorithms.aead_unknown = c.cose_algo_none

  unfoldable pub kdf_algo_to_cose_algo : KdfAlgorithms → ℤ
  kdf_algo_to_cose_algo KdfAlgorithms.hkdf_ascon = c.cose_algo_hmac_ascon_hash256
  kdf_algo_to_cose_algo KdfAlgorithms.hkdf_hmac256 = c.cose_algo_hmac256
  kdf_algo_to_cose_algo KdfAlgorithms.kdf_unknown = c.cose_algo_none

  -- The info, if it fits in the buffer.
  unfoldable pub build_kdf_info : Bytes → ℤ → Bytes → ℕ → SecurityResult Bytes
  build_kdf_info id alg type len =
      let info =
        c.fmt_array 4
        ++ (c.put_bstr id ++ (c.fmt_int alg ++ (c.put_tstr type ++ c.fmt_uint len))) in
      if leb (length info) cose_internal_buf_size
      then SecurityResult.ok info
      else SecurityResult.error SecurityError.buffer_error

  unfoldable pub derived : Option Bytes → SecurityResult Bytes
  derived none = SecurityResult.error SecurityError.context_derive_error
  derived (some key) = SecurityResult.ok key

  -- The call of HKDF, which reads as many bytes of the key as an AEAD key has.
  unfoldable pub hkdf :
      AeadParams → KdfAlgorithms → Bytes → Bytes → Bytes → ℕ → SecurityResult Bytes
  hkdf params kdf ikm salt info len =
      if ltb (length ikm) params.key_size
      then SecurityResult.undefined
      else derived
          (c.hkdf_derive salt (take params.key_size ikm) info len (kdf_algo_to_cose_algo kdf))

  unfoldable pub derive_key :
      AeadParams → KdfAlgorithms → Bytes → Bytes → Bytes → ℤ → SecurityResult Bytes
  derive_key params kdf ikm salt id alg =
      build_kdf_info id alg (b'K' ∷ b'e' ∷ b'y' ∷ []) params.key_size
      >>= (λ info. hkdf params kdf ikm salt info params.key_size)

  unfoldable pub derive_iv : AeadParams → KdfAlgorithms → Bytes → Bytes → ℤ → SecurityResult Bytes
  derive_iv params kdf ikm salt alg =
      build_kdf_info [] alg (b'I' ∷ b'V' ∷ []) params.nonce_size
      >>= (λ info. hkdf params kdf ikm salt info params.nonce_size)

  unfoldable pub derive_context :
      AeadParams → KdfAlgorithms → Bytes → Bytes → Bytes → Bytes → SecurityResult Keys
  derive_context params kdf master_key master_salt sender_id receiver_id =
      let alg = aead_algo_to_cose_algo params.alg in
      if same alg c.cose_algo_none
      then SecurityResult.error SecurityError.param_error
      else derive_key params kdf master_key master_salt sender_id alg >>= (λ sender_key.
        derive_key params kdf master_key master_salt receiver_id alg >>= (λ receiver_key.
          derive_iv params kdf master_key master_salt alg >>= (λ iv. SecurityResult.ok (record {
            sender_id = sender_id;
            receiver_id = receiver_id;
            sender_key_bytes = sender_key;
            receiver_key_bytes = receiver_key;
            context_iv = iv;
          }))))

  -- The body of the constructor, for an algorithm and two identifiers that are valid.
  unfoldable pub with_ids : Env → AeadParams → Bytes → Bytes → Result Keys
  with_ids env params sender_id receiver_id = or_throw (
      get_master_key_env params env >>= (λ master_key.
        derive_context params (str_to_kdf_algo env.kdf_algo) master_key (master_salt_of env)
          sender_id receiver_id))

  -- `SecurityLayer::SecurityLayer()`
  unfoldable pub security_layer : Env → Result Keys
  security_layer env = elim (env_to_aead_algo env) [
    | none ↦ Result.throws
    | some algo ↦ elim (decoded_hex env.sender_id) [
      | none ↦ Result.throws
      | some sender_id ↦ elim (decoded_hex env.receiver_id) [
        | none ↦ Result.throws
        | some receiver_id ↦ with_ids env (aead_params_of algo) sender_id receiver_id
      ]
    ]
  ]
