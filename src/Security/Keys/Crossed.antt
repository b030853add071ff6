-- ===== src/Security/Keys/Crossed.antt =====
-- The keys of two layers of src/desert_classes/security/SecurityLayer.cpp whose identifiers are crossed.
use rmw_desert.Prelude.{
  ◌≡◌, ◌≢◌, refl, false, Option, none, some, inl, inr, ltb, length, arith, Bool-cases, Option-cases,
}
use rmw_desert.Prelude.Int.{ℤ}
use rmw_desert.Tcp.{Bytes}
use rmw_desert.Cbor.Rx.{same}
use rmw_desert.Message.{Result}
use rmw_desert.Security.{SecurityResult}
use rmw_desert.Security.Keys.{
  AeadAlgorithms, AeadParams, KdfAlgorithms, Crypto, Env, Keys, ◌>>=◌, env_to_aead_algo,
  decoded_hex, str_to_kdf_algo, aead_algo_to_cose_algo, aead_params_of, build_kdf_info, derived,
  hkdf, derive_key, derive_iv, derive_context, get_master_key_env, master_salt_of, or_throw,
  with_ids, security_layer,
}

-- The environment of the other side.
abbrev pub crossed : Env → Env
crossed env = record env { sender_id = env.receiver_id; receiver_id = env.sender_id }

env_to_aead_algo-crossed : (env : Env) → env_to_aead_algo (crossed env) ≡ env_to_aead_algo env
unfolding env_to_aead_algo
env_to_aead_algo-crossed env = refl

-- The keys of the other side.
abbrev pub swapped : Result Keys → Result Keys
swapped (Result.ok k) = Result.ok (record k {
  sender_id = k.receiver_id;
  receiver_id = k.sender_id;
  sender_key_bytes = k.receiver_key_bytes;
  receiver_key_bytes = k.sender_key_bytes;
})
swapped Result.throws = Result.throws
swapped Result.undefined = Result.undefined
swapped Result.endless = Result.endless

-- The keys that three derivations give together.
abbrev assembled :
    Bytes
    → Bytes
    → SecurityResult Bytes
    → SecurityResult Bytes
    → SecurityResult Bytes
    → SecurityResult Keys
assembled sender_id receiver_id sender receiver iv = sender >>= (λ sender_key.
    receiver >>= (λ receiver_key. iv >>= (λ context_iv. SecurityResult.ok (record {
      sender_id = sender_id;
      receiver_id = receiver_id;
      sender_key_bytes = sender_key;
      receiver_key_bytes = receiver_key;
      context_iv = context_iv;
    }))))

module _ (c : Crypto) where
  -- The order of the derivations does not matter where none is undefined: any error throws.
  assembled-swapped :
      (a b : Bytes) (x y i : SecurityResult Bytes)
      → x ≢ SecurityResult.undefined
      → y ≢ SecurityResult.undefined
      → or_throw (assembled b a y x i) ≡ swapped (or_throw (assembled a b x y i))
  unfolding or_throw
  assembled-swapped a b (SecurityResult.ok x) (SecurityResult.ok y) (SecurityResult.ok i) h k = refl
  assembled-swapped a b (SecurityResult.ok x) (SecurityResult.ok y) (SecurityResult.error e) h k =
      refl
  assembled-swapped a b (SecurityResult.ok x) (SecurityResult.ok y) SecurityResult.undefined h k =
      refl
  assembled-swapped a b (SecurityResult.ok x) (SecurityResult.error e) i h k = refl
  assembled-swapped a b (SecurityResult.error e) (SecurityResult.ok y) i h k = refl
  assembled-swapped a b (SecurityResult.error e) (SecurityResult.error e') i h k = refl
  assembled-swapped a b SecurityResult.undefined y i h k = absurd (h refl)
  assembled-swapped a b x SecurityResult.undefined i h k = absurd (k refl)

  derive_key-Defined :
      (params : AeadParams) (kdf : KdfAlgorithms) (ikm salt id : Bytes) (alg : ℤ)
      → ltb (length ikm) params.key_size ≡ false
      → derive_key c params kdf ikm salt id alg ≢ SecurityResult.undefined
  unfolding derive_key build_kdf_info hkdf derived
  derive_key-Defined params kdf ikm salt id alg long = ground arith

  derive_context-swapped :
      (params : AeadParams) (kdf : KdfAlgorithms) (key salt a b : Bytes)
      → ltb (length key) params.key_size ≡ false
      → or_throw (derive_context c params kdf key salt b a)
        ≡ swapped (or_throw (derive_context c params kdf key salt a b))
  unfolding derive_context
  derive_context-swapped params kdf key salt a b long =
      let alg = aead_algo_to_cose_algo c params.alg in
      elim (Bool-cases (same alg c.cose_algo_none)) [
        | inl unknown ↦ rw unknown (unfold or_throw in refl)
        | inr known ↦ rw known (
            assembled-swapped a b (derive_key c params kdf key salt a alg)
              (derive_key c params kdf key salt b alg) (derive_iv c params kdf key salt alg)
              (derive_key-Defined params kdf key salt a alg long)
              (derive_key-Defined params kdf key salt b alg long))
      ]

  with_ids-swapped :
      (env : Env) (params : AeadParams) (a b : Bytes)
      → with_ids c (crossed env) params b a ≡ swapped (with_ids c env params a b)
  unfolding with_ids get_master_key_env master_salt_of
  with_ids-swapped env params a b = elim (Option-cases (decoded_hex env.master_secret_key)) [
    | inl unset ↦ rw (get_master_key_env, unset) (unfold or_throw in refl)
    | inr (key, set) ↦ elim (Bool-cases (ltb (length key) params.key_size)) [
      | inl short ↦ rw (get_master_key_env, set, short) (unfold or_throw in refl)
      | inr long ↦
          rw (get_master_key_env, set, long)
            (derive_context-swapped params (str_to_kdf_algo env.kdf_algo) key (master_salt_of env) a
              b long)
    ]
  ]

  -- The layer of two identifiers, if both are valid.
  abbrev of_ids : Env → AeadParams → Option Bytes → Option Bytes → Result Keys
  of_ids env params none y = Result.throws
  of_ids env params (some a) none = Result.throws
  of_ids env params (some a) (some b) = with_ids c env params a b

  of_ids-swapped :
      (env : Env) (params : AeadParams) (x y : Option Bytes)
      → of_ids (crossed env) params y x ≡ swapped (of_ids env params x y)
  of_ids-swapped env params none none = refl
  of_ids-swapped env params none (some b) = refl
  of_ids-swapped env params (some a) none = refl
  of_ids-swapped env params (some a) (some b) = with_ids-swapped env params a b

  security_layer-of_ids :
      (env : Env) (algo : AeadAlgorithms)
      → env_to_aead_algo env ≡ some algo
      → security_layer c env
        ≡ of_ids env (aead_params_of algo) (decoded_hex env.sender_id) (decoded_hex env.receiver_id)
  unfolding security_layer
  security_layer-of_ids env algo known = elim (Option-cases (decoded_hex env.sender_id)) [
    | inl unset ↦ rw (security_layer, known, unset) refl
    | inr (a, set) ↦ elim (Option-cases (decoded_hex env.receiver_id)) [
      | inl unset ↦ rw (security_layer, known, set, unset) refl
      | inr (b, set') ↦ rw (security_layer, known, set, set') refl
    ]
  ]

  -- Two sides with the same environment but for their two identifiers, which are crossed: a layer is
  -- constructed on one side exactly where it is on the other, the sender key of the one is the receiver
  -- key of the other, and both have the same context IV, whatever the libraries derive.
  pub security_layer-crossed :
      (env : Env) → security_layer c (crossed env) ≡ swapped (security_layer c env)
  unfolding security_layer
  security_layer-crossed env = elim (Option-cases (env_to_aead_algo env)) [
    | inl unknown ↦ rw (security_layer, env_to_aead_algo-crossed env, unknown) refl
    | inr (algo, known) ↦
        rw
          (
            security_layer-of_ids env algo known,
            security_layer-of_ids (crossed env) algo (rw (env_to_aead_algo-crossed env) known),
          )
          (of_ids-swapped env (aead_params_of algo) (decoded_hex env.sender_id)
            (decoded_hex env.receiver_id))
  ]
