-- ===== src/Tests/Keys.antt =====
-- Layers of src/desert_classes/security/SecurityLayer.cpp with the identifiers 0x01 and 0x02, and a KDF
-- that gives the salt, the key and the info one after the other, cut to the length.
use rmw_desert.Prelude.{◌≡◌, ◌+◌, refl, some, none, [], ◌∷◌, ◌++◌, length, take, replicate}
use rmw_desert.Prelude.Int.{pos}
use rmw_desert.Cbor.Rx.{same}
use rmw_desert.Hex.{decode_hex, decode_pairs, hex_value, push_byte, skip_prefix}
use rmw_desert.Message.{Result}
use rmw_desert.Security.Keys.{
  Crypto, Env, env_to_aead_algo, aead_algo_named, decoded_hex, str_to_kdf_algo,
  aead_algo_to_cose_algo, kdf_algo_to_cose_algo, aead_params_of, build_kdf_info, derived, hkdf,
  derive_key, derive_iv, derive_context, get_master_key_env, master_salt_of, or_throw, with_ids,
  security_layer,
}
use rmw_desert.Security.Keys.Crossed.{crossed, swapped, security_layer-crossed}

abbrev crypto : Crypto
crypto = record {
  cose_algo_none = pos 0;
  cose_algo_ascon_aead128 = pos 1;
  cose_algo_ascon_aead128_64 = pos 2;
  cose_algo_ascon_aead128_32 = pos 3;
  cose_algo_a128gcm = pos 4;
  cose_algo_hmac_ascon_hash256 = pos 5;
  cose_algo_hmac256 = pos 6;
  hkdf_derive = λ salt key info n alg. some (take n (info ++ (key ++ salt)));
  fmt_array = λ n. 132 ∷ [];
  put_bstr = λ b. (64 + length b) ∷ b;
  fmt_int = λ z. 1 ∷ [];
  put_tstr = λ b. (96 + length b) ∷ b;
  fmt_uint = λ n. n ∷ [];
}

abbrev near : Env
near = record {
  aead_algo = some "Ascon-AEAD128";
  sender_id = some (48 ∷ 49 ∷ []);
  receiver_id = some (48 ∷ 50 ∷ []);
  master_secret_key = some (replicate 32 97);
  master_salt = none;
  kdf_algo = "HKDF-Ascon256";
}

security_layer-crossed_example :
    security_layer crypto (crossed near) ≡ swapped (security_layer crypto near)
security_layer-crossed_example = security_layer-crossed crypto near

-- The keys differ in the identifier that the info holds.
keys_near :
    security_layer crypto near
    ≡ Result.ok (record {
      sender_id = 1 ∷ [];
      receiver_id = 2 ∷ [];
      sender_key_bytes = 132 ∷ 65 ∷ 1 ∷ 1 ∷ 99 ∷ 75 ∷ 101 ∷ 121 ∷ 16 ∷ replicate 7 170;
      receiver_key_bytes = 132 ∷ 65 ∷ 2 ∷ 1 ∷ 99 ∷ 75 ∷ 101 ∷ 121 ∷ 16 ∷ replicate 7 170;
      context_iv = 132 ∷ 64 ∷ 1 ∷ 98 ∷ 73 ∷ 86 ∷ 16 ∷ replicate 9 170;
    })
unfolding security_layer env_to_aead_algo aead_algo_named decoded_hex str_to_kdf_algo
    aead_algo_to_cose_algo kdf_algo_to_cose_algo aead_params_of build_kdf_info derived hkdf
    derive_key derive_iv derive_context get_master_key_env master_salt_of or_throw with_ids same
    decode_hex decode_pairs hex_value push_byte skip_prefix
keys_near = refl
