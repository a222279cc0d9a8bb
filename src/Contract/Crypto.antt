-- ===== src/Contract/Crypto.antt =====
-- Key derivation and authenticated encryption of contract/src/lib.rs.
pub mod Keys
pub mod RoundTrip
use key_manager.Base.{
  ℕ, ◌+◌, Option, none, some, List, [], ◌∷◌, ◌++◌, length, take, drop, ltb, Result, ok, err,
  map_err, ◌>>=◌, ◌>>◌, refuse,
}
use key_manager.Base.Text.{Str, Bytes, codes, as_bytes}
use key_manager.Contract.Runtime.{Runtime}

abbrev unwrap_or_else : Result Bytes Str → Bytes → Bytes
unwrap_or_else (ok b) d = b
unwrap_or_else (err e) d = d

module _ (rt : Runtime) where
  unfoldable pub derive_fallback_seed : Bytes
  derive_fallback_seed = rt.sha256 (
      as_bytes (codes "outlayer_fallback_seed_testing_only")
      ++ as_bytes (codes "DO_NOT_USE_IN_PRODUCTION"))

  unfoldable pub get_ckd_master_seed : Bytes
  get_ckd_master_seed = elim rt.ckd_seed_var [
    | some seed ↦ unwrap_or_else (rt.base64_decode seed) derive_fallback_seed
    | none ↦ derive_fallback_seed
  ]

  unfoldable pub derive_group_key : Bytes → Str → Bytes
  derive_group_key master_seed group_id =
      rt.sha256 (master_seed ++ (as_bytes group_id ++ as_bytes (codes "fastkv_encryption_key_v1")))

  unfoldable pub key_id_for_group : Str → Str
  key_id_for_group group_id =
      rt.hex_encode (take 8 (rt.sha256 (as_bytes group_id ++ as_bytes (codes "key_id_v1"))))

  unfoldable pub generate_attestation : Str → Str → Str
  generate_attestation input output = rt.hex_encode (
      take 16 (
        rt.sha256
          (as_bytes (codes "outlayer_attestation_v1") ++ (as_bytes input ++ as_bytes output))))

  -- the nonce: the first 12 bytes of the digest of the plaintext and the key
  unfoldable pub nonce_for : Bytes → Bytes → Bytes
  nonce_for plaintext key = take 12 (rt.sha256 (plaintext ++ key))

  unfoldable pub encrypt : Bytes → Bytes → Result Bytes Str
  encrypt plaintext key = do
    cipher ← map_err (λ e. e) (rt.aes_new key)
    let iv_bytes = nonce_for plaintext key
    ciphertext ←
        map_err (λ e. codes "Encryption failed: " ++ e) (rt.aes_encrypt cipher iv_bytes plaintext)
    ok (iv_bytes ++ ciphertext)

  unfoldable pub decrypt : Bytes → Bytes → Result Bytes Str
  decrypt ciphertext key = do
    refuse (ltb (length ciphertext) (12 + 16)) (codes "Ciphertext too short")
    let iv = take 12 ciphertext
    let encrypted_data = drop 12 ciphertext
    cipher ← map_err (λ e. e) (rt.aes_new key)
    map_err (λ e. codes "Decryption failed: " ++ e) (rt.aes_decrypt cipher iv encrypted_data)
