-- ===== src/Contract/Runtime.antt =====
-- What contract/src/lib.rs calls and does not contain: the crates sha2, aes-gcm, base64, hex and
-- serde_json, and the environment variable that holds the seed. Errors are their printed texts.
use key_manager.Base.{◌+◌, ◌≡◌, Option, length, Result, ok}
use key_manager.Base.Text.{Str, Bytes}
use key_manager.Contract.Types.{Request, Response}

pub record Runtime : Type 0 where
  -- `std::env::var("OUTLAYER_CKD_SEED")`
  pub ckd_seed_var : Option Str
  -- the digest of all that `update` was given, one after another
  pub sha256 : Bytes → Bytes
  -- `Aes256Gcm::new_from_slice`; the cipher is named by bytes
  pub aes_new : Bytes → Result Bytes Str
  -- cipher, nonce, message
  pub aes_encrypt : Bytes → Bytes → Bytes → Result Bytes Str
  pub aes_decrypt : Bytes → Bytes → Bytes → Result Bytes Str
  pub base64_encode : Bytes → Str
  pub base64_decode : Str → Result Bytes Str
  pub hex_encode : Bytes → Str
  pub request_from_str : Str → Result Request Str
  pub response_to_string : Response → Result Str Str

-- The documented behaviour of those crates that the round trips rely on.
pub record IsStandard (rt : Runtime) : Type 0 where
  -- AES-GCM opens what it sealed with the same cipher and nonce
  pub opens_sealed :
      (cipher nonce message sealed : Bytes)
      → rt.aes_encrypt cipher nonce message ≡ ok sealed
      → rt.aes_decrypt cipher nonce sealed ≡ ok message
  -- the sealed text is the message with a tag of 16 bytes
  pub sealed_length :
      (cipher nonce message sealed : Bytes)
      → rt.aes_encrypt cipher nonce message ≡ ok sealed
      → length sealed ≡ length message + 16
  -- a digest has 32 bytes
  pub digest_length : (input : Bytes) → length (rt.sha256 input) ≡ 32
  -- base64 decodes what it encoded
  pub decodes_encoded : (bytes : Bytes) → rt.base64_decode (rt.base64_encode bytes) ≡ ok bytes
