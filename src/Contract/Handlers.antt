-- ===== src/Contract/Handlers.antt =====
-- `execute` and the handlers of contract/src/lib.rs.
pub mod Batch
pub mod Access
pub mod RoundTrip
use key_manager.Base.{
  ℕ, Bool, Option, none, some, List, [], ◌∷◌, ◌++◌, map, length, not, ◌==◌, if◌then◌else◌, Result,
  ok, err,
}
use key_manager.Base.Text.{Str, Bytes, codes, from_utf8}
use key_manager.Contract.Types.{
  EncryptItem, DecryptItem, Request, Response, BatchEncryptItemResult, BatchDecryptItemResult,
}
use key_manager.Contract.Runtime.{Runtime}
use key_manager.Contract.Crypto.{
  get_ckd_master_seed, derive_group_key, key_id_for_group, generate_attestation, encrypt, decrypt,
}
use key_manager.Contract.Membership.{check_membership}

abbrev else_with : Result Str Str → (Str → Str) → Str
else_with (ok s) f = s
else_with (err e) f = f e

module _ (rt : Runtime) where
  unfoldable pub error_response : Str → ℕ → Str
  error_response message code =
      else_with (rt.response_to_string (Response.failed (record { error = message; code = code })))
        (λ _. codes "{\"error\":\"Internal error\",\"code\":500}")

  -- `serde_json::to_string(&response).unwrap_or_else(|e| error_response(&e.to_string(), 500))`
  unfoldable pub respond : Response → Str
  respond r = else_with (rt.response_to_string r) (λ e. error_response e 500)

  -- `if !check_membership(…) { return error_response("Not a group member", 403); }`
  unfoldable pub as_member : Str → Str → Str → Str
  as_member group_id account_id reply =
      if not (check_membership group_id account_id)
      then error_response (codes "Not a group member") 403
      else reply

  -- the key of a group in this enclave
  unfoldable pub group_key : Str → Bytes
  group_key group_id = derive_group_key rt (get_ckd_master_seed rt) group_id

  unfoldable pub handle_get_key : Str → Str → Str
  unfolding as_member respond group_key
  handle_get_key group_id account_id = as_member group_id account_id (
      let key = group_key group_id in
      respond (
        Response.key (record {
          key_b64 = rt.base64_encode key;
          key_id = key_id_for_group rt group_id;
          group_id = group_id;
          attestation_hash =
              generate_attestation rt (codes "get_key:" ++ (group_id ++ (codes ":" ++ account_id)))
                (rt.base64_encode key);
        })))

  unfoldable pub handle_get_group_key_id : Str → Str → Str
  unfolding respond
  handle_get_group_key_id group_id _ = respond (
      Response.group_key_id (record {
        key_id = key_id_for_group rt group_id;
        group_id = group_id;
        algorithm = codes "AES-256-GCM";
      }))

  unfoldable pub handle_wrap_key : Str → Str → Str → Str
  unfolding as_member respond group_key
  handle_wrap_key group_id account_id plaintext_key_b64 =
      as_member group_id account_id (elim (rt.base64_decode plaintext_key_b64) [
        | err e ↦ error_response (codes "Invalid base64 key: " ++ e) 400
        | ok plaintext_key ↦
            if not (length plaintext_key == 32)
            then error_response (codes "Key must be 32 bytes") 400
            else elim (encrypt rt plaintext_key (group_key group_id)) [
              | err e ↦ error_response e 500
              | ok wrapped_key ↦ respond (
                  Response.wrapped (record {
                    wrapped_key_b64 = rt.base64_encode wrapped_key;
                    key_id = key_id_for_group rt group_id;
                  }))
            ]
      ])

  unfoldable pub handle_unwrap_key : Str → Str → Str → Str
  unfolding as_member respond group_key
  handle_unwrap_key group_id account_id wrapped_key_b64 =
      as_member group_id account_id (elim (rt.base64_decode wrapped_key_b64) [
        | err e ↦ error_response (codes "Invalid base64 wrapped key: " ++ e) 400
        | ok wrapped_key ↦ elim (decrypt rt wrapped_key (group_key group_id)) [
          | err e ↦ error_response e 500
          | ok plaintext_key ↦ respond (
              Response.unwrapped (record {
                plaintext_key_b64 = rt.base64_encode plaintext_key;
                key_id = key_id_for_group rt group_id;
              }))
        ]
      ])

  unfoldable pub handle_encrypt : Str → Str → Str → Str
  unfolding as_member respond group_key
  handle_encrypt group_id account_id plaintext_b64 =
      as_member group_id account_id (elim (rt.base64_decode plaintext_b64) [
        | err e ↦ error_response (codes "Invalid base64 plaintext: " ++ e) 400
        | ok plaintext ↦ elim (encrypt rt plaintext (group_key group_id)) [
          | err e ↦ error_response e 500
          | ok ciphertext ↦ respond (
              Response.encrypted (record {
                ciphertext_b64 = rt.base64_encode ciphertext;
                key_id = key_id_for_group rt group_id;
              }))
        ]
      ])

  unfoldable pub handle_decrypt : Str → Str → Str → Str
  unfolding as_member respond group_key
  handle_decrypt group_id account_id ciphertext_b64 =
      as_member group_id account_id (elim (rt.base64_decode ciphertext_b64) [
        | err e ↦ error_response (codes "Invalid base64 ciphertext: " ++ e) 400
        | ok ciphertext ↦ elim (decrypt rt ciphertext (group_key group_id)) [
          | err e ↦ error_response e 500
          | ok plaintext ↦ respond (
              Response.decrypted (record {
                plaintext_b64 = rt.base64_encode plaintext;
                plaintext_utf8 = from_utf8 plaintext;
                key_id = key_id_for_group rt group_id;
              }))
        ]
      ])

  unfoldable pub handle_verify_membership : Str → Str → Str
  unfolding respond
  handle_verify_membership group_id account_id = respond (
      Response.membership (record {
        is_member = check_membership group_id account_id;
        group_id = group_id;
        account_id = account_id;
      }))

  -- the closure of `handle_batch_encrypt`
  unfoldable pub encrypt_item : Bytes → EncryptItem → BatchEncryptItemResult
  encrypt_item key item = elim (rt.base64_decode item.plaintext_b64) [
    | ok plaintext ↦ elim (encrypt rt plaintext key) [
      | ok ciphertext ↦ record {
        key = item.key;
        ciphertext_b64 = rt.base64_encode ciphertext;
        error = none;
      }
      | err e ↦ record { key = item.key; ciphertext_b64 = []; error = some e }
    ]
    | err e ↦ record {
      key = item.key;
      ciphertext_b64 = [];
      error = some (codes "Invalid base64: " ++ e);
    }
  ]

  unfoldable pub handle_batch_encrypt : Str → Str → List EncryptItem → Str
  unfolding as_member respond group_key
  handle_batch_encrypt group_id account_id items = as_member group_id account_id (
      respond (
        Response.batch_encrypted (record {
          key_id = key_id_for_group rt group_id;
          items = map (encrypt_item (group_key group_id)) items;
        })))

  -- the closure of `handle_batch_decrypt`
  unfoldable pub decrypt_item : Bytes → DecryptItem → BatchDecryptItemResult
  decrypt_item key item = elim (rt.base64_decode item.ciphertext_b64) [
    | ok ciphertext ↦ elim (decrypt rt ciphertext key) [
      | ok plaintext ↦ record {
        key = item.key;
        plaintext_b64 = rt.base64_encode plaintext;
        plaintext_utf8 = from_utf8 plaintext;
        error = none;
      }
      | err e ↦ record { key = item.key; plaintext_b64 = []; plaintext_utf8 = none; error = some e }
    ]
    | err e ↦ record {
      key = item.key;
      plaintext_b64 = [];
      plaintext_utf8 = none;
      error = some (codes "Invalid base64: " ++ e);
    }
  ]

  unfoldable pub handle_batch_decrypt : Str → Str → List DecryptItem → Str
  unfolding as_member respond group_key
  handle_batch_decrypt group_id account_id items = as_member group_id account_id (
      respond (
        Response.batch_decrypted (record {
          key_id = key_id_for_group rt group_id;
          items = map (decrypt_item (group_key group_id)) items;
        })))

  unfoldable pub handle_request : Request → Str
  handle_request (Request.get_key g a) = handle_get_key g a
  handle_request (Request.get_group_key_id g a) = handle_get_group_key_id g a
  handle_request (Request.wrap_key g a k) = handle_wrap_key g a k
  handle_request (Request.unwrap_key g a k) = handle_unwrap_key g a k
  handle_request (Request.encrypt g a p) = handle_encrypt g a p
  handle_request (Request.decrypt g a c) = handle_decrypt g a c
  handle_request (Request.verify_membership g a) = handle_verify_membership g a
  handle_request (Request.batch_encrypt g a items) = handle_batch_encrypt g a items
  handle_request (Request.batch_decrypt g a items) = handle_batch_decrypt g a items

  unfoldable pub execute : Str → Str
  execute input = elim (rt.request_from_str input) [
    | ok req ↦ handle_request req
    | err e ↦ error_response (codes "Invalid request: " ++ e) 400
  ]
