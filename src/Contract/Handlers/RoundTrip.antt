-- ===== src/Contract/Handlers/RoundTrip.antt =====
-- What one member of a group encrypts or wraps, every member of it decrypts or unwraps.
use key_manager.Base.{
  true, ◌≡◌, ◌⊎◌, inl, inr, arith, length, ◌==◌, ok, err, ◌++◌, Result-cases, Bool-cases, ◌≢◌,
}
use key_manager.Base.Text.{Str, Bytes, codes, from_utf8}
use key_manager.Contract.Types.{Response}
use key_manager.Contract.Runtime.{Runtime, IsStandard}
use key_manager.Contract.Crypto.{nonce_for, encrypt, decrypt, key_id_for_group}
use key_manager.Contract.Crypto.RoundTrip.{decrypt-encrypt}
use key_manager.Contract.Membership.{check_membership}
use key_manager.Contract.Handlers.{
  error_response, respond, as_member, group_key, handle_wrap_key, handle_unwrap_key, handle_encrypt,
  handle_decrypt,
}

module _ (rt : Runtime) where
  pub as_member-true :
      (g a reply : Str) → check_membership g a ≡ true → as_member rt g a reply ≡ reply
  unfolding as_member
  as_member-true g a reply h = ground arith

  abbrev pub encrypted : Str → Bytes → Str
  encrypted g c = respond rt (
      Response.encrypted
        (record { ciphertext_b64 = rt.base64_encode c; key_id = key_id_for_group rt g }))

  abbrev pub decrypted : Str → Bytes → Str
  decrypted g p = respond rt (
      Response.decrypted (record {
        plaintext_b64 = rt.base64_encode p;
        plaintext_utf8 = from_utf8 p;
        key_id = key_id_for_group rt g;
      }))

  abbrev pub wrapped : Str → Bytes → Str
  wrapped g w = respond rt (
      Response.wrapped
        (record { wrapped_key_b64 = rt.base64_encode w; key_id = key_id_for_group rt g }))

  abbrev pub unwrapped : Str → Bytes → Str
  unwrapped g k = respond rt (
      Response.unwrapped
        (record { plaintext_key_b64 = rt.base64_encode k; key_id = key_id_for_group rt g }))

  -- The cipher takes no such key, or does not seal the plaintext under the nonce, with this message.
  abbrev pub Refused : Bytes → Bytes → Str → Type 0
  Refused plaintext key message =
      (rt.aes_new key ≡ err message)
      ⊎ ((cipher : Bytes) × (e : Str) × (rt.aes_new key ≡ ok cipher)
          × (rt.aes_encrypt cipher (nonce_for rt plaintext key) plaintext ≡ err e)
          × (message ≡ codes "Encryption failed: " ++ e))

  encrypt-Refused :
      (plaintext key : Bytes) (message : Str)
      → encrypt rt plaintext key ≡ err message
      → Refused plaintext key message
  unfolding encrypt
  encrypt-Refused plaintext key message h = elim (Result-cases (rt.aes_new key)) [
    | inr (e, bad) ↦ inl (ground (arith, bad, h))
    | inl (cipher, good) ↦
        elim (Result-cases (rt.aes_encrypt cipher (nonce_for rt plaintext key) plaintext)) [
          | inr (e, bad) ↦ inr (cipher, e, good, bad, ground (arith, good, bad, h))
          | inl (sealed, fine) ↦ absurd (ground (arith, good, fine, h))
        ]
  ]

  module _ (std : IsStandard rt) (g a b : Str) (ma : check_membership g a ≡ true)
      (mb : check_membership g b ≡ true) where
    handle_decrypt_ok :
        (ciphertext plaintext : Bytes)
        → decrypt rt ciphertext (group_key rt g) ≡ ok plaintext
        → handle_decrypt rt g b (rt.base64_encode ciphertext) ≡ decrypted g plaintext
    unfolding handle_decrypt
    handle_decrypt_ok c p h =
        rw (as_member-true g b _ mb) (ground (arith, std.decodes_encoded c, h))

    handle_unwrap_key_ok :
        (w k : Bytes)
        → decrypt rt w (group_key rt g) ≡ ok k
        → handle_unwrap_key rt g b (rt.base64_encode w) ≡ unwrapped g k
    unfolding handle_unwrap_key
    handle_unwrap_key_ok w k h =
        rw (as_member-true g b _ mb) (ground (arith, std.decodes_encoded w, h))

    -- Let a member of a group ask to encrypt a plaintext. Either the cipher refuses it, and the
    -- answer is the error 500 with the message of that refusal, or the answer holds a ciphertext, and any
    -- member of the group who sends that ciphertext to be decrypted is answered with the plaintext.
    pub handle_decrypt-handle_encrypt :
        (plaintext : Bytes)
        → ((c : Bytes) × (handle_encrypt rt g a (rt.base64_encode plaintext) ≡ encrypted g c)
            × (handle_decrypt rt g b (rt.base64_encode c) ≡ decrypted g plaintext))
          ⊎ ((e : Str) × Refused plaintext (group_key rt g) e
              × (handle_encrypt rt g a (rt.base64_encode plaintext) ≡ error_response rt e 500))
    unfolding handle_encrypt
    handle_decrypt-handle_encrypt p = elim (Result-cases (encrypt rt p (group_key rt g))) [
      | inl (c, e) ↦ inl (
        c,
        rw (as_member-true g a _ ma) (ground (arith, std.decodes_encoded p, e)),
        handle_decrypt_ok c p (decrypt-encrypt rt std p (group_key rt g) c e),
      )
      | inr (m, e) ↦ inr (
        m,
        encrypt-Refused p (group_key rt g) m e,
        rw (as_member-true g a _ ma) (ground (arith, std.decodes_encoded p, e)),
      )
    ]

    -- Let a member of a group ask to wrap a key. A key that has not 32 bytes is refused with the error
    -- 400. Else either the cipher refuses it, and the answer is an error 500, or the answer holds a
    -- wrapped key, and any member of the group who sends it to be unwrapped is answered with the key.
    pub handle_unwrap_key-handle_wrap_key :
        (key : Bytes)
        → ((length key ≡ 32)
            × (w : Bytes) × (handle_wrap_key rt g a (rt.base64_encode key) ≡ wrapped g w)
            × (handle_unwrap_key rt g b (rt.base64_encode w) ≡ unwrapped g key))
          ⊎ (((length key ≡ 32)
                × (e : Str) × (handle_wrap_key rt g a (rt.base64_encode key)
                    ≡ error_response rt e 500))
              ⊎ ((length key ≢ 32)
                  × (handle_wrap_key rt g a (rt.base64_encode key)
                      ≡ error_response rt (codes "Key must be 32 bytes") 400)))
    unfolding handle_wrap_key
    handle_unwrap_key-handle_wrap_key key = elim (Bool-cases (length key == 32)) [
      | inl fits ↦ elim (Result-cases (encrypt rt key (group_key rt g))) [
        | inl (w, e) ↦ inl (
          ground arith,
          w,
          rw (as_member-true g a _ ma) (ground (arith, std.decodes_encoded key, e)),
          handle_unwrap_key_ok w key (decrypt-encrypt rt std key (group_key rt g) w e),
        )
        | inr (m, e) ↦ inr (
            inl (
              ground arith,
              m,
              rw (as_member-true g a _ ma) (ground (arith, std.decodes_encoded key, e)),
            ))
      ]
      | inr other ↦ inr (
          inr
            (ground arith, rw (as_member-true g a _ ma) (ground (arith, std.decodes_encoded key))))
    ]
