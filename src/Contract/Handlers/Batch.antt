-- ===== src/Contract/Handlers/Batch.antt =====
-- The batch handlers against the single ones.
use key_manager.Base.{
  true, ◌≡◌, refl, ap, ◌∙◌, inl, inr, arith, ok, Result-cases, List, [], ◌∷◌, map, none, some, All,
}
use key_manager.Base.Text.{Str, Bytes, from_utf8}
use key_manager.Contract.Types.{
  Response, EncryptItem, DecryptItem, BatchEncryptItemResult, BatchDecryptItemResult,
}
use key_manager.Contract.Runtime.{Runtime, IsStandard}
use key_manager.Contract.Crypto.{encrypt, key_id_for_group}
use key_manager.Contract.Crypto.RoundTrip.{decrypt-encrypt}
use key_manager.Contract.Membership.{check_membership}
use key_manager.Contract.Handlers.{
  error_response, respond, group_key, handle_encrypt, handle_batch_encrypt, handle_batch_decrypt,
  encrypt_item, decrypt_item,
}
use key_manager.Contract.Handlers.RoundTrip.{as_member-true}

-- A named plaintext, as the item of a request, and a result as the item of the next request.
abbrev pub to_encrypt : Runtime → Str × Bytes → EncryptItem
to_encrypt rt (name, p) = record { key = name; plaintext_b64 = rt.base64_encode p }

abbrev pub to_decrypt : BatchEncryptItemResult → DecryptItem
to_decrypt r = record { key = r.key; ciphertext_b64 = r.ciphertext_b64 }

abbrev pub recovered : Runtime → Str × Bytes → BatchDecryptItemResult
recovered rt (name, p) = record {
  key = name;
  plaintext_b64 = rt.base64_encode p;
  plaintext_utf8 = from_utf8 p;
  error = none;
}

module _ (rt : Runtime) where
  abbrev pub batch_encrypted : Str → List BatchEncryptItemResult → Str
  batch_encrypted g rs =
      respond rt (Response.batch_encrypted (record { key_id = key_id_for_group rt g; items = rs }))

  abbrev pub batch_decrypted : Str → List BatchDecryptItemResult → Str
  batch_decrypted g rs =
      respond rt (Response.batch_decrypted (record { key_id = key_id_for_group rt g; items = rs }))

  -- The cipher takes the plaintext.
  abbrev pub Encrypts : Str → Str × Bytes → Type 0
  Encrypts g (name, p) = (c : Bytes) × (encrypt rt p (group_key rt g) ≡ ok c)

  module _ (std : IsStandard rt) (g : Str) where
    decrypt_item-encrypt_item :
        (named : Str × Bytes)
        → Encrypts g named
        → decrypt_item rt
            (group_key rt g)
            (to_decrypt (encrypt_item rt (group_key rt g) (to_encrypt rt named)))
          ≡ recovered rt named
    unfolding encrypt_item decrypt_item
    decrypt_item-encrypt_item (name, p) (c, e) = ground (
      arith,
      std.decodes_encoded p,
      std.decodes_encoded c,
      e,
      decrypt-encrypt rt std p (group_key rt g) c e,
    )

    decrypt_items-encrypt_items :
        (items : List (Str × Bytes))
        → All (Encrypts g) items
        → map
            (decrypt_item rt (group_key rt g))
            (map to_decrypt (map (encrypt_item rt (group_key rt g)) (map (to_encrypt rt) items)))
          ≡ map (recovered rt) items
    decrypt_items-encrypt_items [] h = refl
    decrypt_items-encrypt_items (x ∷ xs) (h, hs) =
        cc (decrypt_item-encrypt_item x h, decrypt_items-encrypt_items xs hs)

    -- A batch of named plaintexts that the cipher takes, encrypted for one member and sent back
    -- by another to be decrypted, returns every plaintext under its name, in the order sent, and
    -- no error.
    pub handle_batch_decrypt-handle_batch_encrypt :
        (a b : Str)
        → check_membership g a ≡ true
        → check_membership g b ≡ true
        → (items : List (Str × Bytes)) → All (Encrypts g) items
        → (rs : List BatchEncryptItemResult) × (handle_batch_encrypt rt g a
              (map (to_encrypt rt) items)
            ≡ batch_encrypted g rs)
          × (handle_batch_decrypt rt g b (map to_decrypt rs)
              ≡ batch_decrypted g (map (recovered rt) items))
    unfolding handle_batch_encrypt handle_batch_decrypt
    handle_batch_decrypt-handle_batch_encrypt a b ma mb items h = (
      map (encrypt_item rt (group_key rt g)) (map (to_encrypt rt) items),
      as_member-true rt g a _ ma,
      as_member-true rt g b _ mb ∙ ap (batch_decrypted g) (decrypt_items-encrypt_items items h),
    )

  -- The answer that the single handler gives where the item of a batch has this result.
  abbrev pub single : Str → BatchEncryptItemResult → Str
  single g r = elim r.error [
    | none ↦ respond rt (
        Response.encrypted
          (record { ciphertext_b64 = r.ciphertext_b64; key_id = key_id_for_group rt g }))
    | some e ↦ error_response rt e 500
  ]

  -- An item of a batch whose base64 decodes has the ciphertext, or the cipher's message, that a
  -- member gets by sending the item alone: the other items of the batch have no part in it.
  pub handle_encrypt-encrypt_item :
      (g a : Str) (item : EncryptItem) (p : Bytes)
      → check_membership g a ≡ true
      → rt.base64_decode item.plaintext_b64 ≡ ok p
      → handle_encrypt rt g a item.plaintext_b64 ≡ single g (encrypt_item rt (group_key rt g) item)
  unfolding handle_encrypt encrypt_item
  handle_encrypt-encrypt_item g a item p m d =
      rw (as_member-true rt g a _ m) (elim (Result-cases (encrypt rt p (group_key rt g))) [
        | inl (c, e) ↦ ground (arith, d, e)
        | inr (x, e) ↦ ground (arith, d, e)
      ])
