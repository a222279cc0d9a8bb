-- ===== src/Contract/Crypto/RoundTrip.antt =====
-- The format of a ciphertext, and that decryption undoes encryption.
use key_manager.Base.{
  ℕ, ◌+◌, ◌<◌, ◌≡◌, ap, sym, ◌∙◌, ◌++◌, length, length-append, length-take, take, drop,
  take-length-append, drop-length-append, arith, ok, Result-cases, inl, inr, ltb, false,
}
use key_manager.Base.Text.{Bytes}
use key_manager.Contract.Runtime.{Runtime, IsStandard}
use key_manager.Contract.Crypto.{nonce_for, encrypt, decrypt}

-- What a successful encryption has done.
pub record Sealed (rt : Runtime) (plaintext key ciphertext : Bytes) : Type 0 where
  pub cipher : Bytes
  pub sealed : Bytes
  pub made : rt.aes_new key ≡ ok cipher
  pub done : rt.aes_encrypt cipher (nonce_for rt plaintext key) plaintext ≡ ok sealed
  pub layout : ciphertext ≡ nonce_for rt plaintext key ++ sealed

module _ (rt : Runtime) where
  pub encrypt-Sealed :
      (plaintext key ciphertext : Bytes)
      → encrypt rt plaintext key ≡ ok ciphertext
      → Sealed rt plaintext key ciphertext
  unfolding encrypt
  encrypt-Sealed plaintext key ciphertext h = elim (Result-cases (rt.aes_new key)) [
    | inl (cipher, made) ↦
        elim (Result-cases (rt.aes_encrypt cipher (nonce_for rt plaintext key) plaintext)) [
          | inl (sealed, done) ↦ record {
            cipher = cipher;
            sealed = sealed;
            made = made;
            done = done;
            layout = ground arith;
          }
          | inr (e, failed) ↦ absurd (ground arith)
        ]
    | inr (e, failed) ↦ absurd (ground arith)
  ]

module _ (rt : Runtime) (std : IsStandard rt) where
  pub length-nonce_for : (plaintext key : Bytes) → length (nonce_for rt plaintext key) ≡ 12
  unfolding nonce_for
  length-nonce_for plaintext key =
      omega
        (arith, length-take 12 (rt.sha256 (plaintext ++ key)), std.digest_length (plaintext ++ key))

  -- With a standard cipher and digest a ciphertext is as long as the 12 bytes of the nonce, the message and the 16 bytes of the tag.
  pub length-encrypt :
      (plaintext key ciphertext : Bytes)
      → encrypt rt plaintext key ≡ ok ciphertext
      → length ciphertext ≡ 12 + length plaintext + 16
  length-encrypt plaintext key ciphertext h =
      let s = encrypt-Sealed rt plaintext key ciphertext h in
      omega (
        arith,
        ap length s.layout,
        length-append (nonce_for rt plaintext key) s.sealed,
        length-nonce_for plaintext key,
        std.sealed_length s.cipher (nonce_for rt plaintext key) plaintext s.sealed s.done,
      )

  take-ciphertext :
      (plaintext key rest : Bytes)
      → take 12 (nonce_for rt plaintext key ++ rest) ≡ nonce_for rt plaintext key
  take-ciphertext plaintext key rest =
      let n = nonce_for rt plaintext key in
      ap (λ k. take k (n ++ rest)) (sym (length-nonce_for plaintext key))
      ∙ take-length-append n rest

  drop-ciphertext :
      (plaintext key rest : Bytes) → drop 12 (nonce_for rt plaintext key ++ rest) ≡ rest
  drop-ciphertext plaintext key rest =
      let n = nonce_for rt plaintext key in
      ap (λ k. drop k (n ++ rest)) (sym (length-nonce_for plaintext key))
      ∙ drop-length-append n rest

  not_short : (n : ℕ) → 28 < n + 1 → ltb n 28 ≡ false
  not_short n h = ground arith

  -- With a standard cipher and digest: if encryption gives a ciphertext, decryption under the same
  -- key gives back what was encrypted.
  pub decrypt-encrypt :
      (plaintext key ciphertext : Bytes)
      → encrypt rt plaintext key ≡ ok ciphertext
      → decrypt rt ciphertext key ≡ ok plaintext
  unfolding decrypt
  decrypt-encrypt plaintext key ciphertext h =
      let s = encrypt-Sealed rt plaintext key ciphertext h in
      let n = nonce_for rt plaintext key in
      rw
        (
          not_short (length ciphertext) (omega (arith, length-encrypt plaintext key ciphertext h)),
          s.made,
        )
        (rw s.layout (
          rw (
            take-ciphertext plaintext key s.sealed,
            drop-ciphertext plaintext key s.sealed,
            std.opens_sealed s.cipher n plaintext s.sealed s.done,
          )))
