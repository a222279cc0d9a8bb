-- ===== src/Contract/Tests.antt =====
-- A runtime that meets the assumptions, and the theorems at concrete requests.
use key_manager.Base.{
  ℕ, zero, suc, ◌+◌, ◌-◌, ◌≡◌, refl, sym, ap, ◌∙◌, ◌⊎◌, inl, inr, ◌↔◌, true, false, ◌++◌, [], ◌∷◌,
  List, none, some, ok, err, Result, length, length-append, length-take, take, take-length-append,
  arith, ◌≢◌, map,
}
use key_manager.Base.Text.{Str, Bytes, codes, as_bytes, split, starts_with, ends_with}
use key_manager.Contract.Types.{Request, Response, BatchEncryptItemResult}
use key_manager.Contract.Runtime.{Runtime, IsStandard}
use key_manager.Contract.Crypto.{nonce_for, encrypt, decrypt, derive_group_key, get_ckd_master_seed}
use key_manager.Contract.Crypto.RoundTrip.{decrypt-encrypt}
use key_manager.Contract.Crypto.Keys.{derive_group_key-collision, derive_group_key-NoSeed}
use key_manager.Contract.Membership.{check_membership}
use key_manager.Contract.Membership.Laws.{IsMember, check_membership_iff, check_membership-near}
use key_manager.Contract.Handlers.{
  execute, group_key, error_response, handle_encrypt, handle_decrypt, handle_batch_encrypt,
  handle_batch_decrypt,
}
use key_manager.Contract.Handlers.RoundTrip.{
  Refused, encrypted, decrypted, handle_decrypt-handle_encrypt,
}
use key_manager.Contract.Handlers.Batch.{
  to_encrypt, to_decrypt, recovered, batch_encrypted, batch_decrypted,
  handle_batch_decrypt-handle_batch_encrypt,
}
use key_manager.Contract.Handlers.Access.{denied, execute-denied}

abbrev zeros : ℕ → Bytes
zeros zero = []
zeros (suc n) = 0 ∷ zeros n

-- A digest of 32 bytes, and a cipher that appends a tag of zeros.
abbrev digest : Bytes → Bytes
digest m = take 32 (m ++ zeros 32)

abbrev seal : Bytes → Bytes → Bytes → Result Bytes Str
seal cipher nonce message = ok (message ++ zeros 16)

abbrev unseal : Bytes → Bytes → Bytes → Result Bytes Str
unseal cipher nonce sealed = ok (take (length sealed - 16) sealed)

-- A request stands for itself here: any text asks for the key of "team" for "mallory".
abbrev asked : Request
asked = Request.get_key (codes "team") (codes "mallory.org")

abbrev toy : Runtime
toy = record {
  ckd_seed_var = none;
  sha256 = digest;
  aes_new = λ key. ok key;
  aes_encrypt = seal;
  aes_decrypt = unseal;
  base64_encode = λ b. b;
  base64_decode = λ s. ok s;
  hex_encode = λ b. b;
  request_from_str = λ s. ok asked;
  response_to_string = λ r. elim r [
    | Response.failed e ↦ ok e.error
    | Response.encrypted e ↦ ok e.ciphertext_b64
    | Response.decrypted e ↦ ok e.plaintext_b64
    | _ ↦ ok []
  ];
}

length-zeros : (n : ℕ) → length (zeros n) ≡ n
length-zeros zero = refl
length-zeros (suc n) = ap suc (length-zeros n)

seal-length : (c n m s : Bytes) → seal c n m ≡ ok s → length s ≡ length m + 16
seal-length c n m s h =
    let e : m ++ zeros 16 ≡ s = cc in
    omega (arith, ap length e, length-append m (zeros 16), length-zeros 16)

unseal-seal : (c n m s : Bytes) → seal c n m ≡ ok s → unseal c n s ≡ ok m
unseal-seal c n m s h =
    let e : m ++ zeros 16 ≡ s = cc in
    let front : length s - 16 ≡ length m = omega (arith, seal-length c n m s h) in
    ap (λ t. ok t)
      (ap (λ k. take k s) front ∙ ap (take (length m)) (sym e) ∙ take-length-append m (zeros 16))

toy-IsStandard : IsStandard toy
toy-IsStandard = record {
  opens_sealed = unseal-seal;
  sealed_length = seal-length;
  digest_length = λ m. omega (arith, length-take 32 (m ++ zeros 32), length-append m (zeros 32));
  decodes_encoded = λ b. refl;
}

abbrev key_of_ones : Bytes
key_of_ones = 1 ∷ 1 ∷ []

abbrev hello : Bytes
hello = as_bytes (codes "hello")

abbrev hello_ciphertext : Bytes
hello_ciphertext = take 12 (digest (hello ++ key_of_ones)) ++ (hello ++ zeros 16)

encrypt-hello : encrypt toy hello key_of_ones ≡ ok hello_ciphertext
unfolding encrypt nonce_for
encrypt-hello = refl

decrypt-encrypt_example : decrypt toy hello_ciphertext key_of_ones ≡ ok hello
decrypt-encrypt_example =
    decrypt-encrypt toy toy-IsStandard hello key_of_ones hello_ciphertext encrypt-hello

-- The format check comes first: 27 bytes are refused whatever the key is.
decrypt_short : decrypt toy (zeros 27) key_of_ones ≡ err (codes "Ciphertext too short")
unfolding decrypt
decrypt_short = refl

members :
    (check_membership (codes "alice/private") (codes "alice.near") ≡ true)
    × (check_membership (codes "anygroup") (codes "bob.testnet") ≡ true)
    × (check_membership (codes "team") (codes "mallory.org") ≡ false)
unfolding check_membership split starts_with ends_with
members = (refl, refl, refl)

check_membership_iff_example :
    (check_membership (codes "team") (codes "mallory.org") ≡ true)
    ↔ IsMember (codes "team") (codes "mallory.org")
check_membership_iff_example = check_membership_iff (codes "team") (codes "mallory.org")

execute-denied_example : execute toy (codes "{}") ≡ denied toy
execute-denied_example = execute-denied toy (codes "{}") asked refl tt members.2

handle_decrypt-handle_encrypt_example :
    ((c : Bytes) × (handle_encrypt toy (codes "alice/data") (codes "alice.near") hello
        ≡ encrypted toy (codes "alice/data") c)
      × (handle_decrypt toy (codes "alice/data") (codes "bob.near") c
          ≡ decrypted toy (codes "alice/data") hello))
    ⊎ ((e : Str) × Refused toy hello (group_key toy (codes "alice/data")) e
        × (handle_encrypt toy (codes "alice/data") (codes "alice.near") hello
            ≡ error_response toy e 500))
handle_decrypt-handle_encrypt_example =
    handle_decrypt-handle_encrypt toy toy-IsStandard (codes "alice/data") (codes "alice.near")
      (codes "bob.near") (check_membership-near (codes "alice/data") (codes "alice"))
      (check_membership-near (codes "alice/data") (codes "bob")) hello

abbrev batch : List (Str × Bytes)
batch = (codes "greeting", hello) ∷ (codes "empty", []) ∷ []

encrypts_all : (p k : Bytes) → (c : Bytes) × (encrypt toy p k ≡ ok c)
unfolding encrypt nonce_for
encrypts_all p k = (take 12 (digest (p ++ k)) ++ (p ++ zeros 16), refl)

handle_batch_decrypt-handle_batch_encrypt_example :
    (rs : List BatchEncryptItemResult) × (handle_batch_encrypt toy
        (codes "alice/data")
        (codes "alice.near")
        (map (to_encrypt toy) batch)
      ≡ batch_encrypted toy (codes "alice/data") rs)
    × (handle_batch_decrypt toy (codes "alice/data") (codes "bob.near") (map to_decrypt rs)
        ≡ batch_decrypted toy (codes "alice/data") (map (recovered toy) batch))
handle_batch_decrypt-handle_batch_encrypt_example =
    handle_batch_decrypt-handle_batch_encrypt toy toy-IsStandard (codes "alice/data")
      (codes "alice.near") (codes "bob.near")
      (check_membership-near (codes "alice/data") (codes "alice"))
      (check_membership-near (codes "alice/data") (codes "bob")) batch
      (encrypts_all hello _, (encrypts_all [] _, tt))

-- A runtime whose digest has collisions only.
abbrev constant : Runtime
constant = record toy { sha256 = λ m. zeros 32 }

derive_group_key-collision_example :
    let digested =
      λ (group : Str). hello ++ (as_bytes group ++ as_bytes (codes "fastkv_encryption_key_v1")) in
    (digested (codes "a") ≢ digested (codes "b")) × (zeros 32 ≡ zeros 32)
derive_group_key-collision_example =
    derive_group_key-collision constant hello (codes "a") (codes "b") (omega arith) (omega arith)
      (λ e. absurd (ground (arith, e))) (unfold derive_group_key in refl)

abbrev misconfigured : Runtime
misconfigured = record toy {
  ckd_seed_var = some (codes "%%%");
  base64_decode = λ s. err (codes "Invalid byte 37, offset 0.");
}

derive_group_key-NoSeed_example :
    derive_group_key toy (get_ckd_master_seed toy) (codes "alice/data")
    ≡ derive_group_key misconfigured (get_ckd_master_seed misconfigured) (codes "alice/data")
derive_group_key-NoSeed_example =
    derive_group_key-NoSeed toy misconfigured (λ x. refl) (inl refl)
      (inr (codes "%%%", codes "Invalid byte 37, offset 0.", refl, refl)) (codes "alice/data")
