-- ===== src/Contract/Crypto/Keys.antt =====
-- What keeps the keys of two groups apart, and what an attestation hash does not tell apart.
use mathlib.Core.List.{append_cancel_left, append_cancel_right}
use key_manager.Base.{
  ◌≡◌, ◌≢◌, sym, ap, ◌∙◌, ◌++◌, ◌⊎◌, inl, inr, some, none, err, All, arith, take,
}
use key_manager.Base.Text.{Str, Bytes, codes, as_bytes}
use key_manager.Base.Text.Laws.{as_bytes-append}
use key_manager.Base.Text.Utf8.{IsScalar, as_bytes-injective}
use key_manager.Contract.Runtime.{Runtime}
use key_manager.Contract.Crypto.{
  derive_fallback_seed, get_ckd_master_seed, derive_group_key, generate_attestation,
}

module _ (rt : Runtime) where
  -- If one seed gives two different groups the same key, the two texts that were digested for it
  -- are a collision of SHA-256: they differ, begin with the seed, end with the version of the scheme, have the groups between them, and have one digest.
  pub derive_group_key-collision :
      (seed : Bytes) (g h : Str)
      → All IsScalar g
      → All IsScalar h
      → g ≢ h
      → derive_group_key rt seed g ≡ derive_group_key rt seed h
      → let digested = λ (group : Str).
        seed ++ (as_bytes group ++ as_bytes (codes "fastkv_encryption_key_v1")) in
        (digested g ≢ digested h) × (rt.sha256 (digested g) ≡ rt.sha256 (digested h))
  unfolding derive_group_key
  derive_group_key-collision seed g h vg vh apart e = (
    (λ same. apart (
        as_bytes-injective g h vg vh (
          append_cancel_right _ _ (as_bytes (codes "fastkv_encryption_key_v1"))
            (append_cancel_left seed _ _ same)))),
    e,
  )

  -- The attestation hash sees an input and an output only as one text: where they are cut apart
  -- does not change it.
  pub generate_attestation-append :
      (i o i' o' : Str)
      → i ++ o ≡ i' ++ o'
      → generate_attestation rt i o ≡ generate_attestation rt i' o'
  unfolding generate_attestation
  generate_attestation-append i o i' o' e =
      ap
        (λ b. rt.hex_encode (take 16 (rt.sha256 (as_bytes (codes "outlayer_attestation_v1") ++ b))))
        (sym (as_bytes-append i o) ∙ ap as_bytes e ∙ as_bytes-append i' o')

-- The enclave has no seed of its own: the variable is not set, or its value is no base64.
abbrev pub NoSeed : Runtime → Type 0
NoSeed rt =
    (rt.ckd_seed_var ≡ none)
    ⊎ ((seed : Str) × (e : Str) × (rt.ckd_seed_var ≡ some seed) × (rt.base64_decode seed ≡ err e))

get_ckd_master_seed-NoSeed :
    (rt : Runtime) → NoSeed rt → get_ckd_master_seed rt ≡ derive_fallback_seed rt
unfolding get_ckd_master_seed
get_ckd_master_seed-NoSeed rt (inl e) = ground (arith, e)
get_ckd_master_seed-NoSeed rt (inr (seed, m, e, d)) = ground (arith, e, d)

-- Two enclaves that have no seed of their own, a value that is no base64 included, use the same
-- key for every group.
pub derive_group_key-NoSeed :
    (rt rt' : Runtime)
    → ((x : Bytes) → rt.sha256 x ≡ rt'.sha256 x)
    → NoSeed rt
    → NoSeed rt'
    → (g : Str)
    → derive_group_key rt (get_ckd_master_seed rt) g
      ≡ derive_group_key rt' (get_ckd_master_seed rt') g
unfolding derive_group_key derive_fallback_seed
derive_group_key-NoSeed rt rt' same n n' g =
    rw (get_ckd_master_seed-NoSeed rt n, get_ckd_master_seed-NoSeed rt' n', same, same)
