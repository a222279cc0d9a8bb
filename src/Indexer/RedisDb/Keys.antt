-- ===== src/Indexer/RedisDb/Keys.antt =====
-- The keys determine what they are made of.
use key_manager.Base.{ℕ, ◌≡◌, refl, ap, [], ◌∷◌, ◌++◌, arith, All, drop}
use key_manager.Base.Text.{Str, codes, split, split_once}
use key_manager.Base.Text.Laws.{Lacks, split_once-append, split-append}
use key_manager.Base.Decimal.{show}
use key_manager.Base.Decimal.RoundTrip.{IsDigit, Digits, show-Digits}
use key_manager.Indexer.RedisDb.{fastdata_key, kv_key}

-- Text before the first separator is determined by the whole.
pub cut :
    (a a' b b' : Str)
    → Lacks b':' a
    → Lacks b':' a'
    → a ++ b':' ∷ b ≡ a' ++ b':' ∷ b'
    → (a ≡ a') × (b ≡ b')
cut a a' b b' h h' e =
    let left = split_once-append b':' a b h in
    let right = split_once-append b':' a' b' h' in
    ground (arith, left, right, ap (split_once b':') e)

-- Two entries have the same key in Redis only if they are the same: the account ids have no colon,
-- the key of the entry may have some.
pub kv_key-injective :
    (p c k p' c' k' : Str)
    → Lacks b':' p
    → Lacks b':' p'
    → Lacks b':' c
    → Lacks b':' c'
    → kv_key p c k ≡ kv_key p' c' k'
    → (p ≡ p') × (c ≡ c') × (k ≡ k')
unfolding kv_key
kv_key-injective p c k p' c' k' hp hp' hc hc' e =
    let (same_p, rest) = cut p p' (c ++ b':' ∷ k) (c' ++ b':' ∷ k') hp hp' (ap (drop 3) e) in
    let (same_c, same_k) = cut c c' k k' hc hc' rest in (same_p, same_c, same_k)

fastdata-Lacks : Lacks b':' (codes "fastdata")
fastdata-Lacks = ground arith

Digits-All : (s : Str) → Digits s → All IsDigit s
Digits-All [] h = absurd h
Digits-All (c ∷ s) h = h

Digits-Lacks : (s : Str) → All IsDigit s → Lacks b':' s
Digits-Lacks [] h = tt
Digits-Lacks (c ∷ s) (h, hs) = (ground (arith, h), Digits-Lacks s hs)

-- The parts of a key of the main indexer.
pub split-fastdata_key :
    (chain_id suffix : Str) (block_height : ℕ) (receipt_id : Str)
    → Lacks b':' chain_id
    → Lacks b':' suffix
    → split b':' (fastdata_key chain_id suffix block_height receipt_id)
      ≡ codes "fastdata" ∷ chain_id ∷ suffix ∷ show block_height ∷ split b':' receipt_id
unfolding fastdata_key
split-fastdata_key chain_id suffix block_height receipt_id hc hs =
    let height =
      Digits-Lacks (show block_height)
        (Digits-All (show block_height) (show-Digits block_height)) in
    rw
      (
        split-append b':' (codes "fastdata")
            (chain_id ++ b':' ∷ (suffix ++ b':' ∷ (show block_height ++ b':' ∷ receipt_id)))
            fastdata-Lacks,
        split-append b':' chain_id (suffix ++ b':' ∷ (show block_height ++ b':' ∷ receipt_id)) hc,
        split-append b':' suffix (show block_height ++ b':' ∷ receipt_id) hs,
        split-append b':' (show block_height) receipt_id height,
      )
      refl
