-- ===== src/Indexer/SuffixFetcher/Keys.antt =====
-- The fetcher reads the height out of the keys that the main indexer writes.
use key_manager.Base.{ℕ, ◌≤◌, ◌≡◌, refl, ◌∙◌, ◌≢◌, some, List, [], ◌∷◌, arith}
use key_manager.Base.Text.{Str, split}
use key_manager.Base.Text.Laws.{Lacks, split-ne-nil}
use key_manager.Base.Decimal.{parse_u64, u64_max}
use key_manager.Base.Decimal.RoundTrip.{parse_u64-show}
use key_manager.Indexer.RedisDb.{fastdata_key}
use key_manager.Indexer.RedisDb.Keys.{split-fastdata_key}
use key_manager.Indexer.SuffixFetcher.{key_height}

key_height-five :
    (key a b c h : Str) (parts : List Str)
    → parts ≢ []
    → split b':' key ≡ a ∷ b ∷ c ∷ h ∷ parts
    → key_height key ≡ parse_u64 h
unfolding key_height
key_height-five key a b c h [] n e = absurd (n refl)
key_height-five key a b c h (p ∷ parts) n e = ground (arith, e)

-- The height that the fetcher finds in a key is the one that the main indexer wrote into it, if the
-- chain's id and the suffix have no colon, whatever the receipt's id is.
pub key_height-fastdata_key :
    (chain_id suffix : Str) (block_height : ℕ) (receipt_id : Str)
    → Lacks b':' chain_id
    → Lacks b':' suffix
    → block_height ≤ u64_max
    → key_height (fastdata_key chain_id suffix block_height receipt_id) ≡ some block_height
key_height-fastdata_key chain_id suffix block_height receipt_id hc hs hb =
    key_height-five _ _ _ _ _ (split b':' receipt_id) (split-ne-nil b':' receipt_id)
      (split-fastdata_key chain_id suffix block_height receipt_id hc hs)
    ∙ parse_u64-show block_height hb
