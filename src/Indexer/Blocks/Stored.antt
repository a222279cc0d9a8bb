-- ===== src/Indexer/Blocks/Stored.antt =====
-- The loop of the main indexer over the writes of fastdata-indexer/redis_db.
use key_manager.Base.{◌≡◌, ◌≢◌, ◌⊎◌, Option, some, List, [], ◌∷◌, ok}
use key_manager.Base.Text.{Str}
use key_manager.Indexer.RedisDb.{Redis, FastData, fastdata_key}

-- The documented effect of connecting and of SET on the texts under keys: a SET that reports success
-- replaces the text of its key, and none touches that of another key.
pub record IsKeyed {W E : Type 0} (redis : Redis W E) (value : W → Str → Option Str) : Type 0 where
  pub connect_value : (l : Str) (w : W) → value (redis.connect w).1 l ≡ value w l
  pub set_value :
      (k v : Str) (w : W) (u : Unit {0})
      → (redis.set k v w).0 ≡ ok u
      → value (redis.set k v w).1 k ≡ some v
  pub set_other : (k v l : Str) (w : W) → l ≢ k → value (redis.set k v w).1 l ≡ value w l

abbrev pub Among : FastData → List FastData → Type 0
Among x [] = ⊥
Among x (y ∷ ys) = (x ≡ y) ⊎ Among x ys

abbrev pub data_key : Str → FastData → Str
data_key chain_id fd = fastdata_key chain_id fd.suffix fd.block_height fd.receipt_id

module _ {W E : Type 0} (redis : Redis W E) (chain_id : Str) (value : W → Str → Option Str)
    (laws : IsKeyed redis value) where
  -- Under the key of a datum is the JSON of a datum of the list with that key.
  abbrev pub IsHeld : List FastData → FastData → W → Type 0
  IsHeld rows fd w =
      (other : FastData) × (json : Str) × Among other rows
      × (data_key chain_id other ≡ data_key chain_id fd)
      × (redis.fastdata_to_string other ≡ ok json)
      × (value w (data_key chain_id fd) ≡ some json)
