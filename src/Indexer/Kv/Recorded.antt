-- ===== src/Indexer/Kv/Recorded.antt =====
-- The loop of the key-value indexer over the writes of fastdata-indexer/redis_db.
use key_manager.Base.{ℕ, ◌≡◌, Bool, Option, List, [], ◌++◌, All}
use key_manager.Base.Text.{Str}
use key_manager.Base.Decimal.{ℤ}
use key_manager.Indexer.RedisDb.{Redis, FastDataKv}
use key_manager.Indexer.RedisDb.Writes.{IsRedis}
use key_manager.Indexer.RedisDb.Lasts.{
  IsLasting, IsRecorded, add_kv_batch_keeps, add_kv_batch-IsRecorded, checkpoint_keeps,
}
use key_manager.Indexer.Kv.{
  Decoding, SuffixFetcherUpdate, end_of_range, State, continue, handle, redis_sink, indexer_id,
}
use key_manager.Indexer.Kv.Loop.{Keeps, Steps, received, end_of_range-Has}

module _ {W E : Type 0} (d : Decoding) (redis : Redis W E) (chain_id : Str)
    (value : W → Str → Option Str) (scored : W → Str → Str → ℤ → Type 0)
    (in_set : W → Str → Str → Type 0) (laws : IsRedis redis value scored in_set)
    (lasting : IsLasting redis scored in_set) where
  -- An entry is on record, by the laws that hold of Redis.
  abbrev pub OnRecord : FastDataKv → W → Type 0
  OnRecord kv w = IsRecorded redis chain_id value scored in_set laws lasting kv w

  redis_sink-Keeps : Keeps (redis_sink redis chain_id) OnRecord
  redis_sink-Keeps = record {
    batch_stores = add_kv_batch-IsRecorded redis chain_id value scored in_set laws lasting;
    batch_keeps = add_kv_batch_keeps redis chain_id value scored in_set laws lasting;
    set_keeps = λ kv height w h.
        checkpoint_keeps redis chain_id value scored in_set laws lasting kv indexer_id height w h;
  }

  -- In a Redis whose commands have their documented effect: if the loop passes a sequence of updates and
  -- goes on from the end of a range, then every entry of the fast data that it received, and every one
  -- that its buffer held at first, is on record, whatever was written after it: its JSON is in the history of its key with its block height
  -- as the score, its writer among the accounts of the contract and the contract among those of the
  -- writer. And the buffer is empty.
  pub end_of_range-OnRecord :
      (updates : List (SuffixFetcherUpdate × Bool)) (height : ℕ) (stopped : Bool)
      (s s' s'' : State W)
      → Steps d (redis_sink redis chain_id) updates s s'
      → handle d (redis_sink redis chain_id) (end_of_range height) stopped s' ≡ continue s''
      → (s''.rows ≡ [])
        × All
            (λ kv. OnRecord kv s''.database)
            (s.rows ++ received d (redis_sink redis chain_id) updates)
  end_of_range-OnRecord updates height stopped s s' s'' steps h =
      end_of_range-Has d (redis_sink redis chain_id) OnRecord redis_sink-Keeps updates height
        stopped s s' s'' steps h
